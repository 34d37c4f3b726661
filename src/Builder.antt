-- ===== src/Builder.antt =====
-- dto/target_builder.go. The attributes of a target are a pointer to a map: a target that was built and
-- its builder share the map, so the maps stand in a heap, under their addresses.
pub mod Sharing
use ff_golang_server_sdk.Common.{
  ℕ, zero, suc, String, Bool, Option, none, some, List, [], ◌∷◌, ◌++◌, length,
}
use ff_golang_server_sdk.Common.Dict.{insert}
use ff_golang_server_sdk.Target.{Target, Value, string_value}

module _ (F : Type 0) where
  -- A `map[string]interface{}`
  abbrev pub Attributes : Type 0
  Attributes = List (String × Value F)

  abbrev pub Heap : Type 0
  Heap = List Attributes

  unfoldable pub read : ℕ → Heap → Attributes
  read n [] = []
  read zero (m ∷ heap) = m
  read (suc n) (m ∷ heap) = read n heap

  unfoldable pub update : ℕ → (Attributes → Attributes) → Heap → Heap
  update n f [] = []
  update zero f (m ∷ heap) = f m ∷ heap
  update (suc n) f (m ∷ heap) = m ∷ update n f heap

  -- A `Target` in memory; `attributes` is an address. `targetBuilder` is a pointer to one, and `Build`
  -- gives a copy of it.
  pub record TargetBuilder : Type 0 where
    pub identifier : String
    pub name : String
    pub anonymous : Option Bool
    pub attributes : Option ℕ

  -- `NewTargetBuilder`
  unfoldable pub new_target_builder : String → TargetBuilder
  new_target_builder identifier = record {
    identifier = identifier;
    name = "";
    anonymous = none;
    attributes = none;
  }

  -- `Custom`
  unfoldable pub custom : String → Value F → TargetBuilder → Heap → TargetBuilder × Heap
  unfolding update insert
  custom key value b heap = elim b.attributes [
    | none ↦ (record b { attributes = some (length heap) }, heap ++ insert key value [] ∷ [])
    | some a ↦ (b, update a (λ m. insert key value m) heap)
  ]

  -- `IP`, `Country`, `Email`, `Firstname`, `Lastname`
  unfoldable pub ip : String → TargetBuilder → Heap → TargetBuilder × Heap
  unfolding custom
  ip value = custom "ip" (string_value value)

  unfoldable pub country : String → TargetBuilder → Heap → TargetBuilder × Heap
  unfolding custom
  country value = custom "country" (string_value value)

  unfoldable pub email : String → TargetBuilder → Heap → TargetBuilder × Heap
  unfolding custom
  email value = custom "email" (string_value value)

  unfoldable pub firstname : String → TargetBuilder → Heap → TargetBuilder × Heap
  unfolding custom
  firstname value = custom "first_name" (string_value value)

  unfoldable pub lastname : String → TargetBuilder → Heap → TargetBuilder × Heap
  unfolding custom
  lastname value = custom "last_name" (string_value value)

  -- `Name`, `Anonymous`
  unfoldable pub set_name : String → TargetBuilder → Heap → TargetBuilder × Heap
  set_name name b heap = (record b { name = name }, heap)

  unfoldable pub set_anonymous : Bool → TargetBuilder → Heap → TargetBuilder × Heap
  set_anonymous value b heap = (record b { anonymous = some value }, heap)

  abbrev pub read_at : Option ℕ → Heap → Option Attributes
  read_at none heap = none
  read_at (some a) heap = some (read a heap)

  -- `Build`, and the target as an evaluation finds it in a heap
  unfoldable pub build : TargetBuilder → TargetBuilder
  build b = b

  abbrev pub seen : Heap → TargetBuilder → Target F
  seen heap t = record {
    identifier = t.identifier;
    name = t.name;
    anonymous = t.anonymous;
    attributes = read_at t.attributes heap;
  }

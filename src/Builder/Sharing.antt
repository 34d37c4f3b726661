-- ===== src/Builder/Sharing.antt =====
-- dto/target_builder.go: what the targets of a builder hold, and how they share their attributes.
use ff_golang_server_sdk.Common.{
  ℕ, zero, suc, ◌<◌, String, ◌≡◌, refl, Bool, true, false, Option, none, some, [], ◌∷◌, ◌++◌, ◌==◌,
  ◌&&◌, if◌then◌else◌, length, arith, Option-cases, inl, inr,
}
use ff_golang_server_sdk.Common.Dict.{lookup, insert, lookup-insert}
use ff_golang_server_sdk.Go.{Runtime}
use ff_golang_server_sdk.Target.{Value, get_attr_value, builtin_attr, or_builtin}
use ff_golang_server_sdk.Builder.{
  Attributes, Heap, TargetBuilder, read, update, custom, build, seen,
}

module _ (F : Type 0) where
  read-update :
      (n : ℕ) (f : Attributes F → Attributes F) (heap : Heap F)
      → n < length heap
      → read F n (update F n f heap) ≡ f (read F n heap)
  unfolding read update
  read-update n f [] h = absurd (omega arith)
  read-update zero f (m ∷ heap) h = refl
  read-update (suc n) f (m ∷ heap) h = read-update n f heap (omega arith)

  read-end : (heap : Heap F) (m : Attributes F) → read F (length heap) (heap ++ m ∷ []) ≡ m
  unfolding read
  read-end [] m = refl
  read-end (_ ∷ heap) m = read-end heap m

module _ (rt : Runtime) where
  abbrev pub Placed : Option ℕ → Heap rt.Float → Type 0
  Placed none heap = Unit
  Placed (some a) heap = a < length heap

  -- The attributes of the target stand in the heap.
  abbrev pub IsPlaced : TargetBuilder rt.Float → Heap rt.Float → Type 0
  IsPlaced b heap = Placed b.attributes heap

  abbrev pub has_attributes : Option ℕ → Bool
  has_attributes none = false
  has_attributes (some a) = true

  -- The value of an attribute of a target in a heap.
  abbrev pub attribute : Heap rt.Float → TargetBuilder rt.Float → String → Value rt.Float
  attribute heap t sought = get_attr_value rt (some (seen rt.Float heap t)) sought

  custom-shared :
      (a : ℕ) (t : TargetBuilder rt.Float) (heap : Heap rt.Float) (key sought : String)
      (value : Value rt.Float)
      → t.attributes ≡ some a
      → a < length heap
      → attribute (update rt.Float a (λ m. insert key value m) heap) t sought
        ≡ (if key == sought then value else attribute heap t sought)
  unfolding get_attr_value
  custom-shared a t heap key sought value at placed = rw at (
      rw (read-update rt.Float a (λ m. insert key value m) heap placed)
        (rw (lookup-insert key sought value (read rt.Float a heap)) (by_test (key == sought))))
    where
      by_test :
          (b : Bool)
          → or_builtin
              (builtin_attr rt (seen rt.Float heap t) sought)
              (if b then some value else lookup sought (read rt.Float a heap))
            ≡ (if b
                then value
                else or_builtin
                    (builtin_attr rt (seen rt.Float heap t) sought)
                    (lookup sought (read rt.Float a heap)))
      by_test true = refl
      by_test false = refl

  custom-fresh :
      (t : TargetBuilder rt.Float) (heap : Heap rt.Float) (key sought : String)
      (value : Value rt.Float)
      → t.attributes ≡ none
      → attribute
          (heap ++ insert key value [] ∷ [])
          (record t { attributes = some (length heap) })
          sought
        ≡ (if key == sought then value else attribute heap t sought)
  unfolding get_attr_value lookup
  custom-fresh t heap key sought value at = rw at (
      rw (read-end rt.Float heap (insert key value []))
        (rw (lookup-insert key sought value []) (by_test (key == sought))))
    where
      by_test :
          (b : Bool)
          → or_builtin
              (builtin_attr rt (seen rt.Float heap t) sought)
              (if b then some value else lookup sought [])
            ≡ (if b then value else builtin_attr rt (seen rt.Float heap t) sought)
      by_test true = refl
      by_test false = refl

  -- A target that is built behind `Custom` reads the new value under its key, and under every other key
  -- what it read before, where the builder's map stands in the heap.
  pub custom-build :
      (b : TargetBuilder rt.Float) (heap : Heap rt.Float) (key sought : String)
      (value : Value rt.Float)
      → IsPlaced b heap
      → (let (b', heap') = custom rt.Float key value b heap in
          attribute heap' (build rt.Float b') sought)
        ≡ (if key == sought then value else attribute heap (build rt.Float b) sought)
  unfolding custom build
  custom-build b heap key sought value placed = elim (Option-cases b.attributes) [
    | inl e ↦ let fresh = custom-fresh b heap key sought value e in rw e (rw e at fresh)
    | inr (a, e) ↦
        let shared = custom-shared a b heap key sought value e (rw e at placed) in
        rw e (rw e at shared)
  ]

  -- A target that was built before a call of `Custom` reads the new value too when it had attributes,
  -- and is left alone when it had none: the built target shares its map with the builder.
  pub build-custom :
      (b : TargetBuilder rt.Float) (heap : Heap rt.Float) (key sought : String)
      (value : Value rt.Float)
      → IsPlaced b heap
      → (let heap' = (custom rt.Float key value b heap).1 in
          attribute heap' (build rt.Float b) sought)
        ≡ (if has_attributes b.attributes && key == sought
            then value
            else attribute heap (build rt.Float b) sought)
  unfolding custom build
  build-custom b heap key sought value placed = elim (Option-cases b.attributes) [
    | inl e ↦ rw e refl
    | inr (a, e) ↦
        let shared = custom-shared a b heap key sought value e (rw e at placed) in
        rw e (rw e at shared)
  ]

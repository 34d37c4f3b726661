-- ===== src/Common/Dict.antt =====
-- Go maps with text keys, as association lists. The entry that stands first under a key counts.
use Prim.Native.String.{String}
use mathlib.Core.Path.{◌≡◌, refl}
use mathlib.Core.Option.{Option, none, some}
use mathlib.Core.List.{List, [], ◌∷◌}
use native.Mathlib.Omega.{arith}
use text.Mathlib.Text.{◌==◌}
use text.Mathlib.TextEquality.{eq_iff}
use ff_golang_server_sdk.Common.Tests.{if◌then◌else◌}

module _ {ℓ} {A : Type ℓ} where
  unfoldable pub lookup : String → List (String × A) → Option A
  lookup key [] = none
  lookup key (entry ∷ entries) =
      let rest = lookup key entries in if entry.0 == key then some entry.1 else rest

  -- `m[key] = value`
  unfoldable pub insert : String → A → List (String × A) → List (String × A)
  insert key value [] = (key, value) ∷ []
  insert key value (entry ∷ entries) =
      let rest = insert key value entries in
      if entry.0 == key then (key, value) ∷ entries else entry ∷ rest

  -- `delete(m, key)`
  unfoldable pub delete : String → List (String × A) → List (String × A)
  delete key [] = []
  delete key (entry ∷ entries) =
      let rest = delete key entries in if entry.0 == key then rest else entry ∷ rest

  pub lookup-insert :
      (key sought : String) (value : A) (entries : List (String × A))
      → lookup sought (insert key value entries)
        ≡ (if key == sought then some value else lookup sought entries)
  unfolding lookup insert
  lookup-insert key sought value [] = refl
  lookup-insert key sought value (entry ∷ entries) = ground (
    lookup-insert key sought value entries,
    eq_iff entry.0 key,
    eq_iff entry.0 sought,
    eq_iff key sought,
    arith,
  )

  pub lookup-delete :
      (key sought : String) (entries : List (String × A))
      → lookup sought (delete key entries) ≡ (if key == sought then none else lookup sought entries)
  unfolding lookup delete
  lookup-delete key sought [] = ground arith
  lookup-delete key sought (entry ∷ entries) = ground (
    lookup-delete key sought entries,
    eq_iff entry.0 key,
    eq_iff entry.0 sought,
    eq_iff key sought,
    arith,
  )

-- ===== src/Client/Polling/Leaving.antt =====
-- `retrieveFlags` and `retrieveSegments` of client/client.go: what is said of the items of an answer and the
-- states of the cache around their writes.
use mathlib.Core.Path.{subst}
use ff_golang_server_sdk.Common.{
  String, ◌≡◌, ◌≢◌, refl, sym, ◌∙◌, true, false, Option, none, some, List, [], ◌∷◌, All, ◌⊎◌, inl,
  inr, arith,
}
use ff_golang_server_sdk.Common.Int.{ℤ, leb_ℤ, ◌≤ℤ◌}
use ff_golang_server_sdk.Common.Run.{ret}
use ff_golang_server_sdk.Repository.{Cache, Storage, Kind, compare_versions, outdated_by}
use ff_golang_server_sdk.Repository.View.{CacheLaws, view, answer}
use ff_golang_server_sdk.Repository.Typed.{}

not_newer : (n v : ℤ) → leb_ℤ n v ≡ true → n ≤ℤ v
not_newer n v h = ground arith

newer : (n v : ℤ) → leb_ℤ n v ≡ false → ¬ (n ≤ℤ v)
newer n v h k = ground arith

module _ (c : Cache) (s : Storage) (laws : CacheLaws c) {A : Type 0} (kind : Kind A) where
  abbrev sees : c.State → String → Option A
  sees = view c s laws kind

  -- The item that was there is at least as new as `a`.
  abbrev pub IsNotOlder : Option A → A → Type 0
  IsNotOlder old a =
      (y : A) × (n : ℤ) × (v : ℤ) × (old ≡ some y)
      × (kind.version y ≡ some n)
      × (kind.version a ≡ some v)
      × (v ≤ℤ n)

  -- An old item without a version, or a version below the new one.
  abbrev pub IsAbove : Option ℤ → Option ℤ → Type 0
  IsAbove none new = Unit
  IsAbove (some v) none = ⊥
  IsAbove (some v) (some n) = ¬ (n ≤ℤ v)

  -- There was no item, or one that is older than `a`.
  abbrev pub IsNewer : Option A → A → Type 0
  IsNewer none a = Unit
  IsNewer (some y) a = IsAbove (kind.version y) (kind.version a)

  -- Under the identifier of `a` a read finds `a`, which is newer than what was there, or the item that it found before, which then is at least
  -- as new.
  abbrev pub IsServed : c.State → c.State → A → Type 0
  IsServed st st' a =
      ((sees st' (kind.identifier a) ≡ some a) × IsNewer (sees st (kind.identifier a)) a)
      ⊎ ((sees st' (kind.identifier a) ≡ sees st (kind.identifier a))
          × IsNotOlder (sees st (kind.identifier a)) a)

  -- No two items of a list have one identifier.
  abbrev pub HasDistinct : List A → Type 0
  HasDistinct [] = Unit
  HasDistinct (a ∷ items) =
      All (λ b. kind.identifier a ≢ kind.identifier b) items × HasDistinct items

  abbrev pub HasVersion : A → Type 0
  HasVersion a = kind.version a ≢ none

  abbrev pub OthersThan : String → List A → Type 0
  OthersThan j items = All (λ b. kind.identifier b ≢ j) items

  -- What the writes of a list leave.
  abbrev pub Leaves : c.State → c.State → List A → Type 0
  Leaves st st' items =
      All (λ a. IsServed st st' a) items
      × ((j : String) → OthersThan j items → sees st' j ≡ sees st j)

  pub stale-IsNotOlder :
      (a : A) (old : Option A)
      → outdated_by c s kind (answer c s laws kind (kind.identifier a) old) a ≡ ret true
      → IsNotOlder old a
  stale-IsNotOlder a none h = cc h
  stale-IsNotOlder a (some y) h = by_versions (kind.version y) (kind.version a) refl refl h
    where
      by_versions :
          (o p : Option ℤ)
          → kind.version y ≡ o
          → kind.version a ≡ p
          → compare_versions c s kind o p ≡ ret true
          → IsNotOlder (some y) a
      by_versions none p e f k = cc k
      by_versions (some n) none e f k = cc k
      by_versions (some n) (some v) e f k =
          let not_higher : leb_ℤ v n ≡ true = cc k in
          (y, n, v, refl, e, f, not_newer v n not_higher)

  pub fresh-IsNewer :
      (a : A) (old : Option A)
      → outdated_by c s kind (answer c s laws kind (kind.identifier a) old) a ≡ ret false
      → IsNewer old a
  fresh-IsNewer a none h = tt
  fresh-IsNewer a (some y) h = by_versions (kind.version y) (kind.version a) h
    where
      by_versions : (o p : Option ℤ) → compare_versions c s kind o p ≡ ret false → IsAbove o p
      by_versions none p k = tt
      by_versions (some v) none k = cc k
      by_versions (some v) (some n) k = let above : leb_ℤ n v ≡ false = cc k in newer n v above

  pub IsServed-later :
      (st st₁ st₂ : c.State) (a : A)
      → IsServed st st₁ a
      → sees st₂ (kind.identifier a) ≡ sees st₁ (kind.identifier a)
      → IsServed st st₂ a
  IsServed-later st st₁ st₂ a (inl (now, above)) e = inl (e ∙ now, above)
  IsServed-later st st₁ st₂ a (inr (same, old)) e = inr (e ∙ same, old)

  IsServed-earlier :
      (st st₁ st₂ : c.State) (a : A)
      → IsServed st₁ st₂ a
      → sees st₁ (kind.identifier a) ≡ sees st (kind.identifier a)
      → IsServed st st₂ a
  IsServed-earlier st st₁ st₂ a (inl (now, above)) e = inl (now, subst (λ o. IsNewer o a) e above)
  IsServed-earlier st st₁ st₂ a (inr (same, (y, n, v, held, old, new, low))) e =
      inr (same ∙ e, (y, n, v, sym e ∙ held, old, new, low))

  pub earlier_items :
      (st st₁ st₂ : c.State) (a : A) (items : List A)
      → ((j : String) → kind.identifier a ≢ j → sees st₁ j ≡ sees st j)
      → All (λ b. kind.identifier a ≢ kind.identifier b) items
      → All (λ b. IsServed st₁ st₂ b) items
      → All (λ b. IsServed st st₂ b) items
  earlier_items st st₁ st₂ a [] kept apart h = tt
  earlier_items st st₁ st₂ a (b ∷ items) kept apart h = (
    IsServed-earlier st st₁ st₂ b h.0 (kept (kind.identifier b) apart.0),
    earlier_items st st₁ st₂ a items kept apart.1 h.1,
  )

  pub turn :
      (a : A) (items : List A)
      → All (λ b. kind.identifier a ≢ kind.identifier b) items
      → OthersThan (kind.identifier a) items
  turn a [] h = tt
  turn a (b ∷ items) h = (λ e. h.0 (sym e), turn a items h.1)

-- ===== src/Repository/Versions.antt =====
-- pkg/repository/repository.go without a storage: the versions of what a set leaves.
use mathlib.Core.Path.{subst}
use ff_golang_server_sdk.Common.{
  String, ◌≡◌, refl, sym, ap, ◌∙◌, Bool, true, false, Option, none, some, List, ◌==◌, eq_iff, arith,
  Bool-cases, ◌⊎◌, inl, inr,
}
use ff_golang_server_sdk.Common.Int.{ℤ, leb_ℤ, ◌≤ℤ◌}
use ff_golang_server_sdk.Common.Run.{Run, ret, panic, no_fuel}
use ff_golang_server_sdk.Repository.{
  Cache, Storage, Call, Kind, Repository, compare_versions, outdated_by, set_item,
}
use ff_golang_server_sdk.Repository.View.{
  CacheLaws, IsKind, IsTyped, view, cached, answer, set_item-view, set_item-fresh, set_item-stale,
}

≤ℤ_refl : (a : ℤ) → a ≤ℤ a
≤ℤ_refl a = omega arith

newer : (n v : ℤ) → leb_ℤ n v ≡ false → v ≤ℤ n
newer n v h = ground arith

module _ (c : Cache) (s : Storage) (laws : CacheLaws c) {A : Type 0} (kind : Kind A)
    (is_kind : IsKind kind) (st : c.State) (calls : Option (List Call)) (a : A)
    (typed : IsTyped c s laws kind st) where
  abbrev before : String → Option A
  before = view c s laws kind st

  -- What a set leaves under an identifier is at least as new as what it found there.
  abbrev pub NotOlder : Option A → Option A → Type 0
  NotOlder old new =
      (x y : A) (v : ℤ)
      → old ≡ some x
      → new ≡ some y
      → kind.version x ≡ some v
      → (n : ℤ) × (kind.version y ≡ some n) × (v ≤ℤ n)

  NotOlder-same : (old new : Option A) → new ≡ old → NotOlder old new
  NotOlder-same old new e x y v ex ey ev =
      let same : y ≡ x = cc (e, ex, ey) in (v, ap kind.version same ∙ ev, ≤ℤ_refl v)

  NotOlder-none : (old new : Option A) → new ≡ none → NotOlder old new
  NotOlder-none old new e x y v ex ey ev = cc (e, ey)

  -- The accepted item is newer than the one it replaces.
  fresh-NotOlder :
      (old : Option A)
      → outdated_by c s kind (answer c s laws kind (kind.identifier a) old) a ≡ ret false
      → NotOlder old (some a)
  fresh-NotOlder none h x y v ex ey ev = cc ex
  fresh-NotOlder (some o) h x y v ex ey ev =
      by_versions (kind.version o) (kind.version a) refl (cc (ex, ev)) h
    where
      by_versions :
          (ov nv : Option ℤ)
          → kind.version a ≡ nv
          → ov ≡ some v
          → compare_versions c s kind ov nv ≡ ret false
          → (n : ℤ) × (kind.version y ≡ some n) × (v ≤ℤ n)
      by_versions none nv e f k = cc f
      by_versions (some u) none e f k = cc k
      by_versions (some u) (some n) e f k =
          let same : y ≡ a = cc ey in
          let older : leb_ℤ n v ≡ false = cc (f, k) in
          (n, ap kind.version same ∙ e, newer n v older)

  pub same_cache :
      (st₁ st₂ : c.State) (k₁ k₂ : Option (List Call))
      → ret (cached c s laws st₁ k₁) ≡ ret (cached c s laws st₂ k₂)
      → st₁ ≡ st₂
  same_cache st₁ st₂ k₁ k₂ h =
      let e : cached c s laws st₁ k₁ ≡ cached c s laws st₂ k₂ = cc h in
      ap (λ (r : Repository c s). r.cache) e

  set_item-NotOlder :
      (st' : c.State) (calls' : Option (List Call)) (id : String)
      → set_item c s kind a (cached c s laws st calls) ≡ ret (cached c s laws st' calls')
      → NotOlder (before id) (view c s laws kind st' id)
  set_item-NotOlder st' calls' id h =
      by_test
        (outdated_by c s kind
          (answer c s laws kind (kind.identifier a) (before (kind.identifier a))) a)
        refl
    where
      at_other :
          (st'' : c.State)
          → st'' ≡ st'
          → (view c s laws kind st'' id ≡ before id) ⊎ (view c s laws kind st'' id ≡ none)
          → NotOlder (before id) (view c s laws kind st' id)
      at_other st'' e (inl kept) =
          NotOlder-same (before id) (view c s laws kind st' id)
            (ap (λ x. view c s laws kind x id) (sym e) ∙ kept)
      at_other st'' e (inr gone) =
          NotOlder-none (before id) (view c s laws kind st' id)
            (ap (λ x. view c s laws kind x id) (sym e) ∙ gone)

      at_id :
          (st'' : c.State)
          → st'' ≡ st'
          → view c s laws kind st'' (kind.identifier a) ≡ some a
          → outdated_by c s kind
              (answer c s laws kind (kind.identifier a) (before (kind.identifier a)))
              a
            ≡ ret false
          → kind.identifier a ≡ id
          → NotOlder (before id) (view c s laws kind st' id)
      at_id st'' e now fresh p =
          let f : view c s laws kind st' (kind.identifier a) ≡ some a =
            ap (λ x. view c s laws kind x (kind.identifier a)) (sym e) ∙ now in
          subst (λ i. NotOlder (before i) (view c s laws kind st' i)) p
            (rw f (fresh-NotOlder (before (kind.identifier a)) fresh))

      by_test :
          (m : Run Bool)
          → outdated_by c s kind
              (answer c s laws kind (kind.identifier a) (before (kind.identifier a)))
              a
            ≡ m
          → NotOlder (before id) (view c s laws kind st' id)
      by_test (ret true) e =
          let (st'', ran, kept) = set_item-stale c s laws kind st calls a typed e in
          at_other st'' (same_cache st'' st' calls calls' (sym ran ∙ h)) (inl (kept id))
      by_test (ret false) e =
          let (st'', ran, now, others) = set_item-fresh c s laws kind is_kind st calls a typed e in
          let same : st'' ≡ st' = same_cache st'' st' _ calls' (sym ran ∙ h) in
          elim (Bool-cases (kind.identifier a == id)) [
            | inl p ↦ at_id st'' same now e ((eq_iff (kind.identifier a) id).0 p)
            | inr p ↦ at_other st'' same (rw p at (others id))
          ]
      by_test panic e =
          let ran : ret (cached c s laws st' calls') ≡ panic =
            sym h ∙ set_item-view c s laws kind st calls a typed ∙ rw e refl in
          cc ran
      by_test no_fuel e =
          let ran : ret (cached c s laws st' calls') ≡ no_fuel =
            sym h ∙ set_item-view c s laws kind st calls a typed ∙ rw e refl in
          cc ran

  -- In a repository without a storage, whose cache holds only items of the kind under the keys of the
  -- kind: whenever a set ends, an identifier that has an item of a version before it and an item after it
  -- has one of a version that is not lower. The item stays or gives way to one at least as new.
  pub set_item-version :
      (st' : c.State) (calls' : Option (List Call)) (id : String) (x y : A) (v : ℤ)
      → set_item c s kind a (cached c s laws st calls) ≡ ret (cached c s laws st' calls')
      → before id ≡ some x
      → view c s laws kind st' id ≡ some y
      → kind.version x ≡ some v
      → (n : ℤ) × (kind.version y ≡ some n) × (v ≤ℤ n)
  set_item-version st' calls' id x y v h ex ey ev = set_item-NotOlder st' calls' id h x y v ex ey ev

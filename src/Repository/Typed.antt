-- ===== src/Repository/Typed.antt =====
-- pkg/repository/repository.go without a storage: which kind of item stands under which key.
use Prim.Native.Char.{code}
use Prim.Native.String.append
use mathlib.Core.Path.{subst}
use ff_golang_server_sdk.Common.{
  ℕ, String, ◌≡◌, ◌≢◌, refl, sym, ap, ◌∙◌, Bool, true, false, Option, none, some, List, ◌==◌,
  eq_iff, if◌then◌else◌, Bool-cases, ◌⊎◌, inl, inr, arith,
}
use ff_golang_server_sdk.Common.Int.{ℤ}
use ff_golang_server_sdk.Common.Run.{ret, Result, ok, err}
use ff_golang_server_sdk.Repository.{
  Item, Cache, Storage, Call, Kind, flags, segments, format_flag_key, format_segment_key,
  compare_versions, outdated_by, set_item, called,
}
use ff_golang_server_sdk.Repository.View.{
  CacheLaws, IsKind, IsTyped, cached, view, answer, after_write, set_item-view,
}

-- No key of the one kind is a key of the other.
abbrev pub IsApart : {A B : Type 0} → Kind A → Kind B → Type 0
IsApart kind other = (i j : String) → kind.format_key i ≢ other.format_key j

first_code : String → ℕ
first_code String.[] = 0
first_code (String.◌∷◌ c s) = code c

pub flags-IsApart : IsApart flags segments
unfolding format_flag_key format_segment_key first_code
flags-IsApart i j h =
    let f : first_code (format_flag_key i) ≡ 102 = ap first_code (append.cons "f" "lags/" i) in
    let s : first_code (format_segment_key j) ≡ 115 =
      ap first_code (append.cons "s" "egments/" j) in
    let same : first_code (format_flag_key i) ≡ first_code (format_segment_key j) =
      ap first_code h in
    omega (f, s, same, arith)

pub segments-IsApart : IsApart segments flags
segments-IsApart i j h = flags-IsApart j i (sym h)

-- A read and a delete leave the items of a kind in their places.
module _ (c : Cache) (s : Storage) (laws : CacheLaws c) {A : Type 0} (kind : Kind A) (st : c.State)
    (key : String) where
  pub get-IsTyped : IsTyped c s laws kind st → IsTyped c s laws kind (c.get st key).1
  get-IsTyped typed id item h = typed id item (sym (laws.peek-get st key (kind.format_key id)) ∙ h)

  pub remove-IsTyped : IsTyped c s laws kind st → IsTyped c s laws kind (c.remove st key).1
  remove-IsTyped typed id item h =
      by_test (key == kind.format_key id) (sym (laws.peek-remove st key (kind.format_key id)) ∙ h)
    where
      by_test :
          (b : Bool)
          → (if b then none else laws.peek st (kind.format_key id)) ≡ some item
          → (a : A) × (kind.cast item ≡ some a)
      by_test true e = cc e
      by_test false e = typed id item e

module _ (c : Cache) (s : Storage) (laws : CacheLaws c) {A : Type 0} (kind : Kind A)
    (is_kind : IsKind kind) (st : c.State) (a : A) where
  -- The item that stands under a key behind the write: the written one, or one from before.
  after_write-source :
      (j : String) (item : Item)
      → laws.peek (after_write c s laws kind a st) j ≡ some item
      → ((kind.format_key (kind.identifier a) ≡ j) × (item ≡ kind.wrap a))
        ⊎ (laws.peek st j ≡ some item)
  after_write-source j item h = elim (Bool-cases (key == j)) [
    | inl e ↦ let same : key ≡ j = (eq_iff key j).0 e in inl (same, here same)
    | inr e ↦ inr (
        elsewhere (
          laws.peek-set_other (c.get st key).1 key j (kind.wrap a)
            (λ k. cc (e, (eq_iff key j).1 k))))
  ]
    where
      key : String
      key = kind.format_key (kind.identifier a)

      here : key ≡ j → item ≡ kind.wrap a
      here same =
          let now : laws.peek (after_write c s laws kind a st) j ≡ some (kind.wrap a) =
            subst (λ k. laws.peek (after_write c s laws kind a st) k ≡ some (kind.wrap a)) same
              (laws.peek-set_self (c.get st key).1 key (kind.wrap a)) in
          cc (now, h)

      elsewhere :
          (laws.peek (after_write c s laws kind a st) j ≡ laws.peek (c.get st key).1 j)
            ⊎ (laws.peek (after_write c s laws kind a st) j ≡ none)
          → laws.peek st j ≡ some item
      elsewhere (inl e) = sym (laws.peek-get st key j) ∙ sym e ∙ h
      elsewhere (inr e) = cc (e, h)

  pub after_write-IsTyped :
      IsTyped c s laws kind st → IsTyped c s laws kind (after_write c s laws kind a st)
  after_write-IsTyped typed id item h = elim (after_write-source (kind.format_key id) item h) [
    | inl (same, e) ↦ (a, ap kind.cast e ∙ is_kind.cast-wrap a)
    | inr e ↦ typed id item e
  ]

  pub after_write-other :
      {B : Type 0} (other : Kind B)
      → IsApart kind other
      → IsTyped c s laws other st
      → IsTyped c s laws other (after_write c s laws kind a st)
  after_write-other other apart typed id item h =
      elim (after_write-source (other.format_key id) item h) [
        | inl (same, e) ↦ absurd (apart (kind.identifier a) id same)
        | inr e ↦ typed id item e
      ]

  -- A version that is there settles the check.
  pub outdated_by-ret :
      (r : Result _ A) → kind.version a ≢ none → (b : Bool) × (outdated_by c s kind r a ≡ ret b)
  outdated_by-ret (err e) h = (false, refl)
  outdated_by-ret (ok old) h = by_versions (kind.version old) (kind.version a) h
    where
      by_versions :
          (ov nv : Option ℤ) → nv ≢ none → (b : Bool) × (compare_versions c s kind ov nv ≡ ret b)
      by_versions none nv k = (false, refl)
      by_versions (some v) none k = absurd (k refl)
      by_versions (some v) (some n) k = (_, refl)

  -- A set of an item that has a version returns, and leaves both kinds in their places.
  pub set_item-IsTyped :
      {B : Type 0} (other : Kind B) (calls : Option (List Call))
      → IsApart kind other
      → kind.version a ≢ none
      → IsTyped c s laws kind st
      → IsTyped c s laws other st
      → (st' : c.State) × (calls' : Option (List Call)) × (set_item c s kind a
            (cached c s laws st calls)
          ≡ ret (cached c s laws st' calls'))
        × IsTyped c s laws kind st'
        × IsTyped c s laws other st'
  set_item-IsTyped other calls apart versioned typed other_typed =
      let old =
        answer c s laws kind (kind.identifier a) (view c s laws kind st (kind.identifier a)) in
      let (b, e) = outdated_by-ret old versioned in
      by_test b (set_item-view c s laws kind st calls a typed ∙ rw e refl)
    where
      key : String
      key = kind.format_key (kind.identifier a)

      by_test :
          (b : Bool)
          → set_item c s kind a (cached c s laws st calls)
            ≡ ret (
                if b
                then cached c s laws (c.get st key).1 calls
                else cached c s laws
                    (after_write c s laws kind a st)
                    (called c s calls (kind.on_stored (kind.identifier a))))
          → (st' : c.State) × (calls' : Option (List Call)) × (set_item c s kind a
                (cached c s laws st calls)
              ≡ ret (cached c s laws st' calls'))
            × IsTyped c s laws kind st'
            × IsTyped c s laws other st'
      by_test true e = (
        _,
        _,
        e,
        get-IsTyped c s laws kind st key typed,
        get-IsTyped c s laws other st key other_typed,
      )
      by_test false e =
          (_, _, e, after_write-IsTyped typed, after_write-other other apart other_typed)

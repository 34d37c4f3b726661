-- ===== src/Repository/Race.antt =====
-- `SetFlag` and `SetSegment` of pkg/repository/repository.go, called by two goroutines at once: the poll
-- and the stream both write. The check and the write of a call are two actions, with no lock around them.
use mathlib.Core.Path.{subst}
use ff_golang_server_sdk.Common.{
  String, ◌≡◌, refl, ap, ◌∙◌, Bool, true, false, Option, some, List, [], ◌∷◌, if◌then◌else◌, arith,
}
use ff_golang_server_sdk.Common.Int.{ℤ, leb_ℤ, ◌≤ℤ◌}
use ff_golang_server_sdk.Common.Run.{Run, ret, panic, no_fuel, ◌>>=◌}
use ff_golang_server_sdk.Repository.{
  Cache, Storage, Call, Kind, Repository, is_outdated, outdated_by, stored, set_item, called,
}
use ff_golang_server_sdk.Repository.View.{
  CacheLaws, IsKind, IsTyped, view, cached, answer, view-get, get_and_cache-view,
}
use ff_golang_server_sdk.Repository.Typed.{get-IsTyped, after_write-IsTyped}

not_newer : (m n : ℤ) → m ≤ℤ n → leb_ℤ m n ≡ true
not_newer m n h = ground arith

-- Where a goroutine stands in `SetFlag` or `SetSegment`.
pub data Place : Type 0 where
  before_check after_check finished : Place

module _ (c : Cache) (s : Storage) {A : Type 0} (kind : Kind A) where
  abbrev behind_check : Bool × Repository c s → Place × Repository c s
  behind_check (outdated, r) = (if outdated then finished else after_check, r)

  -- The next action of a goroutine that sets `a`.
  unfoldable pub set_step : A → Place → Repository c s → Run (Place × Repository c s)
  unfolding is_outdated
  set_step a before_check r = is_outdated c s kind a r >>= λ x. ret (behind_check x)
  set_step a after_check r = ret (finished, stored c s kind a r)
  set_step a finished r = ret (finished, r)

  -- Two goroutines, one with `a` and one with `b`, scheduled by a list: `true` lets the first act.
  unfoldable pub set_both :
      List Bool → A → A → Place → Place → Repository c s → Run (Place × Place × Repository c s)
  unfolding set_step
  set_both [] a b p q r = ret (p, q, r)
  set_both (true ∷ schedule) a b p q r = set_step a p r >>= λ x. set_both schedule a b x.0 q x.1
  set_both (false ∷ schedule) a b p q r = set_step b q r >>= λ x. set_both schedule a b p x.0 x.1

  -- Both actions of a call with no other goroutine between them are the call.
  set_step-set_item :
      (a : A) (r : Repository c s)
      → (set_step a before_check r >>= λ x. set_step a x.0 x.1)
        ≡ (set_item c s kind a r >>= λ r'. ret (finished, r'))
  unfolding set_step set_item
  set_step-set_item a r = by_check (is_outdated c s kind a r)
    where
      by_check :
          (m : Run (Bool × Repository c s))
          → ((m >>= λ x. ret (behind_check x)) >>= λ x. set_step a x.0 x.1) ≡ (
              (m >>= λ x. ret (if x.0 then x.1 else stored c s kind a x.1)) >>= λ r'.
              ret (finished, r'))
      by_check (ret (true, r')) = refl
      by_check (ret (false, r')) = refl
      by_check panic = refl
      by_check no_fuel = refl

module _ (c : Cache) (s : Storage) (laws : CacheLaws c) {A : Type 0} (kind : Kind A)
    (is_kind : IsKind kind) (id : String) where
  abbrev pub verdict : A → c.State → Run Bool
  verdict x now = outdated_by c s kind (answer c s laws kind id (view c s laws kind now id)) x

  abbrev looked : c.State → c.State
  looked st = (c.get st (kind.format_key id)).1

  abbrev wrote : A → c.State → c.State
  wrote x st = (c.set st (kind.format_key id) (kind.wrap x)).1

  view-looked : (x : A) (st : c.State) (o : Run Bool) → verdict x st ≡ o → verdict x (looked st) ≡ o
  view-looked x st o h = rw (view-get c s laws kind st (kind.format_key id) id) h

  -- What is written is seen.
  view-wrote : (x : A) (st : c.State) → view c s laws kind (wrote x st) id ≡ some x
  view-wrote x st =
      rw (laws.peek-set_self st (kind.format_key id) (kind.wrap x)) (is_kind.cast-wrap x)

  -- The check looks at the view and writes nothing.
  set_step-check :
      (x : A) (st : c.State) (calls : Option (List Call)) (o : Bool)
      → kind.identifier x ≡ id
      → IsTyped c s laws kind st
      → verdict x st ≡ ret o
      → set_step c s kind x before_check (cached c s laws st calls)
        ≡ ret (if o then finished else after_check, cached c s laws (looked st) calls)
  unfolding set_step is_outdated
  set_step-check x st calls o named typed h =
      rw (named, get_and_cache-view c s laws kind st calls id false typed, h) refl

  module _ (st : c.State) (calls : Option (List Call)) (a b : A) (a_named : kind.identifier a ≡ id)
      (b_named : kind.identifier b ≡ id) (typed : IsTyped c s laws kind st)
      (fresh_a : verdict a st ≡ ret false) (fresh_b : verdict b st ≡ ret false) where
    -- What stands under the identifier when both calls are done.
    abbrev pub Leaves : List Bool → A → Type 0
    Leaves schedule x =
        (now : c.State) × (calls' : Option (List Call)) × (set_both c s kind schedule a b
            before_check before_check (cached c s laws st calls)
          ≡ ret (finished, finished, cached c s laws now calls'))
        × (view c s laws kind now id ≡ some x)

    looked-IsTyped :
        (now : c.State) → IsTyped c s laws kind now → IsTyped c s laws kind (looked now)
    looked-IsTyped now t = get-IsTyped c s laws kind now (kind.format_key id) t

    -- Both checks come before both writes.
    interleaved : Leaves (true ∷ false ∷ false ∷ true ∷ []) a
    unfolding set_both
    interleaved = (
      wrote a (wrote b (looked (looked st))),
      called c s (called c s calls (kind.on_stored id)) (kind.on_stored id),
      rw
          (
            set_step-check a st calls false a_named typed fresh_a,
            set_step-check b (looked st) calls false b_named (looked-IsTyped st typed)
                (view-looked b st (ret false) fresh_b),
            a_named,
            b_named,
          )
          refl,
      view-wrote a (wrote b (looked (looked st))),
    )

    -- The second check finds what the first call wrote.
    in_turn :
        verdict a (wrote b (looked st)) ≡ ret true
        → IsTyped c s laws kind (wrote b (looked st))
        → Leaves (false ∷ false ∷ true ∷ true ∷ []) b
    unfolding set_both
    in_turn stale written = (
      looked (wrote b (looked st)),
      called c s calls (kind.on_stored id),
      rw
          (
            set_step-check b st calls false b_named typed fresh_b,
            b_named,
            set_step-check a (wrote b (looked st)) (called c s calls (kind.on_stored id)) true
                a_named written stale,
          )
          refl,
      view-get c s laws kind (wrote b (looked st)) (kind.format_key id) id
          ∙ view-wrote b (looked st),
    )

    -- Two goroutines set `a` and `b` under one identifier of a repository without a storage that holds
    -- items of the kind under the keys of the kind. Both are newer than what the view has there, and `a`
    -- is not newer than `b`. One call after the other leaves `b`, but when both calls check before either
    -- writes, the older `a` can be what stays.
    pub set_both-lost :
        (m n : ℤ)
        → kind.version a ≡ some m
        → kind.version b ≡ some n
        → m ≤ℤ n
        → Leaves (false ∷ false ∷ true ∷ true ∷ []) b × Leaves (true ∷ false ∷ false ∷ true ∷ []) a
    set_both-lost m n va vb le = (in_turn stale written, interleaved)
      where
        stale : verdict a (wrote b (looked st)) ≡ ret true
        stale = rw (view-wrote b (looked st), vb, va) (ap ret (not_newer m n le))

        written : IsTyped c s laws kind (wrote b (looked st))
        written =
            subst
              (λ i.
                IsTyped c s laws kind
                  (c.set (c.get st (kind.format_key i)).1 (kind.format_key i) (kind.wrap b)).1)
              b_named (after_write-IsTyped c s laws kind is_kind st b typed)

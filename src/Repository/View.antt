-- ===== src/Repository/View.antt =====
-- pkg/repository/repository.go without a storage, as a client sees it: a map from identifiers to
-- items that may lose entries when the cache evicts.
use text.Mathlib.TextLemmas.{append_cancel_left}
use ff_golang_server_sdk.Common.{
  String, ◌≡◌, ◌≢◌, refl, sym, ap, ◌∙◌, Bool, true, false, Option, none, some, List, ◌==◌, eq_iff,
  if◌then◌else◌, ◌⊎◌, inl, inr,
}
use ff_golang_server_sdk.Common.Run.{Run, ret, panic, no_fuel, ◌>>=◌, Result, ok, err}
use ff_golang_server_sdk.Errors.{Error}
use ff_golang_server_sdk.Repository.{
  Item, Cache, Storage, Call, Kind, Repository, flags, segments, format_flag_key,
  format_segment_key, from_cache, get_and_cache, outdated_by, is_outdated, stored, called, set_item,
  delete_item,
}

-- What the repository relies on of a cache (github.com/hashicorp/golang-lru): `peek` reads with no
-- effect; a write may evict other keys, and only them.
pub record CacheLaws (c : Cache) : Type 0 where
  pub peek : c.State → String → Option Item
  pub get_lem : (st : c.State) (k : String) → (c.get st k).0 ≡ peek st k
  pub peek-get : (st : c.State) (k j : String) → peek (c.get st k).1 j ≡ peek st j
  pub peek-set_self : (st : c.State) (k : String) (v : Item) → peek (c.set st k v).1 k ≡ some v
  pub peek-set_other :
      (st : c.State) (k j : String) (v : Item)
      → k ≢ j
      → (peek (c.set st k v).1 j ≡ peek st j) ⊎ (peek (c.set st k v).1 j ≡ none)
  pub peek-remove :
      (st : c.State) (k j : String)
      → peek (c.remove st k).1 j ≡ (if k == j then none else peek st j)

-- What holds of the two kinds.
pub record IsKind {A : Type 0} (kind : Kind A) : Type 0 where
  pub cast-wrap : (a : A) → kind.cast (kind.wrap a) ≡ some a
  pub key_injective : (i j : String) → kind.format_key i ≡ kind.format_key j → i ≡ j

pub flags-IsKind : IsKind flags
unfolding format_flag_key
flags-IsKind = record {
  cast-wrap = λ a. refl;
  key_injective = λ i j h. append_cancel_left "flags/" i j h;
}

pub segments-IsKind : IsKind segments
unfolding format_segment_key
segments-IsKind = record {
  cast-wrap = λ a. refl;
  key_injective = λ i j h. append_cancel_left "segments/" i j h;
}

abbrev pub cast_all : {A : Type 0} → Kind A → Option Item → Option A
cast_all kind none = none
cast_all kind (some item) = kind.cast item

module _ (c : Cache) (s : Storage) (laws : CacheLaws c) where
  abbrev pub cached : c.State → Option (List Call) → Repository c s
  cached st calls = record { cache = st; storage = none; calls = calls }

  module _ {A : Type 0} (kind : Kind A) where
    -- The item under an identifier, as the next `get` finds it.
    abbrev pub view : c.State → String → Option A
    view st id = cast_all kind (laws.peek st (kind.format_key id))

    -- Under the keys of the kind stand items of the kind.
    abbrev pub IsTyped : c.State → Type 0
    IsTyped st =
        (id : String) (item : Item)
        → laws.peek st (kind.format_key id) ≡ some item
        → (a : A) × (kind.cast item ≡ some a)

    abbrev pub answer : String → Option A → Result Error A
    answer id none = err (kind.not_found id)
    answer id (some a) = ok a

    pub view-get : (st : c.State) (k j : String) → view (c.get st k).1 j ≡ view st j
    view-get st k j = ap (cast_all kind) (laws.peek-get st k (kind.format_key j))

    -- A read answers with the view and changes no view.
    pub get_and_cache-view :
        (st : c.State) (calls : Option (List Call)) (id : String) (cacheable : Bool)
        → IsTyped st
        → get_and_cache c s kind id cacheable (cached st calls)
          ≡ ret (answer id (view st id), cached (c.get st (kind.format_key id)).1 calls)
    unfolding get_and_cache
    get_and_cache-view st calls id cacheable typed =
        rw (laws.get_lem st (kind.format_key id)) (by_peek (laws.peek st (kind.format_key id)) refl)
      where
        after : Repository c s
        after = cached (c.get st (kind.format_key id)).1 calls

        by_item :
            (item : Item) (o : Option A)
            → kind.cast item ≡ o
            → ((a : A) × (kind.cast item ≡ some a))
            → from_cache c s kind (some item) id cacheable after
              ≡ ret (answer id (kind.cast item), after)
        by_item item none e (a, f) = cc (e, f)
        by_item item (some b) e p = rw e

        by_peek :
            (o : Option Item)
            → laws.peek st (kind.format_key id) ≡ o
            → from_cache c s kind o id cacheable after ≡ ret (answer id (cast_all kind o), after)
        by_peek none e = refl
        by_peek (some item) e = by_item item (kind.cast item) refl (typed id item e)

    -- The write that an accepted item leads to.
    abbrev pub after_write : A → c.State → c.State
    after_write a st =
        let key = kind.format_key (kind.identifier a) in
        (c.set (c.get st key).1 key (kind.wrap a)).1

    -- A set goes by what the view says of the old version.
    pub set_item-view :
        (st : c.State) (calls : Option (List Call)) (a : A)
        → IsTyped st
        → set_item c s kind a (cached st calls) ≡ (
            outdated_by c s kind (answer (kind.identifier a) (view st (kind.identifier a))) a
            >>= λ outdated. ret (
                if outdated
                then cached (c.get st (kind.format_key (kind.identifier a))).1 calls
                else cached
                    (after_write a st)
                    (called c s calls (kind.on_stored (kind.identifier a)))))
    unfolding set_item is_outdated
    set_item-view st calls a typed =
        rw (get_and_cache-view st calls (kind.identifier a) false typed) (
          by_test
            (outdated_by c s kind (answer (kind.identifier a) (view st (kind.identifier a))) a))
      where
        after : Repository c s
        after = cached (c.get st (kind.format_key (kind.identifier a))).1 calls

        by_test :
            (m : Run Bool)
            → (◌>>=◌ {B = Bool × Repository c s} m (λ outdated. ret (outdated, after))
                >>= λ checked. ret (if checked.0 then checked.1 else stored c s kind a checked.1))
              ≡ (m >>= λ outdated. ret (if outdated then after else stored c s kind a after))
        by_test (ret b) = refl
        by_test panic = refl
        by_test no_fuel = refl

    -- In a repository without a storage, whose cache holds only items of the kind under the keys of the
    -- kind: an item that is not outdated is what the next read finds, and the callback hears of it; the
    -- other identifiers keep their items or are evicted.
    pub set_item-fresh :
        IsKind kind
        → (st : c.State) (calls : Option (List Call)) (a : A) → IsTyped st
        → outdated_by c s kind (answer (kind.identifier a) (view st (kind.identifier a))) a
          ≡ ret false
        → (st' : c.State) × (set_item c s kind a (cached st calls)
            ≡ ret (cached st' (called c s calls (kind.on_stored (kind.identifier a)))))
          × (view st' (kind.identifier a) ≡ some a)
          × ((j : String)
              → (view st' j ≡ (if kind.identifier a == j then some a else view st j))
                ⊎ (view st' j ≡ none))
    set_item-fresh is_kind st calls a typed fresh = (
      after_write a st,
      set_item-view st calls a typed ∙ rw fresh refl,
      now,
      λ j. by_test j (kind.identifier a == j) refl,
    )
      where
        key : String
        key = kind.format_key (kind.identifier a)

        now : view (after_write a st) (kind.identifier a) ≡ some a
        now =
            ap (cast_all kind) (laws.peek-set_self (c.get st key).1 key (kind.wrap a))
            ∙ is_kind.cast-wrap a

        elsewhere :
            (j : String)
            → (laws.peek (after_write a st) (kind.format_key j)
                ≡ laws.peek (c.get st key).1 (kind.format_key j))
              ⊎ (laws.peek (after_write a st) (kind.format_key j) ≡ none)
            → (view (after_write a st) j ≡ view st j) ⊎ (view (after_write a st) j ≡ none)
        elsewhere j (inl e) = inl (ap (cast_all kind) e ∙ view-get st key j)
        elsewhere j (inr e) = inr (ap (cast_all kind) e)

        by_test :
            (j : String) (b : Bool)
            → (kind.identifier a == j) ≡ b
            → (view (after_write a st) j ≡ (if b then some a else view st j))
              ⊎ (view (after_write a st) j ≡ none)
        by_test j true e =
            inl
              (ap (λ i. view (after_write a st) i) (sym ((eq_iff (kind.identifier a) j).0 e)) ∙ now)
        by_test j false e = elsewhere j (
            laws.peek-set_other (c.get st key).1 key (kind.format_key j) (kind.wrap a) (λ k. cc (
              e,
              (eq_iff (kind.identifier a) j).1 (is_kind.key_injective (kind.identifier a) j k),
            )))

    -- An outdated item changes no view, and the callback is not called.
    pub set_item-stale :
        (st : c.State) (calls : Option (List Call)) (a : A)
        → IsTyped st
        → outdated_by c s kind (answer (kind.identifier a) (view st (kind.identifier a))) a
          ≡ ret true
        → (st' : c.State) × (set_item c s kind a (cached st calls) ≡ ret (cached st' calls))
          × ((j : String) → view st' j ≡ view st j)
    set_item-stale st calls a typed stale = (
      (c.get st (kind.format_key (kind.identifier a))).1,
      set_item-view st calls a typed ∙ rw stale refl,
      λ j. view-get st (kind.format_key (kind.identifier a)) j,
    )

    -- A deleted identifier is not found, and no other identifier changes.
    pub delete_item-view :
        IsKind kind
        → (st : c.State) (calls : Option (List Call)) (id : String)
        → (st' : c.State) × (delete_item c s kind id (cached st calls)
            ≡ cached st' (called c s calls (kind.on_deleted id)))
          × ((j : String) → view st' j ≡ (if id == j then none else view st j))
    unfolding delete_item
    delete_item-view is_kind st calls id = (
      (c.remove st (kind.format_key id)).1,
      refl,
      λ j.
          ap (cast_all kind) (laws.peek-remove st (kind.format_key id) (kind.format_key j))
          ∙ by_test j (kind.format_key id == kind.format_key j) refl (id == j) refl,
    )
      where
        by_test :
            (j : String) (b : Bool)
            → (kind.format_key id == kind.format_key j) ≡ b
            → (d : Bool) → (id == j) ≡ d
            → cast_all kind (if b then none else laws.peek st (kind.format_key j))
              ≡ (if d then none else view st j)
        by_test j true e true f = refl
        by_test j false e false f = refl
        by_test j true e false f =
            let same : id ≡ j =
              is_kind.key_injective id j ((eq_iff (kind.format_key id) (kind.format_key j)).0 e) in
            cc (f, (eq_iff id j).1 same)
        by_test j false e true f = cc (
          e,
          (eq_iff (kind.format_key id) (kind.format_key j)).1
              (ap kind.format_key ((eq_iff id j).0 f)),
        )

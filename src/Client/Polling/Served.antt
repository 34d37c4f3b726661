-- ===== src/Client/Polling/Served.antt =====
-- `retrieveFlags` and `retrieveSegments` of client/client.go on a repository without a storage: what the
-- next reads find of the items of an answer.
use ff_golang_server_sdk.Common.{
  ℕ, suc, String, ◌≡◌, ◌≢◌, refl, ap, ◌∙◌, Bool, true, false, Option, List, [], ◌∷◌, length, All,
  inl, inr,
}
use ff_golang_server_sdk.Common.Run.{ret, ◌>>=◌}
use ff_golang_server_sdk.Repository.{Cache, Storage, Call, Kind, outdated_by, set_item, called}
use ff_golang_server_sdk.Repository.View.{
  CacheLaws, IsKind, IsTyped, view, cached, answer, after_write, view-get, set_item-view,
}
use ff_golang_server_sdk.Repository.Typed.{
  IsApart, get-IsTyped, after_write-IsTyped, after_write-other, outdated_by-ret,
}
use ff_golang_server_sdk.Repository.Room.{RoomLaws, after_write-view, after_write-view_other}
use ff_golang_server_sdk.Stream.{json200}
use ff_golang_server_sdk.Client.Polling.{set_all, retrieve_items}
use ff_golang_server_sdk.Client.Polling.Leaving.{
  IsServed, HasDistinct, HasVersion, Leaves, stale-IsNotOlder, fresh-IsNewer, IsServed-later,
  earlier_items, turn,
}

module _ (c : Cache) (s : Storage) (laws : CacheLaws c) (room : RoomLaws c laws) {A B : Type 0}
    (kind : Kind A) (other : Kind B) (is_kind : IsKind kind) (apart : IsApart kind other) where
  -- What a set leaves in a cache that has room for one more key.
  set_item-IsServed :
      (st : c.State) (calls : Option (List Call)) (a : A) (n : ℕ)
      → HasVersion c s laws kind a
      → room.HasRoom st (suc n)
      → IsTyped c s laws kind st
      → IsTyped c s laws other st
      → (st' : c.State) × (calls' : Option (List Call)) × (set_item c s kind a
            (cached c s laws st calls)
          ≡ ret (cached c s laws st' calls'))
        × IsTyped c s laws kind st'
        × IsTyped c s laws other st'
        × room.HasRoom st' n
        × IsServed c s laws kind st st' a
        × ((j : String)
            → kind.identifier a ≢ j
            → view c s laws kind st' j ≡ view c s laws kind st j)
  set_item-IsServed st calls a n versioned has_room typed other_typed =
      let old =
        answer c s laws kind (kind.identifier a) (view c s laws kind st (kind.identifier a)) in
      let (b, e) = outdated_by-ret c s laws kind is_kind st a old versioned in by_verdict b e
    where
      key : String
      key = kind.format_key (kind.identifier a)

      same : (j : String) → view c s laws kind (c.get st key).1 j ≡ view c s laws kind st j
      same j = view-get c s laws kind st key j

      by_verdict :
          (b : Bool)
          → outdated_by c s kind
              (answer c s laws kind (kind.identifier a) (view c s laws kind st (kind.identifier a)))
              a
            ≡ ret b
          → (st' : c.State) × (calls' : Option (List Call)) × (set_item c s kind a
                (cached c s laws st calls)
              ≡ ret (cached c s laws st' calls'))
            × IsTyped c s laws kind st'
            × IsTyped c s laws other st'
            × room.HasRoom st' n
            × IsServed c s laws kind st st' a
            × ((j : String)
                → kind.identifier a ≢ j
                → view c s laws kind st' j ≡ view c s laws kind st j)
      by_verdict true e = (
        (c.get st key).1,
        calls,
        set_item-view c s laws kind st calls a typed ∙ rw e refl,
        get-IsTyped c s laws kind st key typed,
        get-IsTyped c s laws other st key other_typed,
        room.room-less _ n (room.room-get st key (suc n) has_room),
        inr (same (kind.identifier a), stale-IsNotOlder c s laws kind a _ e),
        λ j apart_id. same j,
      )
      by_verdict false e = (
        after_write c s laws kind a st,
        called c s calls (kind.on_stored (kind.identifier a)),
        set_item-view c s laws kind st calls a typed ∙ rw e refl,
        after_write-IsTyped c s laws kind is_kind st a typed,
        after_write-other c s laws kind is_kind st a other apart other_typed,
        room.room-set _ key (kind.wrap a) n (room.room-get st key (suc n) has_room),
        inl (after_write-view c s laws kind is_kind st a, fresh-IsNewer c s laws kind a _ e),
        after_write-view_other c s laws room kind is_kind st a n has_room,
      )

  set_all-Leaves :
      (st : c.State) (calls : Option (List Call)) (items : List A)
      → All (HasVersion c s laws kind) items
      → HasDistinct c s laws kind items
      → room.HasRoom st (length items)
      → IsTyped c s laws kind st
      → IsTyped c s laws other st
      → (st' : c.State) × (calls' : Option (List Call)) × (set_all c s kind items
            (cached c s laws st calls)
          ≡ ret (cached c s laws st' calls'))
        × Leaves c s laws kind st st' items
  unfolding set_all
  set_all-Leaves st calls [] versions distinct has_room typed other_typed =
      (st, calls, refl, (tt, λ j h. refl))
  set_all-Leaves st calls (a ∷ items) versions distinct has_room typed other_typed =
      let (st₁, calls₁, ran₁, typed₁, other₁, room₁, served, kept₁) =
        set_item-IsServed st calls a (length items) versions.0 has_room typed other_typed in
      let (st₂, calls₂, ran₂, (all_served, kept₂)) =
        set_all-Leaves st₁ calls₁ items versions.1 distinct.1 room₁ typed₁ other₁ in
      (
        st₂,
        calls₂,
        ap (λ m. m >>= λ r. set_all c s kind items r) ran₁ ∙ ran₂,
        (
          (
            IsServed-later c s laws kind st st₁ st₂ a served
                (kept₂ (kind.identifier a) (turn c s laws kind a items distinct.0)),
            earlier_items c s laws kind st st₁ st₂ a items kept₁ distinct.0 all_served,
          ),
          λ j h. kept₂ j h.1 ∙ kept₁ j h.0,
        ),
      )

  -- Behind an answer of items that have versions and of which no two share an identifier, on a cache that
  -- has room for all of them, the retrieval ends without an error. A read under the identifier of any item
  -- then finds that item, when there was none before or an older one (of a lower version, or of none), and
  -- otherwise the item that it found before, whose version is not lower; a read of the kind under any other identifier finds what it found before. The
  -- repository has no storage, and its cache holds only flags and only segments under their own keys.
  pub retrieve_items-Leaves :
      (st : c.State) (calls : Option (List Call)) (items : List A)
      → All (HasVersion c s laws kind) items
      → HasDistinct c s laws kind items
      → room.HasRoom st (length items)
      → IsTyped c s laws kind st
      → IsTyped c s laws other st
      → (st' : c.State) × (calls' : Option (List Call)) × (retrieve_items c s kind
            (json200 items)
            (cached c s laws st calls)
          ≡ ret (true, cached c s laws st' calls'))
        × Leaves c s laws kind st st' items
  unfolding retrieve_items
  retrieve_items-Leaves st calls items versions distinct has_room typed other_typed =
      let (st', calls', ran, leaves) =
        set_all-Leaves st calls items versions distinct has_room typed other_typed in
      (st', calls', ap (λ m. m >>= λ r. ret (true, r)) ran, leaves)

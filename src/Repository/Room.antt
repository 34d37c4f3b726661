-- ===== src/Repository/Room.antt =====
-- pkg/repository/repository.go without a storage, on a cache that has room: what a write leaves under every
-- identifier.
use ff_golang_server_sdk.Common.{ℕ, suc, String, ◌≡◌, ◌≢◌, ap, ◌∙◌, some}
use ff_golang_server_sdk.Repository.{Item, Cache, Storage, Kind}
use ff_golang_server_sdk.Repository.View.{CacheLaws, IsKind, view, cast_all, view-get, after_write}

-- What is relied on of a cache of a fixed size (github.com/hashicorp/golang-lru) while it has room for `n`
-- more keys: reading takes no room, a write takes room for one key at most, and it evicts nothing.
pub record RoomLaws (c : Cache) (laws : CacheLaws c) : Type 1 where
  pub HasRoom : c.State → ℕ → Type 0
  pub room-less : (st : c.State) (n : ℕ) → HasRoom st (suc n) → HasRoom st n
  pub room-get : (st : c.State) (k : String) (n : ℕ) → HasRoom st n → HasRoom (c.get st k).1 n
  pub room-set :
      (st : c.State) (k : String) (v : Item) (n : ℕ)
      → HasRoom st (suc n)
      → HasRoom (c.set st k v).1 n
  pub set-kept :
      (st : c.State) (k j : String) (v : Item) (n : ℕ)
      → HasRoom st (suc n)
      → k ≢ j
      → laws.peek (c.set st k v).1 j ≡ laws.peek st j

module _ (c : Cache) (s : Storage) (laws : CacheLaws c) {A : Type 0} (kind : Kind A)
    (is_kind : IsKind kind) (st : c.State) (a : A) where
  pub after_write-view :
      view c s laws kind (after_write c s laws kind a st) (kind.identifier a) ≡ some a
  after_write-view =
      let key = kind.format_key (kind.identifier a) in
      ap (cast_all kind) (laws.peek-set_self (c.get st key).1 key (kind.wrap a))
      ∙ is_kind.cast-wrap a

module _ (c : Cache) (s : Storage) (laws : CacheLaws c) (room : RoomLaws c laws) {A : Type 0}
    (kind : Kind A) (is_kind : IsKind kind) (st : c.State) (a : A) where
  pub after_write-view_other :
      (n : ℕ)
      → room.HasRoom st (suc n)
      → (j : String) → kind.identifier a ≢ j
      → view c s laws kind (after_write c s laws kind a st) j ≡ view c s laws kind st j
  after_write-view_other n has_room j apart =
      let key = kind.format_key (kind.identifier a) in
      ap (cast_all kind) (
        room.set-kept (c.get st key).1 key (kind.format_key j) (kind.wrap a) n
          (room.room-get st key (suc n) has_room)
          (λ e. apart (is_kind.key_injective (kind.identifier a) j e)))
      ∙ view-get c s laws kind st key j

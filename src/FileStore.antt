-- ===== src/FileStore.antt =====
-- storage/file.go: the store that keeps its data in memory and in one JSON file. The disk is a function
-- from paths to contents; the JSON library is a `Codec`.
pub mod Laws
use Prim.Native.String.{◌++◌}
use ff_golang_server_sdk.Common.{
  ℕ, String, ◌≡◌, refl, Bool, true, false, Option, none, some, List, [], ◌∷◌, map, ◌==◌,
  if◌then◌else◌,
}
use ff_golang_server_sdk.Common.Run.{Run, ret, panic, ◌>>=◌}
use ff_golang_server_sdk.Common.Dict.{lookup, insert, delete}
use ff_golang_server_sdk.Repository.{Item, Storage}

-- A Go map that is not nil
abbrev pub Data : Type 0
Data = List (String × Item)

-- github.com/json-iterator/go on the map of the store, which may be nil: `Encode`, where `none` is an error,
-- and `Decode` into a map, which may add to the map or put another one in its place, a nil one on the JSON
-- null. `Decode` says whether it failed, and what it left in the map.
pub record Codec : Type 1 where
  pub Bytes : Type 0
  pub empty : Bytes
  pub encode : Option Data → Option Bytes
  pub decode : Bytes → Option Data → Bool × Option Data

-- `FileStore`, without its mutex and its logger. A nil map is `none`.
pub record FileStore : Type 0 where
  pub project : String
  pub path : String
  pub entries : Option Data
  pub last_persisted : ℕ

-- `NewFileStore`; `join` is `filepath.Join`
unfoldable pub new_file_store : (join : String → String → String) → String → String → FileStore
new_file_store join project path = record {
  project = project;
  path = join path ("harness-ffm-v1-" ++ project ++ ".json");
  entries = some [];
  last_persisted = 0;
}

-- The operations of a Go map. A nil map reads as an empty one, and a write to it panics.
abbrev pub found : String → Option Data → Option Item
found key none = none
found key (some d) = lookup key d

abbrev values : Option Data → List Item
values none = []
values (some d) = map (λ entry. entry.1) d

abbrev put : String → Item → Option Data → Run (Option Data)
put key value none = panic
put key value (some d) = ret (some (insert key value d))

abbrev deleted : String → Option Data → Option Data
deleted key none = none
deleted key (some d) = some (delete key d)

-- `Get`, `List`, `Set`, `Remove`
unfoldable pub get : FileStore → String → Option Item
get ds key = found key ds.entries

unfoldable pub list : FileStore → List Item
list ds = values ds.entries

unfoldable pub set : FileStore → String → Item → Run FileStore
set ds key value = put key value ds.entries >>= λ entries. ret (record ds { entries = entries })

unfoldable pub remove : FileStore → String → FileStore
remove ds key = record ds { entries = deleted key ds.entries }

-- `PersistedAt`
unfoldable pub persisted_at : FileStore → ℕ
persisted_at ds = ds.last_persisted

module _ (codec : Codec) where
  open codec use {Bytes, empty, encode, decode}

  abbrev pub Disk : Type 0
  Disk = String → Option Bytes

  unfoldable pub write_file : Disk → String → Bytes → Disk
  write_file disk path bytes p = if p == path then some bytes else disk p

  -- `Load`: whether it failed, and the store.
  abbrev pub opened : FileStore → Option Bytes → Bool × FileStore
  opened ds none = (true, ds)
  opened ds (some bytes) =
      let left = decode bytes ds.entries in (left.0, record ds { entries = left.1 })

  unfoldable pub load : Disk → FileStore → Bool × FileStore
  load disk ds = opened ds (disk ds.path)

  -- `Persist`, where the file could be created, which empties it: whether it failed, the store and the
  -- disk.
  abbrev pub encoded : ℕ → Disk → FileStore → Option Bytes → Bool × FileStore × Disk
  encoded now disk ds none = (true, ds, disk)
  encoded now disk ds (some bytes) =
      (false, record ds { last_persisted = now }, write_file disk ds.path bytes)

  unfoldable pub persist : (can_create : Bool) → ℕ → Disk → FileStore → Bool × FileStore × Disk
  unfolding write_file
  persist false now disk ds = (true, ds, disk)
  persist true now disk ds = encoded now (write_file disk ds.path empty) ds (encode ds.entries)

  -- `Reset`
  unfoldable pub reset :
      (can_create : Bool) → ℕ → Disk → Option Data → Bool → FileStore → Bool × FileStore × Disk
  unfolding persist
  reset can_create now disk d false ds = (false, record ds { entries = d }, disk)
  reset can_create now disk d true ds = persist can_create now disk (record ds { entries = d })

-- A store whose map is not nil.
pub record LiveStore : Type 0 where
  pub store : FileStore
  pub held : Data
  pub live : store.entries ≡ some held

-- The store behind the interface `Storage`, as long as its map is not nil. Its `Set` and `Remove` then
-- never fail, and leave it so.
abbrev pub file_storage : Storage
file_storage = record {
  State = LiveStore;
  get = λ ds key. get ds.store key;
  set = λ ds key value. (
    false,
    record {
      store = record (ds.store) { entries = some (insert key value ds.held) };
      held = insert key value ds.held;
      live = refl;
    },
  );
  remove = λ ds key. (
    false,
    record {
      store = record (ds.store) { entries = some (delete key ds.held) };
      held = delete key ds.held;
      live = refl;
    },
  );
}

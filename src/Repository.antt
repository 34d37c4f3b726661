-- ===== src/Repository.antt =====
-- pkg/repository/repository.go, with the interfaces of pkg/repository/cache.go and storage/storage.go
-- that it calls. The methods for flags and for segments are the same text twice: each pair is one
-- function here, over a `Kind` that holds what differs.
pub mod View
pub mod Typed
pub mod AsQuery
pub mod Versions
pub mod Offline
pub mod Race
pub mod Reach
pub mod Room
use Prim.Native.String.{◌++◌}
use ff_golang_server_sdk.Common.{
  String, Bool, true, false, Option, none, some, List, [], ◌∷◌, if◌then◌else◌,
}
use ff_golang_server_sdk.Common.Int.{ℤ, leb_ℤ}
use ff_golang_server_sdk.Common.Run.{Run, ret, panic, ◌>>=◌, Result, ok, err}
use ff_golang_server_sdk.Errors.{Error, feature_config_not_found, segment_not_found}
use ff_golang_server_sdk.Rest.{FeatureConfig, Segment}

-- The values that the SDK puts behind an `interface{}` of the cache and of the storage.
pub data Item : Type 0 where
  flag_item : FeatureConfig → Item
  segment_item : Segment → Item
  other_item : Item

-- The interface `Cache`: what the repository calls of it. `get` may change the state (recency).
pub record Cache : Type 1 where
  pub State : Type 0
  pub get : State → String → Option Item × State
  pub set : State → String → Item → Bool × State
  pub remove : State → String → Bool × State

-- The interface `Storage`: what the repository calls of it. `set` and `remove` say whether they failed.
pub record Storage : Type 1 where
  pub State : Type 0
  pub get : State → String → Option Item
  pub set : State → String → Item → Bool × State
  pub remove : State → String → Bool × State

-- A call of the interface `Callback`.
pub data Call : Type 0 where
  on_flag_stored on_flag_deleted on_segment_stored on_segment_deleted : String → Call

-- What differs between the methods for flags and those for segments.
pub record Kind (A : Type 0) : Type 0 where
  pub format_key : String → String
  pub cast : Item → Option A
  pub wrap : A → Item
  pub identifier : A → String
  pub version : A → Option ℤ
  pub not_found : String → Error
  pub on_stored : String → Call
  pub on_deleted : String → Call

-- `formatFlagKey` and `formatSegmentKey`
unfoldable pub format_flag_key : String → String
format_flag_key identifier = "flags/" ++ identifier

unfoldable pub format_segment_key : String → String
format_segment_key identifier = "segments/" ++ identifier

-- The type assertions `flag.(rest.FeatureConfig)` and `flag.(rest.Segment)`
abbrev pub cast_flag : Item → Option FeatureConfig
cast_flag (flag_item fc) = some fc
cast_flag _ = none

abbrev pub cast_segment : Item → Option Segment
cast_segment (segment_item s) = some s
cast_segment _ = none

abbrev pub flags : Kind FeatureConfig
flags = record {
  format_key = format_flag_key;
  cast = cast_flag;
  wrap = flag_item;
  identifier = λ fc. fc.feature;
  version = λ fc. fc.version;
  not_found = feature_config_not_found;
  on_stored = on_flag_stored;
  on_deleted = on_flag_deleted;
}

abbrev pub segments : Kind Segment
segments = record {
  format_key = format_segment_key;
  cast = cast_segment;
  wrap = segment_item;
  identifier = λ s. s.identifier;
  version = λ s. s.version;
  not_found = segment_not_found;
  on_stored = on_segment_stored;
  on_deleted = on_segment_deleted;
}

module _ (c : Cache) (s : Storage) where
  -- `FFRepository`. A nil storage and a nil callback are `none`; of a callback, the calls made so far,
  -- the latest first.
  pub record Repository : Type 0 where
    pub cache : c.State
    pub storage : Option s.State
    pub calls : Option (List Call)

  -- `New`, and `NewWithStorage` and `NewWithStorageAndCallback`
  unfoldable pub new : c.State → Repository
  new cache = record { cache = cache; storage = none; calls = none }

  unfoldable pub new_with_storage : c.State → s.State → Repository
  new_with_storage cache storage = record { cache = cache; storage = some storage; calls = none }

  unfoldable pub new_with_storage_and_callback : c.State → s.State → Repository
  new_with_storage_and_callback cache storage = record {
    cache = cache;
    storage = some storage;
    calls = some [];
  }

  abbrev pub called : Option (List Call) → Call → Option (List Call)
  called none call = none
  called (some calls) call = some (call ∷ calls)

  module _ {A : Type 0} (kind : Kind A) where
    -- A type assertion that fails panics.
    abbrev pub asserted : Option A → Repository → Run (Result Error A × Repository)
    asserted none r = panic
    asserted (some a) r = ret (ok a, r)

    -- The assertion on the nil of a missing key panics.
    abbrev pub from_stored :
        Option Item → String → Bool → Repository → Run (Result Error A × Repository)
    from_stored none key cacheable r = panic
    from_stored (some item) key cacheable r =
        asserted (kind.cast item)
          (if cacheable then record r { cache = (c.set r.cache key item).1 } else r)

    -- Behind a miss of the cache.
    abbrev pub from_storage :
        Option s.State → String → Bool → Repository → Run (Result Error A × Repository)
    from_storage none identifier cacheable r = ret (err (kind.not_found identifier), r)
    from_storage (some storage) identifier cacheable r =
        let key = kind.format_key identifier in from_stored (s.get storage key) key cacheable r

    abbrev pub from_cache :
        Option Item → String → Bool → Repository → Run (Result Error A × Repository)
    from_cache (some item) identifier cacheable r = asserted (kind.cast item) r
    from_cache none identifier cacheable r = from_storage r.storage identifier cacheable r

    -- `getFlagAndCache`, `getSegmentAndCache`
    unfoldable pub get_and_cache : String → Bool → Repository → Run (Result Error A × Repository)
    get_and_cache identifier cacheable r =
        let found = c.get r.cache (kind.format_key identifier) in
        from_cache found.0 identifier cacheable (record r { cache = found.1 })

    -- `*old.Version >= *new.Version`, a nil new version panics
    abbrev pub compare_versions : Option ℤ → Option ℤ → Run Bool
    compare_versions none new = ret false
    compare_versions (some v) none = panic
    compare_versions (some v) (some n) = ret (leb_ℤ n v)

    abbrev pub outdated_by : Result Error A → A → Run Bool
    outdated_by (err e) a = ret false
    outdated_by (ok old) a = compare_versions (kind.version old) (kind.version a)

    -- `isFlagOutdated`, `isSegmentOutdated`
    unfoldable pub is_outdated : A → Repository → Run (Bool × Repository)
    unfolding get_and_cache
    is_outdated a r = get_and_cache (kind.identifier a) false r >>= λ found.
        outdated_by found.0 a >>= λ outdated. ret (outdated, found.1)

    -- The write: to the storage, which drops the key from the cache, or to the cache alone.
    abbrev pub write : Option s.State → A → Repository → Repository
    write none a r = record r {
      cache = (c.set r.cache (kind.format_key (kind.identifier a)) (kind.wrap a)).1;
    }
    write (some storage) a r =
        let key = kind.format_key (kind.identifier a) in
        record r {
          storage = some (s.set storage key (kind.wrap a)).1;
          cache = (c.remove r.cache key).1;
        }

    abbrev pub stored : A → Repository → Repository
    stored a r =
        let r' = write r.storage a r in
        record r' { calls = called r'.calls (kind.on_stored (kind.identifier a)) }

    -- `SetFlag`, `SetSegment`
    unfoldable pub set_item : A → Repository → Run Repository
    unfolding is_outdated
    set_item a r =
        is_outdated a r >>= λ checked. ret (if checked.0 then checked.1 else stored a checked.1)

    abbrev pub removed : Option s.State → String → Option s.State
    removed none key = none
    removed (some storage) key = some (s.remove storage key).1

    -- `DeleteFlag`, `DeleteSegment`
    unfoldable pub delete_item : String → Repository → Repository
    delete_item identifier r =
        let key = kind.format_key identifier in
        record {
          storage = removed r.storage key;
          cache = (c.remove r.cache key).1;
          calls = called r.calls (kind.on_deleted identifier);
        }

  unfoldable pub get_flag : String → Repository → Run (Result Error FeatureConfig × Repository)
  unfolding get_and_cache
  get_flag identifier = get_and_cache flags identifier true

  unfoldable pub get_segment : String → Repository → Run (Result Error Segment × Repository)
  unfolding get_and_cache
  get_segment identifier = get_and_cache segments identifier true

  unfoldable pub set_flag : FeatureConfig → Repository → Run Repository
  unfolding set_item
  set_flag = set_item flags

  unfoldable pub set_segment : Segment → Repository → Run Repository
  unfolding set_item
  set_segment = set_item segments

  unfoldable pub delete_flag : String → Repository → Repository
  unfolding delete_item
  delete_flag = delete_item flags

  unfoldable pub delete_segment : String → Repository → Repository
  unfolding delete_item
  delete_segment = delete_item segments

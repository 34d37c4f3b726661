-- ===== src/FileStore/Laws.antt =====
-- storage/file.go as a storage of the repository: while its map is not nil, and behind a load of its file.
use ff_golang_server_sdk.Common.{
  String, ◌≡◌, refl, sym, ap, ◌∙◌, Bool, true, false, Option, none, some, [], ◌==◌, if◌then◌else◌,
}
use ff_golang_server_sdk.Common.Dict.{lookup, lookup-insert, lookup-delete}
use ff_golang_server_sdk.Common.Run.{ret, panic}
use ff_golang_server_sdk.Repository.{
  Item, Cache, Kind, Repository, flags, segments, get_flag, get_segment, get_and_cache, from_cache,
  from_storage, from_stored, cast_flag, cast_segment,
}
use ff_golang_server_sdk.Repository.View.{CacheLaws}
use ff_golang_server_sdk.Repository.Offline.{StorageLaws}
use ff_golang_server_sdk.FileStore.{
  Codec, FileStore, LiveStore, Disk, found, get, set, remove, opened, load, file_storage,
}

-- On a store whose map is not nil, the storage does what `Set` and `Remove` do.
set-file_storage :
    (ds : LiveStore) (key : String) (value : Item)
    → (set ds.store key value ≡ ret (file_storage.set ds key value).1.store)
      × (remove ds.store key ≡ (file_storage.remove ds key).1.store)
unfolding set remove
set-file_storage ds key value = (rw ds.live refl, rw ds.live refl)

pub file_storage-StorageLaws : StorageLaws file_storage
unfolding get
file_storage-StorageLaws = record {
  get-set =
      λ ds k j v. lookup-insert k j v ds.held ∙ by_live ds (λ o. if k == j then some v else o) j;
  get-remove = λ ds k j. lookup-delete k j ds.held ∙ by_live ds (λ o. if k == j then none else o) j;
}
  where
    by_live :
        (ds : LiveStore) (f : Option Item → Option Item) (j : String)
        → f (lookup j ds.held) ≡ f (found j ds.store.entries)
    by_live ds f j = ap (λ d. f (found j d)) (sym ds.live)

-- What is known of the JSON library here: the values that `Decode` puts into a map of the type
-- `map[string]interface{}` are texts, numbers, lists and maps, and no values of a type of the SDK.
pub record IsGeneric (codec : Codec) : Type 0 where
  pub decode-other :
      (bytes : codec.Bytes) (k : String) (item : Item)
      → found k (codec.decode bytes (some [])).1 ≡ some item
      → (cast_flag item ≡ none) × (cast_segment item ≡ none)

module _ (codec : Codec) (generic : IsGeneric codec) (disk : Disk codec) (fresh loaded : FileStore)
    (blank : fresh.entries ≡ some []) (ran : load codec disk fresh ≡ (false, loaded)) where
  -- What a loaded store holds is of no type of the SDK.
  get-other :
      (k : String) (item : Item)
      → get loaded k ≡ some item
      → (cast_flag item ≡ none) × (cast_segment item ≡ none)
  unfolding load get
  get-other k item h = by_file (disk fresh.path) ran
    where
      by_file :
          (o : Option codec.Bytes)
          → opened codec fresh o ≡ (false, loaded)
          → (cast_flag item ≡ none) × (cast_segment item ≡ none)
      by_file none e = cc (ap (λ (r : Bool × FileStore). r.0) e)
      by_file (some bytes) e = generic.decode-other bytes k item (
          ap (λ d. found k (codec.decode bytes d).1) (sym blank)
          ∙ ap (λ (r : Bool × FileStore). found k r.1.entries) e
          ∙ h)

  module _ (c : Cache) (laws : CacheLaws c) (r : Repository c file_storage) (storage : LiveStore)
      (same : storage.store ≡ loaded) (has_storage : r.storage ≡ some storage) where
    missed-panic :
        {A : Type 0} (kind : Kind A) (id : String) (cacheable : Bool)
        → ((item : Item) → get loaded (kind.format_key id) ≡ some item → kind.cast item ≡ none)
        → laws.peek r.cache (kind.format_key id) ≡ none
        → get_and_cache c file_storage kind id cacheable r ≡ panic
    unfolding get_and_cache
    missed-panic kind id cacheable other missed =
        ap (λ o. from_cache c file_storage kind o id cacheable after)
          (laws.get_lem r.cache (kind.format_key id) ∙ missed)
        ∙ ap (λ o. from_storage c file_storage kind o id cacheable after) has_storage
        ∙ by_item (get storage.store (kind.format_key id))
            (ap (λ ds. get ds (kind.format_key id)) same)
      where
        after : Repository c file_storage
        after = record r { cache = (c.get r.cache (kind.format_key id)).1 }

        by_item :
            (o : Option Item)
            → o ≡ get loaded (kind.format_key id)
            → from_stored c file_storage kind o (kind.format_key id) cacheable after ≡ panic
        by_item none e = refl
        by_item (some item) e = rw (other item (sym e)) refl

    -- A fresh file store loads its file without an error and is the storage of a repository; the JSON
    -- library gives only generic values. Then `GetFlag` and `GetSegment` panic on every identifier whose
    -- key the cache has not, whatever the file holds: a value that is there fails the type assertion, and so
    -- does the nil of one that is not.
    pub load-get_flag :
        (flag segment : String)
        → laws.peek r.cache (flags.format_key flag) ≡ none
        → laws.peek r.cache (segments.format_key segment) ≡ none
        → (get_flag c file_storage flag r ≡ panic) × (get_segment c file_storage segment r ≡ panic)
    unfolding get_flag get_segment
    load-get_flag flag segment missed_flag missed_segment = (
      missed-panic flags flag true (λ item h. (get-other (flags.format_key flag) item h).0)
          missed_flag,
      missed-panic segments segment true
          (λ item h. (get-other (segments.format_key segment) item h).1) missed_segment,
    )

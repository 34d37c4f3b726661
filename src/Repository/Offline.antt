-- ===== src/Repository/Offline.antt =====
-- pkg/repository/repository.go with an offline storage: reads that fall through to it, and writes.
use ff_golang_server_sdk.Common.{
  String, ◌≡◌, ap, ◌∙◌, Bool, false, Option, none, some, List, ◌==◌, if◌then◌else◌,
}
use ff_golang_server_sdk.Common.Run.{panic}
use ff_golang_server_sdk.Repository.{
  Item, Cache, Storage, Call, Kind, Repository, get_and_cache, is_outdated, set_item, called,
  from_cache, from_storage, from_stored,
}
use ff_golang_server_sdk.Repository.View.{CacheLaws, IsKind}

module _ (c : Cache) (s : Storage) (laws : CacheLaws c) {A : Type 0} (kind : Kind A)
    (r : Repository c s) (storage : s.State) (has_storage : r.storage ≡ some storage) where
  -- A read of an identifier that neither the cache nor the storage has panics.
  pub get_and_cache-panic :
      (id : String) (cacheable : Bool)
      → laws.peek r.cache (kind.format_key id) ≡ none
      → s.get storage (kind.format_key id) ≡ none
      → get_and_cache c s kind id cacheable r ≡ panic
  unfolding get_and_cache
  get_and_cache-panic id cacheable missed absent =
      ap (λ o. from_cache c s kind o id cacheable after)
        (laws.get_lem r.cache (kind.format_key id) ∙ missed)
      ∙ ap (λ o. from_storage c s kind o id cacheable after) has_storage
      ∙ ap (λ o. from_stored c s kind o (kind.format_key id) cacheable after) absent
    where
      after : Repository c s
      after = record r { cache = (c.get r.cache (kind.format_key id)).1 }

  -- With a storage, the write of an item whose key neither the cache nor the storage has panics: the check
  -- of its version reads the key.
  pub set_item-panic :
      (a : A)
      → laws.peek r.cache (kind.format_key (kind.identifier a)) ≡ none
      → s.get storage (kind.format_key (kind.identifier a)) ≡ none
      → set_item c s kind a r ≡ panic
  unfolding set_item is_outdated
  set_item-panic a missed absent = rw (get_and_cache-panic (kind.identifier a) false missed absent)

-- What the repository relies on of a storage.
pub record StorageLaws (s : Storage) : Type 0 where
  pub get-set :
      (st : s.State) (k j : String) (v : Item)
      → s.get (s.set st k v).1 j ≡ (if k == j then some v else s.get st j)
  pub get-remove :
      (st : s.State) (k j : String)
      → s.get (s.remove st k).1 j ≡ (if k == j then none else s.get st j)

module _ (c : Cache) (s : Storage) (cache_laws : CacheLaws c) (storage_laws : StorageLaws s)
    {A : Type 0} (kind : Kind A) (is_kind : IsKind kind) where
  abbrev pub offline : c.State → s.State → Option (List Call) → Repository c s
  offline cache storage calls = record { cache = cache; storage = some storage; calls = calls }

  -- The state behind an accepted write.
  abbrev pub written : A → c.State → s.State → Option (List Call) → Repository c s
  written a cache storage calls =
      let key = kind.format_key (kind.identifier a) in
      offline (c.remove cache key).1 (s.set storage key (kind.wrap a)).1
        (called c s calls (kind.on_stored (kind.identifier a)))

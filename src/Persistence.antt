-- ===== src/Persistence.antt =====
-- cache/persist.go: the cache of cache/lru.go saved to and loaded from a store. The cache's keys and values
-- are interface values; the assertions on them are functions that may fail, and then the code panics.
pub mod Collected
use ff_golang_server_sdk.Common.{
  ℕ, String, Bool, true, false, Option, none, some, List, [], ◌∷◌, ltb, if◌then◌else◌,
}
use ff_golang_server_sdk.Common.Dict.{lookup, insert}
use ff_golang_server_sdk.Common.Run.{Run, ret, panic, ◌>>=◌}
use ff_golang_server_sdk.Stream.{key_feature, key_segment}
use ff_golang_server_sdk.Lru.{LruLibrary, LruCache, set, updated}

-- `dto.Key`
pub record Key : Type 0 where
  pub kind : String
  pub name : String

-- What a store holds under a key: a map, or a value that is none.
pub data Stored (V : Type 0) : Type 0 where
  stored_map : List (String × V) → Stored V
  no_map : Stored V

-- The interface `storage.Storage`, as far as persistence uses it. A Boolean is true when there is no error.
pub record Store (V : Type 0) : Type 1 where
  pub State : Type 0
  pub set : State → String → List (String × V) → Bool × State
  pub get : State → String → Option (Stored V)
  pub persist : State → Bool × State
  pub load : State → Bool × State
  pub persisted_at : State → ℕ

-- Interface values as keys, and `mapstructure.Decode` into a flag and into a segment; `none` is an error.
pub record Casts (lib : LruLibrary) : Type 0 where
  pub to_key : lib.Key → Option Key
  pub of_key : Key → lib.Key
  pub decode_flag : lib.Value → Option lib.Value
  pub decode_segment : lib.Value → Option lib.Value

module _ (lib : LruLibrary) (casts : Casts lib) where
  -- The map of maps that `SaveToStore` builds.
  abbrev pub Grouped : Type 0
  Grouped = List (String × List (String × lib.Value))

  abbrev pub names : Option (List (String × lib.Value)) → List (String × lib.Value)
  names none = []
  names (some m) = m

  unfoldable pub group : Key → lib.Value → Grouped → Grouped
  unfolding insert lookup
  group key value temp = insert key.kind (insert key.name value (names (lookup key.kind temp))) temp

  abbrev pub grouped : Key → Option lib.Value → Grouped → Grouped
  grouped key none temp = temp
  grouped key (some value) temp = group key value temp

  -- The loop over the keys
  unfoldable pub collect : List lib.Key → lib.State → Grouped → Run (Grouped × lib.State)
  unfolding group
  collect [] st temp = ret (temp, st)
  collect (key ∷ keys) st temp =
      let (value, st') = lib.get st key in
      elim (casts.to_key key) [ none ↦ panic | some k ↦ collect keys st' (grouped k value temp) ]

  module _ (store : Store lib.Value) where
    -- An error of `Set` is only logged.
    unfoldable pub store_all : Grouped → store.State → store.State
    store_all [] s = s
    store_all (entry ∷ temp) s = store_all temp (store.set s entry.0 entry.1).1

    -- `SaveToStore`: whether there was no error, the store and the cache
    unfoldable pub save_to_store :
        store.State → LruCache lib → Run (Bool × store.State × LruCache lib)
    unfolding collect store_all updated
    save_to_store s c =
        if ltb (updated lib c) (store.persisted_at s)
        then ret (true, s, c)
        else (collect (lib.keys c.cache) c.cache [] >>= λ r.
            let (saved, s') = store.persist (store_all r.0 s) in
            ret (saved, s', record c { cache = r.1 }))

    -- The loops of `LoadFromStore`: what is put into the cache is decided by `put`.
    unfoldable pub load_entries :
        ℕ
        → String
        → (lib.Value → Option lib.Value)
        → (lib.Value → lib.Value → lib.Value)
        → List (String × lib.Value)
        → LruCache lib
        → Bool × LruCache lib
    unfolding set
    load_entries now kind decode put [] c = (true, c)
    load_entries now kind decode put (entry ∷ entries) c =
        let key = casts.of_key (record { kind = kind; name = entry.0 }) in
        elim (decode entry.1) [
          | none ↦ (false, c)
          | some decoded ↦
              load_entries now kind decode put entries (set lib now key (put entry.1 decoded) c).1
        ]

    abbrev load_stored :
        ℕ
        → String
        → (lib.Value → Option lib.Value)
        → (lib.Value → lib.Value → lib.Value)
        → Option (Stored lib.Value)
        → LruCache lib
        → Run (Bool × LruCache lib)
    load_stored now kind decode put none c = ret (true, c)
    load_stored now kind decode put (some no_map) c = panic
    load_stored now kind decode put (some (stored_map es)) c =
        ret (load_entries now kind decode put es c)

    -- The flag that was decoded goes into the cache, but of a segment what was not decoded.
    abbrev load_kinds : ℕ → store.State → LruCache lib → Run (Bool × LruCache lib)
    load_kinds now s c =
        load_stored now key_feature (casts.decode_flag) (λ value decoded. decoded)
          (store.get s key_feature) c
        >>= λ r.
            if r.0
            then load_stored now key_segment (casts.decode_segment) (λ value decoded. value)
                (store.get s key_segment) r.1
            else ret r

    -- `LoadFromStore`
    unfoldable pub load_from_store :
        ℕ → store.State → LruCache lib → Run (Bool × store.State × LruCache lib)
    unfolding load_entries
    load_from_store now s c =
        let (loaded, s') = store.load s in
        if loaded then (load_kinds now s' c >>= λ r. ret (r.0, s', r.1)) else ret (false, s', c)

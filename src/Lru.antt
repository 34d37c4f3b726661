-- ===== src/Lru.antt =====
-- cache/lru.go: the wrapper of golang-lru that the package cache keeps, with the time of its last change.
-- Times are numbers, and the clock is an argument.
pub mod Changes
use ff_golang_server_sdk.Common.{ℕ, Bool, true, false, Option, none, some, List, if◌then◌else◌}

-- `lru.Cache` of github.com/hashicorp/golang-lru, the nil among its values, and
-- `reflect.DeepEqual` on them.
pub record LruLibrary : Type 1 where
  pub State : Type 0
  pub Key : Type 0
  pub Value : Type 0
  pub new : ℕ → Option State
  pub add : State → Key → Value → Bool × State
  pub get : State → Key → Option Value × State
  pub contains : State → Key → Bool
  pub keys : State → List Key
  pub len : State → ℕ
  pub purge : State → State
  pub remove : State → Key → Bool × State
  pub resize : State → ℕ → ℕ × State
  pub nil : Value
  pub deep_equal : Value → Value → Bool

module _ (lib : LruLibrary) where
  -- `LRUCache`, less its logger; the zero time is 0
  pub record LruCache : Type 0 where
    pub cache : lib.State
    pub last_update : ℕ

  abbrev wrapped : Option lib.State → Option LruCache
  wrapped none = none
  wrapped (some st) = some (record { cache = st; last_update = 0 })

  -- `NewLruCache`; `none` is an error
  unfoldable pub new_lru_cache : ℕ → Option LruCache
  new_lru_cache size = wrapped (lib.new size)

  -- What `Get` gave is the value already; it gives a nil for a key that is not there.
  abbrev pub unchanged : Option lib.Value → lib.Value → Bool
  unchanged none value = lib.deep_equal lib.nil value
  unchanged (some prev) value = lib.deep_equal prev value

  -- `Set`
  unfoldable pub set : ℕ → lib.Key → lib.Value → LruCache → Bool × LruCache
  set now key value c =
      let (prev, st) = lib.get c.cache key in
      let (evicted, st') = lib.add st key value in
      if unchanged prev value
      then (false, record c { cache = st })
      else (evicted, record { cache = st'; last_update = now })

  -- `Contains`, `Get`, `Keys`, `Len`
  unfoldable pub contains : lib.Key → LruCache → Bool
  contains key c = lib.contains c.cache key

  unfoldable pub get : lib.Key → LruCache → Option lib.Value × LruCache
  get key c = let (value, st) = lib.get c.cache key in (value, record c { cache = st })

  unfoldable pub keys : LruCache → List lib.Key
  keys c = lib.keys c.cache

  unfoldable pub len : LruCache → ℕ
  len c = lib.len c.cache

  -- `Purge`, `Remove`, `Resize`, `Updated`
  unfoldable pub purge : ℕ → LruCache → LruCache
  purge now c = record { cache = lib.purge c.cache; last_update = now }

  unfoldable pub remove : ℕ → lib.Key → LruCache → Bool × LruCache
  remove now key c =
      let (present, st) = lib.remove c.cache key in
      (present, record { cache = st; last_update = now })

  unfoldable pub resize : ℕ → LruCache → ℕ × LruCache
  resize size c = let (evicted, st) = lib.resize c.cache size in (evicted, record c { cache = st })

  unfoldable pub updated : LruCache → ℕ
  updated c = c.last_update

-- ===== src/Persistence/Collected.antt =====
-- `SaveToStore` of cache/persist.go: what is written.
use ff_golang_server_sdk.Common.{
  ◌≡◌, refl, ap, ◌∙◌, Bool, true, false, ◌&&◌, Bool-cases, ◌⊎◌, inl, inr, Option, none, some, List,
  [], ◌∷◌, ◌==◌, eq_iff, ltb, if◌then◌else◌, All, Any,
}
use ff_golang_server_sdk.Common.Dict.{lookup, insert, lookup-insert}
use ff_golang_server_sdk.Common.Run.{ret}
use ff_golang_server_sdk.Lru.{LruLibrary, LruCache, updated}
use ff_golang_server_sdk.Lru.Changes.{LruLaws, Alike}
use ff_golang_server_sdk.Persistence.{
  Key, Store, Casts, Grouped, names, group, grouped, collect, store_all, save_to_store,
}

module _ (lib : LruLibrary) (casts : Casts lib) where
  -- What stands under a key's type and name.
  abbrev pub cell : Grouped lib casts → Key → Option lib.Value
  cell temp k = lookup k.name (names lib casts (lookup k.kind temp))

  cell-group :
      (k j : Key) (v : lib.Value) (temp : Grouped lib casts)
      → cell (group lib casts k v temp) j
        ≡ (if k.kind == j.kind && k.name == j.name then some v else cell temp j)
  unfolding group
  cell-group k j v temp =
      rw (lookup-insert k.kind j.kind (insert k.name v (names lib casts (lookup k.kind temp))) temp)
        (elim (Bool-cases (k.kind == j.kind)) [
          | inl e ↦ rw e (
              rw (lookup-insert k.name j.name v (names lib casts (lookup k.kind temp)))
                (rw ((eq_iff k.kind j.kind).0 e) refl))
          | inr e ↦ rw e refl
        ])

  abbrev same_key : Key → Key → Bool
  same_key k j = k.kind == j.kind && k.name == j.name

  same_key-true : (k j : Key) → same_key k j ≡ true → k ≡ j
  same_key-true k j h = elim (Bool-cases (k.kind == j.kind)) [
    | inl e ↦
        let kinds : k.kind ≡ j.kind = (eq_iff k.kind j.kind).0 e in
        let rest : (k.name == j.name) ≡ true = rw e at h in
        let named : k.name ≡ j.name = (eq_iff k.name j.name).0 rest in cc (kinds, named)
    | inr e ↦ cc (rw e at h)
  ]

  same_key_refl : (k : Key) → same_key k k ≡ true
  same_key_refl k = rw ((eq_iff k.kind k.kind).1 refl) (rw ((eq_iff k.name k.name).1 refl) refl)

  cell-grouped_other :
      (k j : Key) (o : Option lib.Value) (v : lib.Value) (temp : Grouped lib casts)
      → same_key k j ≡ false
      → cell temp j ≡ some v
      → cell (grouped lib casts k o temp) j ≡ some v
  cell-grouped_other k j none v temp e h = h
  cell-grouped_other k j (some w) v temp e h = cell-group k j w temp ∙ rw e h

  -- Two interface values that are the same `dto.Key` are equal.
  abbrev pub IsExact : Type 0
  IsExact = (a b : lib.Key) (k : Key) → casts.to_key a ≡ some k → casts.to_key b ≡ some k → a ≡ b

  module _ (laws : LruLaws lib) (exact : IsExact) where
    -- One key of the loop, on a key that is sought.
    cell-grouped :
        (a b : lib.Key) (k j : Key) (st : lib.State) (v : lib.Value) (temp : Grouped lib casts)
        → casts.to_key a ≡ some k
        → casts.to_key b ≡ some j
        → laws.peek st b ≡ some v
        → (a ≡ b) ⊎ (cell temp j ≡ some v)
        → cell (grouped lib casts k (laws.peek st a) temp) j ≡ some v
    cell-grouped a b k j st v temp ka jb held h = elim (Bool-cases (same_key k j)) [
      | inl e ↦
          let same : a ≡ b = exact a b j (ka ∙ ap some (same_key-true k j e)) jb in
          rw same (rw held (cell-group k j v temp ∙ rw e refl))
      | inr e ↦ elim h [
        | inl same ↦
            let keys : k ≡ j = cc (ka, jb, same) in
            let found : same_key k j ≡ true = rw keys (same_key_refl j) in cc (e, found)
        | inr kept ↦ cell-grouped_other k j (laws.peek st a) v temp e kept
      ]
    ]

    -- The interface values that are keys.
    abbrev pub AllKeys : List lib.Key → Type 0
    AllKeys = All (λ a. (k : Key) × (casts.to_key a ≡ some k))

    -- The values of a list of keys, and of what was collected before, stand in their cells.
    abbrev Holds : lib.State → (lib.Key → Type 0) → Grouped lib casts → Grouped lib casts → Type 0
    Holds st Sought temp temp' =
        (b : lib.Key) (j : Key) (v : lib.Value)
        → casts.to_key b ≡ some j
        → laws.peek st b ≡ some v
        → Sought b ⊎ (cell temp j ≡ some v)
        → cell temp' j ≡ some v

    collect-cell :
        (ks : List lib.Key) (st : lib.State) (temp : Grouped lib casts)
        → AllKeys ks
        → (temp' : Grouped lib casts) × (st' : lib.State) × (collect lib casts ks st temp
            ≡ ret (temp', st'))
          × ((k : lib.Key) → laws.peek st' k ≡ laws.peek st k)
          × Holds st (λ b. Any (λ a. a ≡ b) ks) temp temp'
    unfolding collect
    collect-cell [] st temp keys = (
      temp,
      st,
      refl,
      λ k. refl,
      λ b j v jb held h. elim h [ inl x ↦ absurd x | inr kept ↦ kept ],
    )
    collect-cell (a ∷ ks) st temp ((k, ka), keys) =
        let st₁ = (lib.get st a).1 in
        let (temp', st', ran, same, holds) =
          collect-cell ks st₁ (grouped lib casts k (lib.get st a).0 temp) keys in
        (
          temp',
          st',
          rw (ka, collect) ran,
          λ b. same b ∙ laws.peek-get st a b,
          λ b j v jb held h.
              let now : ((a ≡ b) ⊎ (cell temp j ≡ some v))
                  → cell (grouped lib casts k (lib.get st a).0 temp) j ≡ some v =
                λ d. rw (laws.get_lem st a) (cell-grouped a b k j st v temp ka jb held d) in
              holds b j v jb (laws.peek-get st a b ∙ held) (elim h [
                | inl (inl e) ↦ inr (now (inl e))
                | inl (inr x) ↦ inl x
                | inr kept ↦ inr (now (inr kept))
              ]),
        )

    -- When the cache was updated no earlier than the store was persisted, equal times included, and all
    -- keys of the cache are of the type `dto.Key`, where equal ones are one key, `SaveToStore` does not panic: it stores maps in which the value of each key
    -- that the cache lists stands under the key's type and name, persists the store, and leaves the
    -- values of the cache as they are.
    pub save_to_store-cell :
        (store : Store lib.Value) (s : store.State) (c : LruCache lib)
        → ltb (updated lib c) (store.persisted_at s) ≡ false
        → AllKeys (lib.keys c.cache)
        → (temp : Grouped lib casts) × (c' : LruCache lib) × (save_to_store lib casts store s c
            ≡ ret (
              (store.persist (store_all lib casts store temp s)).0,
              (store.persist (store_all lib casts store temp s)).1,
              c',
            ))
          × Alike lib laws c c'
          × ((b : lib.Key) (j : Key) (v : lib.Value)
              → casts.to_key b ≡ some j
              → laws.peek c.cache b ≡ some v
              → Any (λ a. a ≡ b) (lib.keys c.cache)
              → cell temp j ≡ some v)
    unfolding save_to_store
    save_to_store-cell store s c due keys =
        let (temp, st', ran, same, holds) = collect-cell (lib.keys c.cache) c.cache [] keys in
        (
          temp,
          record c { cache = st' },
          rw due (rw ran refl),
          same,
          λ b j v jb held listed. holds b j v jb held (inl listed),
        )

-- ===== src/Lru/Changes.antt =====
-- cache/lru.go: what `Updated` says of the calls since a time.
use ff_golang_server_sdk.Common.{
  ℕ, ◌≤◌, ◌<◌, ◌≡◌, refl, sym, ◌∙◌, true, Bool-cases, ◌⊎◌, inl, inr, Option, none, some, List, [],
  ◌∷◌, arith, Option-cases,
}
use ff_golang_server_sdk.Lru.{LruLibrary, LruCache, set, get, remove, purge, updated, unchanged}

-- What the wrapper relies on: `peek` looks a key up with no effect, a `Get` changes no value, and what is
-- added is found.
pub record LruLaws (lib : LruLibrary) : Type 0 where
  pub peek : lib.State → lib.Key → Option lib.Value
  pub get_lem : (st : lib.State) (k : lib.Key) → (lib.get st k).0 ≡ peek st k
  pub peek-get : (st : lib.State) (k j : lib.Key) → peek (lib.get st k).1 j ≡ peek st j
  pub peek-add : (st : lib.State) (k : lib.Key) (v : lib.Value) → peek (lib.add st k v).1 k ≡ some v

module _ (lib : LruLibrary) where
  -- A call of the cache that may change it.
  pub data Call : Type 0 where
    set_call : lib.Key → lib.Value → Call
    get_call : lib.Key → Call
    remove_call : lib.Key → Call
    purge_call : Call

  -- The call at a time of the clock.
  abbrev pub step : ℕ → Call → LruCache lib → LruCache lib
  step now (set_call k v) c = (set lib now k v c).1
  step now (get_call k) c = (get lib k c).1
  step now (remove_call k) c = (remove lib now k c).1
  step now purge_call c = purge lib now c

  abbrev pub run : List (ℕ × Call) → LruCache lib → LruCache lib
  run [] c = c
  run (call ∷ calls) c = run calls (step call.0 call.1 c)

  -- All calls are later than a time.
  abbrev pub After : ℕ → List (ℕ × Call) → Type 0
  After t [] = Unit
  After t (call ∷ calls) = (t < call.0) × After t calls

  module _ (laws : LruLaws lib) where
    -- The same values under all keys.
    abbrev pub Alike : LruCache lib → LruCache lib → Type 0
    Alike c d = (k : lib.Key) → laws.peek d.cache k ≡ laws.peek c.cache k

    set_cases :
        (now : ℕ) (k : lib.Key) (v : lib.Value) (c : LruCache lib)
        → (updated lib (set lib now k v c).1 ≡ now)
          ⊎ (updated lib (set lib now k v c).1 ≡ updated lib c) × Alike c (set lib now k v c).1
    unfolding set updated
    set_cases now k v c = elim (Bool-cases (unchanged lib (lib.get c.cache k).0 v)) [
      | inl e ↦ inr (rw e refl, λ j. rw e (laws.peek-get c.cache k j))
      | inr e ↦ inl (rw e refl)
    ]

    step_cases :
        (now : ℕ) (call : Call) (c : LruCache lib)
        → (updated lib (step now call c) ≡ now)
          ⊎ (updated lib (step now call c) ≡ updated lib c) × Alike c (step now call c)
    unfolding updated get remove purge
    step_cases now (set_call k v) c = set_cases now k v c
    step_cases now (get_call k) c = inr (refl, λ j. laws.peek-get c.cache k j)
    step_cases now (remove_call k) c = inl refl
    step_cases now purge_call c = inl refl

    -- A change stays visible.
    run-later :
        (t : ℕ) (calls : List (ℕ × Call)) (c : LruCache lib)
        → After t calls
        → t < updated lib c
        → t < updated lib (run calls c)
    run-later t [] c after h = h
    run-later t ((now, call) ∷ calls) c after h =
        run-later t calls (step now call c) after.1
          (elim (step_cases now call c) [ inl e ↦ rw e (after.0) | inr (e, same) ↦ rw e h ])

    -- When `Updated` is no later than a time behind calls of `Set`, `Get`, `Remove` and `Purge` that all
    -- came after it, the cache holds under each key what it held before them.
    pub run-Alike :
        (t : ℕ) (calls : List (ℕ × Call)) (c : LruCache lib)
        → After t calls
        → updated lib (run calls c) ≤ t
        → Alike c (run calls c)
    run-Alike t [] c after h = λ k. refl
    run-Alike t ((now, call) ∷ calls) c after h = elim (step_cases now call c) [
      | inl e ↦
          let late = run-later t calls (step now call c) after.1 (rw e (after.0)) in
          absurd (omega arith)
      | inr (e, same) ↦
          let rest = run-Alike t calls (step now call c) after.1 h in λ k. rest k ∙ same k
    ]

    -- Behind a `Set`, a key holds the value or one that is deeply equal to it, and `Get` gives it; or the
    -- value is as good as nil, and the key is not there.
    pub get-set :
        (now : ℕ) (k : lib.Key) (v : lib.Value) (c : LruCache lib)
        → ((w : lib.Value) × ((get lib k (set lib now k v c).1).0 ≡ some w)
            × ((w ≡ v) ⊎ (lib.deep_equal w v ≡ true)))
          ⊎ (((get lib k (set lib now k v c).1).0 ≡ none) × (lib.deep_equal lib.nil v ≡ true))
    unfolding set get
    get-set now k v c = elim (Bool-cases (unchanged lib (lib.get c.cache k).0 v)) [
      | inl e ↦ elim (Option-cases (lib.get c.cache k).0) [
        | inl p ↦ inr (rw e (again ∙ p), rw p at e)
        | inr (w, p) ↦ inl (w, rw e (again ∙ p), inr (rw p at e))
      ]
      | inr e ↦
          let st = (lib.get c.cache k).1 in
          inl (v, rw e (laws.get_lem (lib.add st k v).1 k ∙ laws.peek-add st k v), inl refl)
    ]
      where
        again : (lib.get (lib.get c.cache k).1 k).0 ≡ (lib.get c.cache k).0
        again =
            laws.get_lem (lib.get c.cache k).1 k
            ∙ laws.peek-get c.cache k k
            ∙ sym (laws.get_lem c.cache k)

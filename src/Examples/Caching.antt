-- ===== src/Examples/Caching.antt =====
-- The cache of the package cache over a library that never evicts.
use ff_golang_server_sdk.Common.{
  ℕ, ◌≤◌, String, ◌≡◌, refl, true, false, none, some, List, [], ◌∷◌, map, length, eqb, eq_iff,
  arith, ltb, Any,
}
use ff_golang_server_sdk.Common.Dict.{lookup, insert, delete, lookup-insert}
use ff_golang_server_sdk.Common.Run.{ret}
use ff_golang_server_sdk.Persistence.{Key, Casts, Store, Grouped, store_all, save_to_store}
use ff_golang_server_sdk.Persistence.Collected.{cell, save_to_store-cell}
use ff_golang_server_sdk.Lru.{LruLibrary, LruCache, set, get, updated}
use ff_golang_server_sdk.Lru.Changes.{LruLaws, Call, set_call, get_call, run, Alike, run-Alike}

abbrev plain : LruLibrary
plain = record {
  State = List (String × ℕ);
  Key = String;
  Value = ℕ;
  new = λ size. some [];
  add = λ st k v. (false, insert k v st);
  get = λ st k. (lookup k st, st);
  contains = λ st k. false;
  keys = λ st. map (λ e. e.0) st;
  len = λ st. length st;
  purge = λ st. [];
  remove = λ st k. (true, delete k st);
  resize = λ st size. (0, st);
  nil = 0;
  deep_equal = eqb;
}

unfoldable plain-LruLaws : LruLaws plain
plain-LruLaws = record {
  peek = λ st k. lookup k st;
  get_lem = λ st k. refl;
  peek-get = λ st k j. refl;
  peek-add = λ st k v. rw (lookup-insert k k v st) (rw ((eq_iff k k).1 refl) refl);
}

-- A cache that last changed at the time 3.
abbrev filled : LruCache plain
filled = record { cache = ("a", 7) ∷ []; last_update = 3 }

-- The same value again, and a look, at the times 6 and 8.
abbrev quiet : List (ℕ × Call plain)
quiet = (6, set_call "a" 7) ∷ (8, get_call "a") ∷ []

updated-quiet : updated plain (run plain quiet filled) ≤ 5
unfolding set get updated lookup
updated-quiet = omega arith

run-Alike_example : Alike plain plain-LruLaws filled (run plain quiet filled)
run-Alike_example =
    run-Alike plain plain-LruLaws 5 quiet filled (omega arith, (omega arith, tt)) updated-quiet

-- Every text is the name of a flag.
abbrev casts : Casts plain
casts = record {
  to_key = λ a. some (record { kind = "flag"; name = a });
  of_key = λ k. k.name;
  decode_flag = some;
  decode_segment = some;
}

abbrev disk : Store ℕ
disk = record {
  State = List (String × List (String × ℕ));
  set = λ st k m. (true, insert k m st);
  get = λ st k. none;
  persist = λ st. (true, st);
  load = λ st. (true, st);
  persisted_at = λ st. 2;
}

due : ltb (updated plain filled) 2 ≡ false
unfolding updated
due = refl

save_to_store-cell_example :
    (temp : Grouped plain casts) × (c' : LruCache plain) × (save_to_store plain casts disk [] filled
      ≡ ret (true, store_all plain casts disk temp [], c'))
    × Alike plain plain-LruLaws filled c'
    × ((b : String) (j : Key) (v : ℕ)
        → some (record { kind = "flag"; name = b }) ≡ some j
        → plain-LruLaws.peek filled.cache b ≡ some v
        → Any (λ a. a ≡ b) ("a" ∷ [])
        → cell plain casts temp j ≡ some v)
save_to_store-cell_example =
    save_to_store-cell plain casts plain-LruLaws (λ a b k p q. cc (p, q)) disk [] filled due
      ((record { kind = "flag"; name = "a" }, refl), tt)

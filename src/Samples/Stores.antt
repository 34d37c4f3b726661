-- ===== src/Samples/Stores.antt =====
-- A cache that never evicts, an API and a codec for the tests.
use ff_golang_server_sdk.Common.{
  ◌≡◌, refl, String, ◌==◌, true, false, Option, none, some, List, [], ◌∷◌, Bool-cases, inl, inr,
  eq_iff,
}
use ff_golang_server_sdk.Common.Int.{pos}
use ff_golang_server_sdk.Common.Dict.{lookup, insert, delete, lookup-insert, lookup-delete}
use ff_golang_server_sdk.Repository.{Item, other_item, Cache}
use ff_golang_server_sdk.Repository.View.{CacheLaws}
use ff_golang_server_sdk.Repository.Room.{RoomLaws}
use ff_golang_server_sdk.FileStore.{Codec, found}
use ff_golang_server_sdk.FileStore.Laws.{IsGeneric}
use ff_golang_server_sdk.Stream.{Server, json200, not_ok, key_feature}
use ff_golang_server_sdk.Samples.Flags.{flag}

abbrev pub cache : Cache
cache = record {
  State = List (String × Item);
  get = λ m k. (lookup k m, m);
  set = λ m k v. (false, insert k v m);
  remove = λ m k. (true, delete k m);
}

unfoldable pub cache-CacheLaws : CacheLaws cache
cache-CacheLaws = record {
  peek = λ m k. lookup k m;
  get_lem = λ m k. refl;
  peek-get = λ m k j. refl;
  peek-set_self = λ m k v. rw (lookup-insert k k v m) (rw ((eq_iff k k).1 refl));
  peek-set_other = λ m k j v other. elim (Bool-cases (k == j)) [
    | inl e ↦ absurd (other ((eq_iff k j).0 e))
    | inr e ↦ inl (rw (lookup-insert k j v m) (rw e))
  ];
  peek-remove = λ m k j. lookup-delete k j m;
}

unfoldable pub cache-RoomLaws : RoomLaws cache cache-CacheLaws
unfolding cache-CacheLaws
cache-RoomLaws = record {
  HasRoom = λ m n. Unit;
  room-less = λ m n h. tt;
  room-get = λ m k n h. tt;
  room-set = λ m k v n h. tt;
  set-kept = λ m k j v n h other. elim (Bool-cases (k == j)) [
    | inl e ↦ absurd (other ((eq_iff k j).0 e))
    | inr e ↦ rw (lookup-insert k j v m) (rw e refl)
  ];
}

-- An API that knows the flag `dark_mode`, and reads every message as one on that flag.
abbrev pub server : String → Server
server event = record {
  get_feature_config_by_identifier = λ environment identifier. json200 (flag identifier none);
  get_segment_by_identifier = λ environment identifier. not_ok;
  unmarshal = λ s.
      some
        (record { event = event; domain = key_feature; identifier = "dark_mode"; version = pos 4 });
}

-- A codec whose bytes are the map, and which decodes to generic values.
abbrev others : List (String × Item) → List (String × Item)
others [] = []
others (entry ∷ entries) = (entry.0, other_item) ∷ others entries

abbrev generic : Option (List (String × Item)) → Option (List (String × Item))
generic none = none
generic (some d) = some (others d)

abbrev pub codec : Codec
codec = record {
  Bytes = Option (List (String × Item));
  empty = none;
  encode = some;
  decode = λ bytes d. (false, generic bytes);
}

lookup-others :
    (k : String) (item : Item) (d : List (String × Item))
    → lookup k (others d) ≡ some item
    → item ≡ other_item
unfolding lookup
lookup-others k item [] h = cc h
lookup-others k item (entry ∷ entries) h = elim (Bool-cases (entry.0 == k)) [
  | inl e ↦ cc (rw e at h)
  | inr e ↦ lookup-others k item entries (rw e at h)
]

found-generic :
    (bytes : Option (List (String × Item))) (k : String) (item : Item)
    → found k (generic bytes) ≡ some item
    → item ≡ other_item
found-generic none k item h = cc h
found-generic (some d) k item h = lookup-others k item d h

pub codec-IsGeneric : IsGeneric codec
codec-IsGeneric = record {
  decode-other = λ bytes k item h.
      let same : item ≡ other_item = found-generic bytes k item h in (rw same refl, rw same refl);
}

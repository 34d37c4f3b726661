-- ===== src/Examples/Storing.antt =====
-- The repository, the file store and the events of the stream on the sample flags.
use ff_golang_server_sdk.Common.{
  String, ◌≡◌, refl, Bool, true, false, none, some, List, [], ◌∷◌, ◌==◌, ◌⊎◌, if◌then◌else◌,
}
use ff_golang_server_sdk.Common.Int.{ℤ, pos, ◌≤ℤ◌}
use ff_golang_server_sdk.Common.Dict.{lookup, insert}
use ff_golang_server_sdk.Common.Run.{ret, panic}
use ff_golang_server_sdk.Repository.{
  Item, flag_item, other_item, Repository, format_flag_key, flags, on_flag_stored, get_and_cache,
  is_outdated, set_item, new_with_storage,
}
use ff_golang_server_sdk.Common.{eq_iff}
use ff_golang_server_sdk.Rest.{Segment}
use ff_golang_server_sdk.Repository.{segments, format_segment_key, get_flag, get_segment}
use ff_golang_server_sdk.Repository.Typed.{flags-IsApart}
use ff_golang_server_sdk.Repository.AsQuery.{query_of, AnswersAlike, get_flag-query_of}
use ff_golang_server_sdk.Repository.View.{IsTyped, flags-IsKind, set_item-fresh}
use ff_golang_server_sdk.Repository.Versions.{set_item-version}
use ff_golang_server_sdk.Repository.Offline.{set_item-panic}
use ff_golang_server_sdk.FileStore.{FileStore, LiveStore, Disk, file_storage, get, load}
use ff_golang_server_sdk.FileStore.Laws.{load-get_flag}
use ff_golang_server_sdk.Samples.Stores.{cache, cache-CacheLaws, codec, codec-IsGeneric}
use ff_golang_server_sdk.Samples.Held.{
  at_version, held, no_calls, held-IsTyped, seen, holding, four_fresh,
}

abbrev holding_file : List (String × Item) → FileStore
holding_file d = record { project = "web"; path = "web.json"; entries = some d; last_persisted = 0 }

abbrev live_store : List (String × Item) → LiveStore
live_store d = record { store = holding_file d; held = d; live = refl }

abbrev store : LiveStore
store = live_store held

set_item-fresh_example :
    (st' : List (String × Item)) × (set_item cache file_storage flags
        (at_version (pos 4))
        (holding held no_calls)
      ≡ ret (holding st' (some (on_flag_stored "dark_mode" ∷ []))))
    × (seen st' "dark_mode" ≡ some (at_version (pos 4)))
    × ((j : String)
        → (seen st' j ≡ (if "dark_mode" == j then some (at_version (pos 4)) else seen held j))
          ⊎ (seen st' j ≡ none))
set_item-fresh_example =
    set_item-fresh cache file_storage cache-CacheLaws flags flags-IsKind held no_calls
      (at_version (pos 4)) held-IsTyped four_fresh

abbrev renewed : List (String × Item)
renewed = ("flags/dark_mode", flag_item (at_version (pos 4))) ∷ []

four_set :
    set_item cache file_storage flags (at_version (pos 4)) (holding held no_calls)
    ≡ ret (holding renewed (some (on_flag_stored "dark_mode" ∷ [])))
unfolding set_item is_outdated get_and_cache lookup insert format_flag_key
four_set = refl

seen_before : seen held "dark_mode" ≡ some (at_version (pos 3))
unfolding cache-CacheLaws lookup format_flag_key
seen_before = refl

seen_after : seen renewed "dark_mode" ≡ some (at_version (pos 4))
unfolding cache-CacheLaws lookup format_flag_key
seen_after = refl

set_item-version_example : (n : ℤ) × ((at_version (pos 4)).version ≡ some n) × (pos 3 ≤ℤ n)
set_item-version_example =
    set_item-version cache file_storage cache-CacheLaws flags flags-IsKind held no_calls
      (at_version (pos 4)) held-IsTyped renewed (some (on_flag_stored "dark_mode" ∷ [])) "dark_mode"
      (at_version (pos 3)) (at_version (pos 4)) (pos 3) four_set seen_before seen_after refl

abbrev blank : LiveStore
blank = live_store []

set_item-panic_example :
    set_item cache file_storage flags
      (at_version (pos 1))
      (new_with_storage cache file_storage [] blank)
    ≡ panic
unfolding cache-CacheLaws new_with_storage lookup get
set_item-panic_example =
    set_item-panic cache file_storage cache-CacheLaws flags
      (new_with_storage cache file_storage [] blank) blank refl (at_version (pos 1)) refl refl

abbrev saved : Disk codec
saved path = if path == "web.json" then some (some held) else none

abbrev others : List (String × Item)
others = ("flags/dark_mode", other_item) ∷ []

loaded : load codec saved (holding_file []) ≡ (false, holding_file others)
unfolding load
loaded = refl

abbrev on_loaded : Repository cache file_storage
on_loaded = new_with_storage cache file_storage [] (live_store others)

load-get_flag_example :
    (get_flag cache file_storage "dark_mode" on_loaded ≡ panic)
    × (get_segment cache file_storage "beta" on_loaded ≡ panic)
unfolding new_with_storage cache-CacheLaws lookup
load-get_flag_example =
    load-get_flag codec codec-IsGeneric saved (holding_file []) (holding_file others) refl loaded
      cache cache-CacheLaws on_loaded (live_store others) refl refl "dark_mode" "beta" refl refl

held-segments : IsTyped cache file_storage cache-CacheLaws segments held
unfolding cache-CacheLaws lookup format_segment_key format_flag_key
held-segments id item found = by_test ("flags/dark_mode" == format_segment_key id) refl found
  where
    by_test :
        (b : Bool)
        → ("flags/dark_mode" == format_segment_key id) ≡ b
        → (if b then some (flag_item (at_version (pos 3))) else none) ≡ some item
        → (a : Segment) × (segments.cast item ≡ some a)
    by_test true e k =
        absurd
          (flags-IsApart "dark_mode" id ((eq_iff "flags/dark_mode" (format_segment_key id)).0 e))
    by_test false e k = cc k

get_flag-query_of_example :
    ((st' : List (String × Item)) × (get_flag cache file_storage "dark_mode" (holding held no_calls)
        ≡ ret (
          (query_of cache file_storage cache-CacheLaws held).get_flag "dark_mode",
          holding st' no_calls,
        ))
      × AnswersAlike cache file_storage cache-CacheLaws held st')
    × ((st' : List (String × Item)) × (get_segment cache file_storage "dark_mode"
            (holding held no_calls)
          ≡ ret (
            (query_of cache file_storage cache-CacheLaws held).get_segment "dark_mode",
            holding st' no_calls,
          ))
        × AnswersAlike cache file_storage cache-CacheLaws held st')
get_flag-query_of_example =
    get_flag-query_of cache file_storage cache-CacheLaws held no_calls "dark_mode" held-IsTyped
      held-segments

-- ===== src/Examples/Racing.antt =====
-- The repository over several calls, and two goroutines in `SetFlag`, on the sample flags.
use ff_golang_server_sdk.Common.{
  String, ◌≡◌, ◌≢◌, refl, Bool, true, false, none, List, [], ◌∷◌, arith,
}
use ff_golang_server_sdk.Common.Int.{pos}
use ff_golang_server_sdk.Common.Dict.{lookup, insert}
use ff_golang_server_sdk.Common.Run.{ret, Returns}
use ff_golang_server_sdk.Rest.{FeatureConfig}
use ff_golang_server_sdk.Repository.{Repository, format_flag_key, flags}
use ff_golang_server_sdk.Rest.{Segment}
use ff_golang_server_sdk.Repository.{get_flag, get_segment, set_flag, set_segment, delete_flag, new}
use ff_golang_server_sdk.Repository.View.{flags-IsKind}
use ff_golang_server_sdk.Repository.Reach.{
  Reach, at_first, stepped, flag_set, flag_deleted, reachable-Returns,
}
use ff_golang_server_sdk.Repository.Race.{set_both-lost, Leaves}
use ff_golang_server_sdk.FileStore.{file_storage}
use ff_golang_server_sdk.Samples.Stores.{cache, cache-CacheLaws}
use ff_golang_server_sdk.Samples.Held.{
  at_version, held, no_calls, held-IsTyped, four_fresh, five_fresh,
}

abbrev AfterRace : List Bool → FeatureConfig → Type 0
AfterRace =
    Leaves cache file_storage cache-CacheLaws flags flags-IsKind "dark_mode" held no_calls
      (at_version (pos 4)) (at_version (pos 5)) refl refl held-IsTyped four_fresh five_fresh

set_both-lost_example :
    AfterRace (false ∷ false ∷ true ∷ true ∷ []) (at_version (pos 5))
    × AfterRace (true ∷ false ∷ false ∷ true ∷ []) (at_version (pos 4))
set_both-lost_example =
    set_both-lost cache file_storage cache-CacheLaws flags flags-IsKind "dark_mode" held no_calls
      (at_version (pos 4)) (at_version (pos 5)) refl refl held-IsTyped four_fresh five_fresh (pos 4)
      (pos 5) refl refl (omega arith)

-- A flag is set, and another one is deleted.
abbrev holds_one : Repository cache file_storage
holds_one = record { cache = held; storage = none; calls = none }

sets_one :
    set_flag cache file_storage (at_version (pos 3)) (new cache file_storage []) ≡ ret holds_one
unfolding set_flag new lookup insert format_flag_key
sets_one = refl

deletes_none :
    Reach cache file_storage
      (new cache file_storage [])
      (delete_flag cache file_storage "light" holds_one)
deletes_none =
    stepped (stepped at_first (flag_set (at_version (pos 3)) sets_one)) (flag_deleted "light")

abbrev after_delete : Repository cache file_storage
after_delete = delete_flag cache file_storage "light" holds_one

reachable-Returns_example :
    ((id : String)
      → Returns (get_flag cache file_storage id after_delete)
        × Returns (get_segment cache file_storage id after_delete))
    × ((fc : FeatureConfig)
        → fc.version ≢ none
        → Returns (set_flag cache file_storage fc after_delete))
    × ((seg : Segment)
        → seg.version ≢ none
        → Returns (set_segment cache file_storage seg after_delete))
unfolding cache-CacheLaws lookup
reachable-Returns_example =
    reachable-Returns cache file_storage cache-CacheLaws [] after_delete (λ k. refl) deletes_none

-- ===== src/Samples/Held.antt =====
-- A cache that holds one flag, for the tests.
use ff_golang_server_sdk.Common.{
  String, ◌≡◌, refl, sym, ap, Bool, true, false, Option, none, some, List, [], ◌∷◌, ◌==◌,
  if◌then◌else◌,
}
use ff_golang_server_sdk.Common.Int.{ℤ, pos}
use ff_golang_server_sdk.Common.Dict.{lookup}
use ff_golang_server_sdk.Common.Run.{Run, ret}
use ff_golang_server_sdk.Rest.{FeatureConfig}
use ff_golang_server_sdk.Repository.{
  Item, flag_item, Call, Repository, format_flag_key, flags, outdated_by,
}
use ff_golang_server_sdk.Repository.View.{IsTyped, view, cached, answer}
use ff_golang_server_sdk.FileStore.{file_storage}
use ff_golang_server_sdk.Samples.Flags.{flag}
use ff_golang_server_sdk.Samples.Stores.{cache, cache-CacheLaws}

abbrev pub at_version : ℤ → FeatureConfig
at_version v = record (flag "dark_mode" none) { version = some v }

abbrev pub held : List (String × Item)
held = ("flags/dark_mode", flag_item (at_version (pos 3))) ∷ []

abbrev pub no_calls : Option (List Call)
no_calls = some []

pub held-IsTyped : IsTyped cache file_storage cache-CacheLaws flags held
unfolding cache-CacheLaws lookup
held-IsTyped id item found = by_test ("flags/dark_mode" == format_flag_key id) found
  where
    by_test :
        (b : Bool)
        → (if b then some (flag_item (at_version (pos 3))) else none) ≡ some item
        → (a : FeatureConfig) × (flags.cast item ≡ some a)
    by_test true e =
        let same : flag_item (at_version (pos 3)) ≡ item = cc e in
        (at_version (pos 3), ap flags.cast (sym same))
    by_test false e = cc e

-- The view of the sample cache, and a set on it.
abbrev pub seen : List (String × Item) → String → Option FeatureConfig
seen = view cache file_storage cache-CacheLaws flags

abbrev pub holding : List (String × Item) → Option (List Call) → Repository cache file_storage
holding = cached cache file_storage cache-CacheLaws

abbrev pub verdict : ℤ → Run Bool
verdict v =
    outdated_by cache file_storage flags
      (answer cache file_storage cache-CacheLaws flags "dark_mode" (seen held "dark_mode"))
      (at_version v)

pub four_fresh : verdict (pos 4) ≡ ret false
unfolding cache-CacheLaws lookup format_flag_key
four_fresh = refl

pub five_fresh : verdict (pos 5) ≡ ret false
unfolding cache-CacheLaws lookup format_flag_key
five_fresh = refl

pub two_stale : verdict (pos 2) ≡ ret true
unfolding cache-CacheLaws lookup format_flag_key
two_stale = refl

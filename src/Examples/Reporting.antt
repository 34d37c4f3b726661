-- ===== src/Examples/Reporting.antt =====
-- Analytics on sample events.
use ff_golang_server_sdk.Common.{
  ◌+◌, String, ◌≡◌, refl, true, none, some, List, [], ◌∷◌, length, sum_by, Any,
}
use ff_golang_server_sdk.Common.Dict.{lookup, insert}
use ff_golang_server_sdk.Target.{Value}
use ff_golang_server_sdk.Analytics.{
  AnalyticsEvent, push_to_queue, get_event_summary_key, listener, collect_targets, target_data_of,
}
use ff_golang_server_sdk.Analytics.Counts.{
  entry_count, listener-count, listener-collision, Reports, collect_targets-Reports,
}
use ff_golang_server_sdk.Analytics.Turns.{
  Turn, event_arrives, timer_fires, take_turns, metrics_count, pending, arrived, take_turns-count,
}
use ff_golang_server_sdk.Analytics.Tally.{count_of, shown, tally, listener-tally}
use ff_golang_server_sdk.Analytics.{AnalyticsService}
use mathlib.Core.Quot
use ff_golang_server_sdk.Samples.{runtime, ann, bob}
use ff_golang_server_sdk.Samples.Flags.{flag, variation}

abbrev seen : String → String → AnalyticsEvent runtime
seen feature identifier =
    push_to_queue runtime (flag feature none) (some ann) (variation identifier "true")

-- Two evaluations of one flag, and one by an anonymous target.
abbrev three_events : List (AnalyticsEvent runtime)
three_events =
    seen "dark" "on"
    ∷ seen "dark" "on"
    ∷ push_to_queue runtime (flag "dark" none) (some bob) (variation "off" "false")
    ∷ []

abbrev sprint : Value runtime.Float → String
sprint v = "?"

listener-count_example :
    sum_by (entry_count {rt = runtime}) (listener runtime [] three_events)
    ≡ sum_by (entry_count {rt = runtime}) [] + length three_events
listener-count_example = listener-count runtime [] three_events

-- The last event comes behind the timer.
abbrev four_turns : List (Turn runtime)
four_turns =
    event_arrives (seen "dark" "on")
    ∷ event_arrives (seen "light" "on")
    ∷ timer_fires 8
    ∷ event_arrives (seen "dark" "on")
    ∷ []

abbrev started : AnalyticsService runtime
started = record { analytics_data = []; timeout = 60; metrics_client = true }

take_turns-count_example :
    sum_by (metrics_count runtime sprint) (take_turns runtime sprint four_turns started).0
      + pending runtime sprint (take_turns runtime sprint four_turns started).1
    ≡ pending runtime sprint started + sum_by (arrived runtime sprint) four_turns
take_turns-count_example = take_turns-count runtime sprint four_turns started refl

listener-tally_example :
    count_of runtime (lookup "dark-on-true-global" (listener runtime [] three_events))
    ≡ shown runtime (tally runtime "dark-on-true-global" (Quot.mk three_events))
listener-tally_example = listener-tally runtime three_events "dark-on-true-global"

twice : count_of runtime (lookup "dark-on-true-global" (listener runtime [] three_events)) ≡ some 2
unfolding listener push_to_queue lookup insert get_event_summary_key
twice = refl

listener-collision_example :
    listener runtime [] (seen "a-b" "c" ∷ seen "a" "b-c" ∷ [])
    ≡ (get_event_summary_key (seen "a-b" "c"), record (seen "a" "b-c") { count = 2 }) ∷ []
unfolding push_to_queue
listener-collision_example =
    listener-collision runtime (seen "a-b" "c") (seen "a" "b-c") "a" "b" "c" refl refl refl refl
      refl

abbrev summary : List (String × AnalyticsEvent runtime)
summary = ("k", seen "dark" "on") ∷ []

ann_sent :
    lookup "ann" (collect_targets runtime sprint summary [])
    ≡ some (target_data_of runtime sprint ann)
unfolding collect_targets lookup insert push_to_queue
ann_sent = refl

collect_targets-Reports_example : Any (λ entry. Reports runtime "ann" entry.1) summary
collect_targets-Reports_example =
    collect_targets-Reports runtime sprint "ann" (target_data_of runtime sprint ann) summary
      ann_sent

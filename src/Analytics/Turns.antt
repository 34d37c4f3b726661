-- ===== src/Analytics/Turns.antt =====
-- analyticsservice/analytics.go over time: the listener's goroutine and the timer's goroutine share the
-- summary under a mutex, so what they do is a list of turns.
use ff_golang_server_sdk.Common.{
  ℕ, ◌+◌, String, ◌≡◌, refl, ◌∙◌, true, Option, none, some, List, [], ◌∷◌, arith, sum_by,
}
use ff_golang_server_sdk.Go.{Runtime}
use ff_golang_server_sdk.Target.{Value}
use ff_golang_server_sdk.Analytics.{
  AnalyticsEvent, AnalyticsService, Metrics, listen, send_data_and_reset_cache,
}
use ff_golang_server_sdk.Analytics.Counts.{entry_count, posted_count, counts-payload, listen-count}

-- One turn at the summary: the listener takes an event from the channel, or the timer fires.
pub data Turn (rt : Runtime) : Type 0 where
  event_arrives : AnalyticsEvent rt → Turn rt
  timer_fires : (now : ℕ) → Turn rt

module _ (rt : Runtime) (sprint : Value rt.Float → String) where
  -- The body of the loops of `listener` and of `startTimer`: what is posted, and the service.
  unfoldable pub take_turn : Turn rt → AnalyticsService rt → Option Metrics × AnalyticsService rt
  unfolding listen send_data_and_reset_cache
  take_turn (event_arrives ad) service =
      (none, record service { analytics_data = listen rt service.analytics_data ad })
  take_turn (timer_fires now) service = send_data_and_reset_cache rt sprint now service

  abbrev post : Option Metrics → List Metrics → List Metrics
  post none posted = posted
  post (some body) posted = body ∷ posted

  -- The loops themselves, with the payloads that are posted.
  unfoldable pub take_turns :
      List (Turn rt) → AnalyticsService rt → List Metrics × AnalyticsService rt
  unfolding take_turn
  take_turns [] service = ([], service)
  take_turns (turn ∷ turns) service =
      let (body, service') = take_turn turn service in
      let (posted, last) = take_turns turns service' in (post body posted, last)

  abbrev pub arrived : Turn rt → ℕ
  arrived (event_arrives ad) = 1
  arrived (timer_fires now) = 0

  abbrev pub metrics_count : Metrics → ℕ
  metrics_count body = posted_count body.metrics_data

  abbrev pub pending : AnalyticsService rt → ℕ
  pending service = sum_by entry_count service.analytics_data

  send-count :
      (now : ℕ) (service : AnalyticsService rt) (m : List (String × AnalyticsEvent rt))
      → service.metrics_client ≡ true
      → sum_by metrics_count (
          post
            (send_data_and_reset_cache rt sprint now (record service { analytics_data = m })).0
            [])
        ≡ sum_by entry_count m
  unfolding send_data_and_reset_cache
  send-count now service [] h = rw h refl
  send-count now service (entry ∷ m) h = rw h (omega (arith, counts-payload rt now m))

  sum-post :
      (body : Option Metrics) (posted : List Metrics)
      → sum_by metrics_count (post body posted)
        ≡ sum_by metrics_count (post body []) + sum_by metrics_count posted
  sum-post none posted = omega arith
  sum-post (some body) posted = omega arith

  turn-count :
      (turn : Turn rt) (service : AnalyticsService rt)
      → service.metrics_client ≡ true
      → sum_by metrics_count (post (take_turn turn service).0 [])
          + pending (take_turn turn service).1
        ≡ pending service + arrived turn
  unfolding take_turn
  turn-count (event_arrives ad) service h = omega (arith, listen-count rt service.analytics_data ad)
  turn-count (timer_fires now) service h =
      omega (arith, send-count now service service.analytics_data h)

  metrics_client-turn :
      (turn : Turn rt) (service : AnalyticsService rt)
      → (take_turn turn service).1.metrics_client ≡ service.metrics_client
  unfolding take_turn
  metrics_client-turn (event_arrives ad) service = refl
  metrics_client-turn (timer_fires now) service = refl

  -- Once there is a metrics client, no turn loses an event or counts one twice: what is posted and what
  -- is still in the summary add up to what was in the summary and what has arrived since.
  pub take_turns-count :
      (turns : List (Turn rt)) (service : AnalyticsService rt)
      → service.metrics_client ≡ true
      → sum_by metrics_count (take_turns turns service).0 + pending (take_turns turns service).1
        ≡ pending service + sum_by arrived turns
  unfolding take_turns
  take_turns-count [] service h = omega arith
  take_turns-count (turn ∷ turns) service h = omega (
    arith,
    sum-post (take_turn turn service).0 (take_turns turns (take_turn turn service).1).0,
    turn-count turn service h,
    take_turns-count turns (take_turn turn service).1 (metrics_client-turn turn service ∙ h),
  )

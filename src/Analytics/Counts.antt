-- ===== src/Analytics/Counts.antt =====
-- analyticsservice/analytics.go: the counts and the targets of the payload, and events that share a
-- key.
use Prim.Native.String.{◌++◌}
use text.Mathlib.TextLemmas.{append_assoc}
use text.Mathlib.TextPositions.{eq_refl}
use ff_golang_server_sdk.Common.{
  ℕ, ◌+◌, String, ◌≡◌, refl, sym, ◌∙◌, Bool, true, false, Option, none, some, List, [], ◌∷◌, map,
  ◌==◌, eq_iff, arith, if◌then◌else◌, Bool-cases, inl, inr, length, sum_by, Any, ◌⊎◌,
}
use ff_golang_server_sdk.Common.Dict.{lookup, insert, lookup-insert}
use ff_golang_server_sdk.Go.{Runtime}
use ff_golang_server_sdk.Target.{Target, Value}
use ff_golang_server_sdk.Analytics.{
  AnalyticsEvent, MetricsData, TargetData, counted, get_event_summary_key, listen, listener,
  add_target, collect_targets, metrics_of, is_anonymous, target_data_of,
}

abbrev pub entry_count : {rt : Runtime} → String × AnalyticsEvent rt → ℕ
entry_count entry = entry.1.count

abbrev prior : {rt : Runtime} → Option (AnalyticsEvent rt) → ℕ
prior none = 0
prior (some e) = e.count

insert-count :
    (rt : Runtime) (key : String) (v : AnalyticsEvent rt) (m : List (String × AnalyticsEvent rt))
    → v.count ≡ prior (lookup key m) + 1
    → sum_by entry_count (insert key v m) ≡ sum_by entry_count m + 1
unfolding insert lookup
insert-count rt key v [] h = omega arith
insert-count rt key v ((j, e) ∷ m) h = by_test (j == key) h (insert-count rt key v m)
  where
    by_test :
        (b : Bool)
        → v.count ≡ prior (if b then some e else lookup key m) + 1
        → (v.count ≡ prior (lookup key m) + 1
            → sum_by entry_count (insert key v m) ≡ sum_by entry_count m + 1)
        → sum_by entry_count (if b then (key, v) ∷ m else (j, e) ∷ insert key v m)
          ≡ e.count + sum_by entry_count m + 1
    by_test true p ih = omega arith
    by_test false p ih = omega (arith, ih p)

counted-count :
    (rt : Runtime) (o : Option (AnalyticsEvent rt)) (ad : AnalyticsEvent rt)
    → (counted rt o ad).count ≡ prior o + 1
counted-count rt none ad = refl
counted-count rt (some e) ad = refl

pub listen-count :
    (rt : Runtime) (m : List (String × AnalyticsEvent rt)) (ad : AnalyticsEvent rt)
    → sum_by entry_count (listen rt m ad) ≡ sum_by entry_count m + 1
unfolding listen
listen-count rt m ad =
    let key = get_event_summary_key ad in
    insert-count rt key (counted rt (lookup key m) ad) m (counted-count rt (lookup key m) ad)

-- Running the listener on a list of events adds their number to the sum of the counts.
pub listener-count :
    (rt : Runtime) (m : List (String × AnalyticsEvent rt)) (events : List (AnalyticsEvent rt))
    → sum_by entry_count (listener rt m events) ≡ sum_by entry_count m + length events
unfolding listener
listener-count rt m [] = omega arith
listener-count rt m (ad ∷ events) =
    omega (arith, listener-count rt (listen rt m ad) events, listen-count rt m ad)

pub counts-payload :
    (rt : Runtime) (now : ℕ) (m : List (String × AnalyticsEvent rt))
    → sum_by (λ (d : MetricsData). d.count) (map (λ entry. metrics_of rt now entry.1) m)
      ≡ sum_by entry_count m
unfolding metrics_of
counts-payload rt now [] = refl
counts-payload rt now (entry ∷ m) = omega (arith, counts-payload rt now m)

abbrev pub posted_count : Option (List MetricsData) → ℕ
posted_count none = 0
posted_count (some metrics) = sum_by (λ (d : MetricsData). d.count) metrics

key-collision :
    (rt : Runtime) (e f : AnalyticsEvent rt) (a b c : String)
    → e.feature_config.feature ≡ a ++ "-" ++ b
    → e.variation.identifier ≡ c
    → f.feature_config.feature ≡ a
    → f.variation.identifier ≡ b ++ "-" ++ c
    → e.variation.value ≡ f.variation.value
    → get_event_summary_key e ≡ get_event_summary_key f
unfolding get_event_summary_key
key-collision rt e f a b c e₁ e₂ f₁ f₂ same = simp (e₁, e₂, f₁, f₂, same, append_assoc)

-- Two variations of two flags are counted as one where a dash moves between the flag's identifier and the
-- variation's: the summary keeps one entry, with both counts, under the later event.
pub listener-collision :
    (rt : Runtime) (e f : AnalyticsEvent rt) (a b c : String)
    → e.feature_config.feature ≡ a ++ "-" ++ b
    → e.variation.identifier ≡ c
    → f.feature_config.feature ≡ a
    → f.variation.identifier ≡ b ++ "-" ++ c
    → e.variation.value ≡ f.variation.value
    → listener rt [] (e ∷ f ∷ []) ≡ (get_event_summary_key e, record f { count = 2 }) ∷ []
unfolding listener listen insert lookup
listener-collision rt e f a b c e₁ e₂ f₁ f₂ same =
    rw (key-collision rt e f a b c e₁ e₂ f₁ f₂ same) (rw (eq_refl (get_event_summary_key f)))

-- A target is reported under `k` by an event.
pub record Reports (rt : Runtime) (k : String) (e : AnalyticsEvent rt) : Type 0 where
  pub target : Target rt.Float
  pub present : e.target ≡ some target
  pub named : is_anonymous target.anonymous ≡ false
  pub identified : target.identifier ≡ k

collect_targets-source :
    (rt : Runtime) (sprint : Value rt.Float → String) (k : String) (d : TargetData)
    (m : List (String × AnalyticsEvent rt)) (targets : List (String × TargetData))
    → lookup k (collect_targets rt sprint m targets) ≡ some d
    → Any (λ entry. Reports rt k entry.1) m ⊎ (lookup k targets ≡ some d)
unfolding collect_targets
collect_targets-source rt sprint k d [] targets h = inr h
collect_targets-source rt sprint k d ((key, e) ∷ m) targets h =
    elim (collect_targets-source rt sprint k d m (add_target rt sprint e.target targets) h) [
      | inl later ↦ inl (inr later)
      | inr here ↦ by_target e.target refl here
    ]
  where
    by_anonymous :
        (t : Target rt.Float) (b : Bool)
        → e.target ≡ some t
        → is_anonymous t.anonymous ≡ b
        → lookup k (if b then targets else insert t.identifier (target_data_of rt sprint t) targets)
          ≡ some d
        → Any (λ entry. Reports rt k entry.1) ((key, e) ∷ m) ⊎ (lookup k targets ≡ some d)
    by_anonymous t true p q r = inr r
    by_anonymous t false p q r = elim (Bool-cases (t.identifier == k)) [
      | inl same ↦ inl (
          inl (record {
            target = t;
            present = p;
            named = q;
            identified = (eq_iff t.identifier k).0 same;
          }))
      | inr other ↦ inr (
          sym (rw other refl)
          ∙ sym (lookup-insert t.identifier k (target_data_of rt sprint t) targets)
          ∙ r)
    ]

    by_target :
        (o : Option (Target rt.Float))
        → e.target ≡ o
        → lookup k (add_target rt sprint o targets) ≡ some d
        → Any (λ entry. Reports rt k entry.1) ((key, e) ∷ m) ⊎ (lookup k targets ≡ some d)
    by_target none p q = inr q
    by_target (some t) p q = by_anonymous t (is_anonymous t.anonymous) p refl q

-- Target data is sent only under the identifiers of targets that an event has and that are not anonymous.
pub collect_targets-Reports :
    (rt : Runtime) (sprint : Value rt.Float → String) (k : String) (d : TargetData)
    (m : List (String × AnalyticsEvent rt))
    → lookup k (collect_targets rt sprint m []) ≡ some d
    → Any (λ entry. Reports rt k entry.1) m
unfolding lookup
collect_targets-Reports rt sprint k d m h = elim (collect_targets-source rt sprint k d m [] h) [
  | inl reported ↦ reported
  | inr blank ↦ cc blank
]

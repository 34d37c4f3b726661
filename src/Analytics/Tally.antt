-- ===== src/Analytics/Tally.antt =====
-- analyticsservice/analytics.go, as a count per key of the events that have arrived. Goroutines push to
-- one channel, so the order of arrival is not fixed: the abstract view is a quotient that forgets it.
use mathlib.Core.List.{Permᴰ}
use mathlib.Core.Quot
use mathlib.Core.Quot.{Quot}
use ff_golang_server_sdk.Common.{
  ℕ, ◌+◌, String, ◌≡◌, refl, ap, ◌∙◌, Option, none, some, List, [], ◌∷◌, ◌==◌, eq_iff, ltb, arith,
  if◌then◌else◌, sum_by, Bool-cases, inl, inr,
}
use ff_golang_server_sdk.Common.Dict.{lookup, lookup-insert}
use ff_golang_server_sdk.Go.{Runtime}
use ff_golang_server_sdk.Analytics.{
  AnalyticsEvent, counted, get_event_summary_key, listen, listener,
}

module _ (rt : Runtime) where
  abbrev pub occurs : String → AnalyticsEvent rt → ℕ
  occurs k event = if get_event_summary_key event == k then 1 else 0

  -- Events that have arrived, in an order that is forgotten.
  abbrev pub Arrivals : Type 0
  Arrivals = Quot (Permᴰ {A = AnalyticsEvent rt})

  pub occurs-perm :
      (k : String) {xs ys : List (AnalyticsEvent rt)}
      → Permᴰ xs ys
      → sum_by (occurs k) xs ≡ sum_by (occurs k) ys
  occurs-perm k Permᴰ.nil = refl
  occurs-perm k (Permᴰ.cons e p) = omega (arith, ap (occurs k) e, occurs-perm k p)
  occurs-perm k (Permᴰ.swap e f) = omega (arith, ap (occurs k) e, ap (occurs k) f)
  occurs-perm k (Permᴰ.trans p q) = occurs-perm k p ∙ occurs-perm k q

  -- How many of the events have a key.
  unfoldable pub tally : String → Arrivals → ℕ
  tally k = Quot.lift (hlevel) (sum_by (occurs k)) λ xs ys p. occurs-perm k p

  abbrev pub shown : ℕ → Option ℕ
  shown n = if ltb 0 n then some n else none

  -- The count that the summary has under a key.
  abbrev pub count_of : Option (AnalyticsEvent rt) → Option ℕ
  count_of none = none
  count_of (some e) = some e.count

  counted-shown :
      (n : ℕ) (o : Option (AnalyticsEvent rt)) (ad : AnalyticsEvent rt)
      → count_of o ≡ shown n
      → count_of (some (counted rt o ad)) ≡ shown (n + 1)
  counted-shown n none ad h = ground (h, arith)
  counted-shown n (some e) ad h = ground (h, arith)

  count_of-listen :
      (k : String) (n : ℕ) (m : List (String × AnalyticsEvent rt)) (ad : AnalyticsEvent rt)
      → count_of (lookup k m) ≡ shown n
      → count_of (lookup k (listen rt m ad)) ≡ shown (n + occurs k ad)
  unfolding listen
  count_of-listen k n m ad h =
      let key = get_event_summary_key ad in
      rw (lookup-insert key k (counted rt (lookup key m) ad) m) (elim (Bool-cases (key == k)) [
        | inl e ↦ rw e (
            counted-shown n (lookup key m) ad
              (ap (λ j. count_of (lookup j m)) ((eq_iff key k).0 e) ∙ h))
        | inr e ↦ rw e (h ∙ ap shown (omega arith))
      ])

  count_of-listener :
      (k : String) (n : ℕ) (m : List (String × AnalyticsEvent rt))
      (events : List (AnalyticsEvent rt))
      → count_of (lookup k m) ≡ shown n
      → count_of (lookup k (listener rt m events)) ≡ shown (n + sum_by (occurs k) events)
  unfolding listener
  count_of-listener k n m [] h = h ∙ ap shown (omega arith)
  count_of-listener k n m (ad ∷ events) h =
      count_of-listener k (n + occurs k ad) (listen rt m ad) events (count_of-listen k n m ad h)
      ∙ ap shown (omega arith)

  -- The listener's summary has an entry under the keys of the events that have arrived and no other, with
  -- the number of events of that key, whatever order they arrived in.
  pub listener-tally :
      (events : List (AnalyticsEvent rt)) (k : String)
      → count_of (lookup k (listener rt [] events)) ≡ shown (tally k (Quot.mk events))
  unfolding tally lookup
  listener-tally events k = count_of-listener k 0 [] events refl ∙ ap shown (omega arith)

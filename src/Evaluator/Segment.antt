-- ===== src/Evaluator/Segment.antt =====
-- `isTargetIncludedOrExcludedInSegment` of evaluation/evaluator.go and `isTargetInList` of
-- evaluation/util.go. A segment's rules may name segments: the fuel bounds how deep.
pub mod Membership
pub mod Nesting
use ff_golang_server_sdk.Common.{
  ℕ, zero, suc, String, Bool, true, false, Option, none, some, List, [], ◌∷◌, ◌==◌, if◌then◌else◌,
}
use ff_golang_server_sdk.Common.Run.{Run, ret, panic, no_fuel, ◌>>=◌, Result, ok, err}
use ff_golang_server_sdk.Go.{Runtime}
use ff_golang_server_sdk.Rest
use ff_golang_server_sdk.Rest.{Clause}
use ff_golang_server_sdk.Target.{Target}
use ff_golang_server_sdk.Errors.{Error}
use ff_golang_server_sdk.Evaluator.{Query}
use ff_golang_server_sdk.Evaluator.Clause.{Included, evaluate_clauses}

unfoldable pub identifier_in : String → List Rest.Target → Bool
identifier_in identifier [] = false
identifier_in identifier (t ∷ targets) =
    if t.identifier == identifier then true else identifier_in identifier targets

-- `segment.Excluded != nil && isTargetInList(target, *segment.Excluded)`, and so for `Included`
unfoldable pub is_target_in_list :
    {F : Type 0} → Option (Target F) → Option (List Rest.Target) → Bool
unfolding identifier_in
is_target_in_list none targets = false
is_target_in_list (some t) none = false
is_target_in_list (some t) (some targets) = identifier_in t.identifier targets

module _ (rt : Runtime) where
  -- The debug message after the rules reads `target.Name`: a nil target panics there.
  abbrev log_name : Option (Target rt.Float) → Run Bool
  log_name none = panic
  log_name (some t) = ret true

  abbrev pub segment_rules :
      Included rt → Option (List Clause) → Option (Target rt.Float) → Run Bool
  segment_rules inner none target = ret false
  segment_rules inner (some rules) target = evaluate_clauses rt inner rules target

  -- One round of the loop, with the segment at hand; `rest` is the loop over the segments behind it.
  unfoldable pub visit_segment :
      Included rt → Rest.Segment → Option (Target rt.Float) → Run Bool → Run Bool
  visit_segment inner segment target rest =
      if is_target_in_list target segment.excluded
      then ret false
      else if is_target_in_list target segment.included
      then ret true
      else (segment_rules inner segment.rules target >>= λ matched.
          if matched then log_name target else rest)

  abbrev visit_found :
      Included rt → Result Error Rest.Segment → Option (Target rt.Float) → Run Bool → Run Bool
  visit_found inner (err e) target rest = ret false
  visit_found inner (ok segment) target rest = visit_segment inner segment target rest

  -- A nil query panics at the call.
  abbrev visit_identifier :
      Option Query → Included rt → String → Option (Target rt.Float) → Run Bool → Run Bool
  visit_identifier none inner identifier target rest = panic
  visit_identifier (some q) inner identifier target rest =
      visit_found inner (q.get_segment identifier) target rest

  unfoldable pub segments_loop :
      Option Query → Included rt → List String → Option (Target rt.Float) → Run Bool
  unfolding visit_segment
  segments_loop query inner [] target = ret false
  segments_loop query inner (identifier ∷ identifiers) target =
      let rest = segments_loop query inner identifiers target in
      visit_identifier query inner identifier target rest

  -- `isTargetIncludedOrExcludedInSegment`
  unfoldable pub is_target_included_or_excluded_in_segment : ℕ → Option Query → Included rt
  is_target_included_or_excluded_in_segment zero query identifiers target = no_fuel
  is_target_included_or_excluded_in_segment (suc fuel) query identifiers target =
      segments_loop query (is_target_included_or_excluded_in_segment fuel query) identifiers target

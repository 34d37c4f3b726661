-- ===== src/Feature/Flag.antt =====
-- `GetSegmentIdentifiers`, `GetKind` and `FeatureConfig.GetVariationName` of evaluation/feature.go.
use ff_golang_server_sdk.Common.{
  String, ◌||◌, Option, none, some, List, [], ◌∷◌, ◌++◌, ◌==◌, if◌then◌else◌,
}
use ff_golang_server_sdk.Common.Run.{Run, ret, ◌>>=◌}
use ff_golang_server_sdk.Go.{Runtime}
use ff_golang_server_sdk.Target.{Target}
use ff_golang_server_sdk.Evaluator.{segment_match_operator}
use ff_golang_server_sdk.Feature.{
  Clause, ServingRule, VariationMap, Variation, FeatureConfig, Segments, feature_state_off,
}
use ff_golang_server_sdk.Feature.SegmentRules.{
  contains_sensitive, in_segments, some_segment, evaluate_segment,
}
use ff_golang_server_sdk.Feature.Rules.{rules_variation_name}

-- `reflect.Kind`, as far as flags have it
pub data Kind : Type 0 where
  bool string int float64 map invalid : Kind

-- `GetKind`
unfoldable pub get_kind : FeatureConfig → Kind
get_kind fc =
    if fc.kind == "boolean"
    then Kind.bool
    else if fc.kind == "string"
    then Kind.string
    else if fc.kind == "int" || fc.kind == "integer"
    then Kind.int
    else if fc.kind == "number"
    then Kind.float64
    else if fc.kind == "json"
    then Kind.map
    else Kind.invalid

-- `FindByIdentifier`
unfoldable pub find_by_identifier : List Variation → String → Option Variation
find_by_identifier [] identifier = none
find_by_identifier (val ∷ v) identifier =
    if val.identifier == identifier then some val else find_by_identifier v identifier

-- The loops of `GetSegmentIdentifiers`
unfoldable pub clause_segments : List Clause → List String
clause_segments [] = []
clause_segments (clause ∷ clauses) =
    let rest = clause_segments clauses in
    if clause.op == segment_match_operator then clause.value ++ rest else rest

unfoldable pub rule_segments : List ServingRule → List String
unfolding clause_segments
rule_segments [] = []
rule_segments (rule ∷ rules) = clause_segments rule.clauses ++ rule_segments rules

unfoldable pub map_segments : List VariationMap → List String
map_segments [] = []
map_segments (m ∷ maps) = m.target_segments ++ map_segments maps

-- `GetSegmentIdentifiers`
unfoldable pub get_segment_identifiers : FeatureConfig → List String
unfolding rule_segments map_segments
get_segment_identifiers fc = rule_segments fc.rules ++ map_segments fc.variation_to_target_map

module _ (rt : Runtime) where
  -- The loop over the map of variations; `rest` is what follows it.
  unfoldable pub maps_loop :
      List VariationMap → Target rt.Float → Segments → Run String → Run String
  unfolding contains_sensitive some_segment evaluate_segment
  maps_loop [] target segments rest = rest
  maps_loop (m ∷ maps) target segments rest =
      let more = maps_loop maps target segments rest in
      if contains_sensitive m.targets target.identifier
      then ret m.variation
      else (in_segments (evaluate_segment rt target) segments m.target_segments >>= λ member.
          if member then ret m.variation else more)

  abbrev from_maps : FeatureConfig → Option (Target rt.Float) → Run String → Run String
  from_maps fc none rest = rest
  from_maps fc (some t) rest = maps_loop fc.variation_to_target_map t fc.segments rest

  -- `FeatureConfig.GetVariationName`
  unfoldable pub get_variation_name : FeatureConfig → Option (Target rt.Float) → Run String
  unfolding maps_loop rules_variation_name
  get_variation_name fc target =
      let rest = rules_variation_name rt fc.rules target fc.segments fc.default_serve in
      if fc.state == feature_state_off then ret fc.off_variation else from_maps fc target rest

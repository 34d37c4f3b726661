-- ===== src/Evaluator.antt =====
-- evaluation/evaluator.go: the evaluator, the interfaces that it uses, and its constants. The children
-- follow the calls: Clause, Segment, Rules, Flag, Prerequisite, Variation.
pub mod Clause
pub mod Segment
pub mod Rules
pub mod Flag
pub mod Prerequisite
pub mod Variation
use ff_golang_server_sdk.Common.{String, Option, none, some}
use ff_golang_server_sdk.Common.Run.{Result, ok, err}
use ff_golang_server_sdk.Go.{Runtime}
use ff_golang_server_sdk.Errors.{Error, query_provider_missing}
use ff_golang_server_sdk.Rest
use ff_golang_server_sdk.Target.{Target}

abbrev pub segment_match_operator : String
segment_match_operator = "segmentMatch"

abbrev pub match_operator : String
match_operator = "match"

abbrev pub in_operator : String
in_operator = "in"

abbrev pub equal_operator : String
equal_operator = "equal"

abbrev pub gt_operator : String
gt_operator = "gt"

abbrev pub starts_with_operator : String
starts_with_operator = "starts_with"

abbrev pub ends_with_operator : String
ends_with_operator = "ends_with"

abbrev pub contains_operator : String
contains_operator = "contains"

abbrev pub equal_sensitive_operator : String
equal_sensitive_operator = "equal_sensitive"

pub record Query : Type 0 where
  pub get_segment : String → Result Error Rest.Segment
  pub get_flag : String → Result Error Rest.FeatureConfig

pub record PostEvalData (rt : Runtime) : Type 0 where
  pub feature_config : Rest.FeatureConfig
  pub target : Option (Target rt.Float)
  pub variation : Rest.Variation

-- `none` is a nil interface. A callback acts on a state `W` outside of the evaluator.
pub record Evaluator (rt : Runtime) (W : Type 0) : Type 0 where
  pub query : Option Query
  pub post_eval_callback : Option (PostEvalData rt → W → W)

-- `NewEvaluator`
unfoldable pub new_evaluator :
    {rt : Runtime} {W : Type 0}
    → Option Query
    → Option (PostEvalData rt → W → W)
    → Result Error (Evaluator rt W)
new_evaluator none callback = err query_provider_missing
new_evaluator (some q) callback = ok (record { query = some q; post_eval_callback = callback })

-- ===== src/Feature.antt =====
-- evaluation/feature.go, evaluation/segment.go and `GetOperator` of evaluation/target.go: an older
-- evaluation, on data of its own. A nil map or slice is the empty one where the code cannot tell.
pub mod Operator
pub mod SegmentRules
pub mod Rules
pub mod Flag
pub mod Prereqs
pub mod Variations
pub mod Rollouts
pub mod Clauses
pub mod Membership
pub mod Agreement
pub mod Satisfied
pub mod Range
use ff_golang_server_sdk.Common.{String, Bool, Option, none, some, List}
use ff_golang_server_sdk.Common.Int.{ℤ}

pub record Clause : Type 0 where
  pub attribute : String
  pub id : String
  pub negate : Bool
  pub op : String
  pub value : List String

pub record WeightedVariation : Type 0 where
  pub variation : String
  pub weight : ℤ

pub record Distribution : Type 0 where
  pub bucket_by : String
  pub variations : List WeightedVariation

pub record Serve : Type 0 where
  pub distribution : Option Distribution
  pub variation : Option String

pub record ServingRule : Type 0 where
  pub clauses : List Clause
  pub priority : ℤ
  pub rule_id : String
  pub serve : Serve

pub record Prerequisite : Type 0 where
  pub feature : String
  pub variations : List String

pub record Tag : Type 0 where
  pub name : String
  pub value : Option String

pub record Variation : Type 0 where
  pub description : Option String
  pub identifier : String
  pub name : Option String
  pub value : String

pub record VariationMap : Type 0 where
  pub target_segments : List String
  pub targets : List String
  pub variation : String

pub record Segment : Type 0 where
  pub identifier : String
  pub name : String
  pub created_at : Option ℤ
  pub modified_at : Option ℤ
  pub environment : Option String
  pub excluded : List String
  pub included : List String
  pub rules : List Clause
  pub tags : List Tag
  pub version : ℤ

-- `Segments`, a map from identifiers; `none` is the nil map
abbrev pub Segments : Type 0
Segments = Option (List (String × Segment))

pub record FeatureConfig : Type 0 where
  pub default_serve : Serve
  pub environment : String
  pub feature : String
  pub kind : String
  pub off_variation : String
  pub prerequisites : List Prerequisite
  pub project : String
  pub rules : List ServingRule
  pub state : String
  pub variation_to_target_map : List VariationMap
  pub variations : List Variation
  pub segments : Segments

pub record Evaluation : Type 0 where
  pub flag : String
  pub variation : Variation

-- `FeatureStateOff`
abbrev pub feature_state_off : String
feature_state_off = "off"

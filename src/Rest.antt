-- ===== src/Rest.antt =====
-- rest/types.gen.go: the data that the feature flag service sends. A pointer is an `Option`, an `int`
-- and an `int64` are a `ℤ`, a named string type is its `String`. Of `Target` the attributes and the
-- segments are left out: the SDK never reads them.
use ff_golang_server_sdk.Common.{String, Bool, Option, List}
use ff_golang_server_sdk.Common.Int.{ℤ}
use ff_golang_server_sdk.Target.{Value}

pub record Clause : Type 0 where
  pub attribute : String
  pub id : String
  pub negate : Bool
  pub op : String
  pub values : List String

pub record WeightedVariation : Type 0 where
  pub variation : String
  pub weight : ℤ

pub record Distribution : Type 0 where
  pub bucket_by : String
  pub variations : List WeightedVariation

pub record Serve : Type 0 where
  pub distribution : Option Distribution
  pub variation : Option String

pub record ServingRule : Type 0 where
  pub clauses : List Clause
  pub priority : ℤ
  pub rule_id : String
  pub serve : Serve

pub record Prerequisite : Type 0 where
  pub feature : String
  pub variations : List String

pub record Tag : Type 0 where
  pub name : String
  pub value : Option String

pub record Target : Type 0 where
  pub account : String
  pub anonymous : Option Bool
  pub created_at : Option ℤ
  pub environment : String
  pub identifier : String
  pub name : String
  pub org : String
  pub project : String

pub record TargetMap : Type 0 where
  pub identifier : Option String
  pub name : String

pub record Variation : Type 0 where
  pub description : Option String
  pub identifier : String
  pub name : Option String
  pub value : String

pub record VariationMap : Type 0 where
  pub target_segments : Option (List String)
  pub targets : Option (List TargetMap)
  pub variation : String

pub record Segment : Type 0 where
  pub created_at : Option ℤ
  pub environment : Option String
  pub excluded : Option (List Target)
  pub identifier : String
  pub included : Option (List Target)
  pub modified_at : Option ℤ
  pub name : String
  pub rules : Option (List Clause)
  pub tags : Option (List Tag)
  pub version : Option ℤ

pub record FeatureConfig : Type 0 where
  pub default_serve : Serve
  pub environment : String
  pub feature : String
  pub kind : String
  pub off_variation : String
  pub prerequisites : Option (List Prerequisite)
  pub project : String
  pub rules : Option (List ServingRule)
  pub state : String
  pub variation_to_target_map : Option (List VariationMap)
  pub variations : List Variation
  pub version : Option ℤ

-- `FeatureStateOff` and `FeatureStateOn`
abbrev pub feature_state_off : String
feature_state_off = "off"

abbrev pub feature_state_on : String
feature_state_on = "on"

-- The struct `Target` of `AuthenticationRequest`
pub record AuthenticationTarget (F : Type 0) : Type 0 where
  pub anonymous : Option Bool
  pub attributes : Option (List (String × Value F))
  pub identifier : String
  pub name : Option String

pub record AuthenticationRequest (F : Type 0) : Type 0 where
  pub api_key : String
  pub target : Option (AuthenticationTarget F)

pub record AuthenticationResponse : Type 0 where
  pub auth_token : String

-- The struct `Error` of rest and of metricsclient
pub record ServiceError : Type 0 where
  pub code : String
  pub message : String

pub record Evaluation : Type 0 where
  pub flag : String
  pub identifier : Option String
  pub kind : String
  pub value : String

pub record Pagination : Type 0 where
  pub item_count : ℤ
  pub page_count : ℤ
  pub page_index : ℤ
  pub page_size : ℤ
  pub version : Option ℤ

pub record StreamParams : Type 0 where
  pub api_key : String

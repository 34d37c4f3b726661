-- ===== src/Samples/Flags.antt =====
-- Flags and segments for the tests: the flag `dark_mode` needs `base`, and the segment `staff` names the
-- segment `beta`.
use mathlib.Core.Path.{subst}
use ff_golang_server_sdk.Common.{
  ℕ, String, ◌≡◌, ap, Bool, true, false, Option, none, some, List, [], ◌∷◌, ◌==◌, if◌then◌else◌,
  arith,
}
use ff_golang_server_sdk.Common.Int.{pos}
use ff_golang_server_sdk.Common.Run.{Result, ok, err}
use ff_golang_server_sdk.Errors.{Error, segment_not_found, feature_config_not_found}
use ff_golang_server_sdk.Rest
use ff_golang_server_sdk.Rest.{Clause, Prerequisite, FeatureConfig, Serve, Variation}
use ff_golang_server_sdk.Evaluator.{Query}
use ff_golang_server_sdk.Evaluator.Segment.Nesting.{NamesBelow, IsRanked}
use ff_golang_server_sdk.Evaluator.Prerequisite.Total.{IsSound, NeedsBelow}
use ff_golang_server_sdk.Evaluator.Flag.Total.{IsWellFormed}

abbrev entry : String → Rest.Target
entry identifier = record {
  account = "";
  anonymous = none;
  created_at = none;
  environment = "prod";
  identifier = identifier;
  name = identifier;
  org = "";
  project = "";
}

abbrev pub segment : String → Option (List Rest.Target) → Option (List Clause) → Rest.Segment
segment identifier included rules = record {
  created_at = none;
  environment = none;
  excluded = none;
  identifier = identifier;
  included = included;
  modified_at = none;
  name = identifier;
  rules = rules;
  tags = none;
  version = some (pos 1);
}

abbrev pub beta : Rest.Segment
beta = segment "beta" (some (entry "ann" ∷ [])) none

abbrev pub names : String → Clause
names identifier = record {
  attribute = "";
  id = "";
  negate = false;
  op = "segmentMatch";
  values = identifier ∷ [];
}

abbrev pub staff : Rest.Segment
staff = segment "staff" none (some (names "beta" ∷ []))

-- A segment that names itself.
abbrev pub loop : Rest.Segment
loop = segment "loop" none (some (names "loop" ∷ []))

abbrev serve : Option String → Serve
serve variation = record { distribution = none; variation = variation }

abbrev pub variation : String → String → Variation
variation identifier value = record {
  description = none;
  identifier = identifier;
  name = none;
  value = value;
}

abbrev pub flag : String → Option (List Prerequisite) → FeatureConfig
flag feature prerequisites = record {
  default_serve = serve (some "off");
  environment = "prod";
  feature = feature;
  kind = "boolean";
  off_variation = "off";
  prerequisites = prerequisites;
  project = "web";
  rules = some (
      record {
        clauses = names "staff" ∷ [];
        priority = pos 1;
        rule_id = "r";
        serve = serve (some "on");
      }
      ∷ []);
  state = "on";
  variation_to_target_map = none;
  variations = variation "on" "true" ∷ variation "off" "false" ∷ [];
  version = some (pos 3);
}

abbrev pub needs : String → Prerequisite
needs feature = record { feature = feature; variations = "on" ∷ [] }

abbrev pub base : FeatureConfig
base = flag "base" none

abbrev pub dark_mode : FeatureConfig
dark_mode = flag "dark_mode" (some (needs "base" ∷ []))

abbrev segment_at : Bool → Bool → String → Result Error Rest.Segment
segment_at true is_staff id = ok beta
segment_at false true id = ok staff
segment_at false false id = err (segment_not_found id)

abbrev flag_at : Bool → Bool → String → Result Error FeatureConfig
flag_at true is_dark_mode id = ok base
flag_at false true id = ok dark_mode
flag_at false false id = err (feature_config_not_found id)

abbrev pub query : Query
query = record {
  get_segment = λ id. segment_at (id == "beta") (id == "staff") id;
  get_flag = λ id. flag_at (id == "base") (id == "dark_mode") id;
}

abbrev pub rank : String → ℕ
rank id = if id == "staff" then 1 else 0

abbrev pub need : String → ℕ
need id = if id == "dark_mode" then 1 else 0

pub query-IsRanked : IsRanked query rank
query-IsRanked = record { below = λ id s. by_tests id s (id == "beta") (id == "staff") }
  where
    by_tests :
        (id : String) (s : Rest.Segment) (b d : Bool) (clauses : List Clause)
        → segment_at b d id ≡ ok s
        → s.rules ≡ some clauses
        → NamesBelow rank (if d then 1 else 0) clauses
    by_tests id s true d clauses found rules =
        let same : beta ≡ s = cc found in
        let blank : none ≡ s.rules = ap (λ (x : Rest.Segment). x.rules) same in cc (blank, rules)
    by_tests id s false true clauses found rules =
        let same : staff ≡ s = cc found in
        let listed : some (names "beta" ∷ []) ≡ s.rules = ap (λ (x : Rest.Segment). x.rules) same in
        let listed' : names "beta" ∷ [] ≡ clauses = cc (listed, rules) in
        subst (NamesBelow rank 1) listed' ((λ op. (omega arith, tt)), tt)
    by_tests id s false false clauses found rules = cc found

pub flag-IsWellFormed :
    (feature : String) (prerequisites : Option (List Prerequisite))
    → IsWellFormed rank 2 (flag feature prerequisites)
flag-IsWellFormed feature prerequisites = record {
  maps = tt;
  rules = (((λ op. (omega arith, tt)), tt), tt);
}

pub query-IsSound : IsSound query rank need 1
query-IsSound = record {
  segments = query-IsRanked;
  flags = λ id fc. flags_by id fc (id == "base") (id == "dark_mode");
  needs = λ id fc. needs_by id fc (id == "base") (id == "dark_mode");
}
  where
    flags_by :
        (id : String) (fc : FeatureConfig) (b d : Bool)
        → flag_at b d id ≡ ok fc
        → IsWellFormed rank 2 fc
    flags_by id fc true d found =
        let same : base ≡ fc = cc found in
        subst (IsWellFormed rank 2) same (flag-IsWellFormed "base" none)
    flags_by id fc false true found =
        let same : dark_mode ≡ fc = cc found in
        subst (IsWellFormed rank 2) same (flag-IsWellFormed "dark_mode" (some (needs "base" ∷ [])))
    flags_by id fc false false found = cc found

    needs_by :
        (id : String) (fc : FeatureConfig) (b d : Bool)
        → flag_at b d id ≡ ok fc
        → NeedsBelow need (if d then 1 else 0) fc.prerequisites
    needs_by id fc true d found =
        let same : base ≡ fc = cc found in
        subst (λ (x : FeatureConfig). NeedsBelow need (if d then 1 else 0) x.prerequisites) same tt
    needs_by id fc false true found =
        let same : dark_mode ≡ fc = cc found in
        subst (λ (x : FeatureConfig). NeedsBelow need 1 x.prerequisites) same (omega arith, tt)
    needs_by id fc false false found = cc found

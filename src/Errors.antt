-- ===== src/Errors.antt =====
-- The sentinel errors of evaluation/errors.go and pkg/repository/errors.go, with the texts that
-- `fmt.Errorf` adds to them.
use ff_golang_server_sdk.Common.{String}

pub data Error : Type 0 where
  query_provider_missing : Error
  variation_not_found : (identifier : String) → Error
  evaluation_flag : (feature : String) → Error
  flag_kind_mismatch : (expected got : String) → Error
  feature_config_not_found : (identifier : String) → Error
  segment_not_found : (identifier : String) → Error

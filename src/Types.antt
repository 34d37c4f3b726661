-- ===== src/Types.antt =====
-- types/value.go and the types of the package types: the operators on attribute values that the older
-- evaluation uses.
pub mod Boolean
pub mod Integer
pub mod Number
pub mod Text
pub mod Slice
use ff_golang_server_sdk.Common.{String, Bool, List}

-- The interface `ValueType`
pub record ValueType : Type 0 where
  pub starts_with : List String → Bool
  pub ends_with : List String → Bool
  pub match : List String → Bool
  pub contains : List String → Bool
  pub equal_sensitive : List String → Bool
  pub equal : List String → Bool
  pub greater_than : List String → Bool
  pub greater_than_equal : List String → Bool
  pub less_than : List String → Bool
  pub less_than_equal : List String → Bool
  pub in_values : List String → Bool

-- ===== src/Samples.antt =====
-- A runtime, targets and flags for the tests. The runtime's hash is a small stand-in for murmur3, and its
-- floats are whole numbers.
pub mod Flags
pub mod Stores
pub mod Service
pub mod Held
use Prim.Native.Nat.{◌*◌}
use ff_golang_server_sdk.Common.{
  ℕ, ◌+◌, ◌%◌, ◌^◌, String, false, true, none, some, List, [], ◌∷◌, ltb, eqb, ◌==◌,
}
use ff_golang_server_sdk.Common.Int.{pos}
use ff_golang_server_sdk.Go.{Runtime}
use ff_golang_server_sdk.Go.Text.{codes}
use ff_golang_server_sdk.Rest.{Distribution}
use ff_golang_server_sdk.Target.{Target, string_value, int_value, int}

abbrev hash_codes : ℕ → List ℕ → ℕ
hash_codes acc [] = acc
hash_codes acc (c ∷ cs) = hash_codes ((acc * 31 + c) % 2 ^ 32) cs

abbrev pub runtime : Runtime
runtime = record {
  Float = ℕ;
  float_eq = eqb;
  float_lt = ltb;
  parse_float = λ s. none;
  parse_float_value = λ s. 0;
  Json = String;
  unmarshal = λ s. some s;
  match_string = λ pattern s. some (pattern == s);
  murmur3 = λ s. hash_codes 7 (codes s);
  unicode_to_lower = λ c. c;
  unicode_same_fold = λ a b. false;
}

abbrev pub ann : Target runtime.Float
ann = record {
  identifier = "ann";
  name = "Ann";
  anonymous = none;
  attributes =
      some (("email", string_value "ann@harness.io") ∷ ("age", int_value int (pos 33)) ∷ []);
}

abbrev pub bob : Target runtime.Float
bob = record {
  identifier = "bob";
  name = "Bob";
  anonymous = some true;
  attributes = some (("age", int_value int (pos 41)) ∷ []);
}

abbrev pub rollout : String → Distribution
rollout bucket_by = record {
  bucket_by = bucket_by;
  variations =
      record { variation = "dark"; weight = pos 30 }
      ∷ record { variation = "light"; weight = pos 70 }
      ∷ [];
}

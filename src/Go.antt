-- ===== src/Go.antt =====
-- What the SDK takes from outside of the repository: murmur3 (github.com/spaolacci/murmur3), and the
-- parts of Go's library that the model does not spell out (regexp, json, floats, the Unicode tables).
pub mod Text
pub mod Number
use ff_golang_server_sdk.Common.{ℕ, String, Bool, Option}

pub record Runtime : Type 1 where
  -- `float64`, and the comparisons `==` and `<`
  pub Float : Type 0
  pub float_eq : Float → Float → Bool
  pub float_lt : Float → Float → Bool
  -- `strconv.ParseFloat(s, 64)`; `none` is an error
  pub parse_float : String → Option Float
  -- the number that `strconv.ParseFloat` gives beside its error
  pub parse_float_value : String → Float
  -- `json.Unmarshal` into a `map[string]interface{}`; `none` is an error
  pub Json : Type 0
  pub unmarshal : String → Option Json
  -- `regexp.MatchString(pattern, s)`; `none` is a pattern that does not compile
  pub match_string : String → String → Option Bool
  -- `murmur3.New32`, `Write` and `Sum32` on the bytes of a text
  pub murmur3 : String → ℕ
  -- `unicode.ToLower` and the orbits of `unicode.SimpleFold`, beyond ASCII
  pub unicode_to_lower : ℕ → ℕ
  pub unicode_same_fold : ℕ → ℕ → Bool

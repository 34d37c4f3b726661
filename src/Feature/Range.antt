-- ===== src/Feature/Range.antt =====
-- `Variation.Int` of evaluation/feature.go: the range of its value.
use ff_golang_server_sdk.Common.{Option, none, some}
use ff_golang_server_sdk.Common.Int.{ℤ}
use ff_golang_server_sdk.Go.{Runtime}
use ff_golang_server_sdk.Go.Number.Bounds.{IsInt64, parse_int_value-IsInt64}
use ff_golang_server_sdk.Feature.{Variation}
use ff_golang_server_sdk.Feature.Variations.{as_int}

-- Whatever text a variation of the older data holds, parsed or not, its `Int` is in the range of a signed
-- 64-bit integer when the default is.
pub as_int-IsInt64 :
    (rt : Runtime) (v : Option Variation) (default_value : ℤ)
    → IsInt64 default_value
    → IsInt64 (as_int rt v default_value)
unfolding as_int
as_int-IsInt64 rt none default_value bounded = bounded
as_int-IsInt64 rt (some v) default_value bounded = parse_int_value-IsInt64 v.value

-- ===== src/Examples/Targets.antt =====
-- Targets that a builder makes.
use ff_golang_server_sdk.Common.{◌≡◌, refl, ◌&&◌, none, some, [], ◌∷◌, ◌==◌, if◌then◌else◌, arith}
use ff_golang_server_sdk.Target.{string_value}
use ff_golang_server_sdk.Builder.{TargetBuilder, Heap, new_target_builder, custom, email, build}
use ff_golang_server_sdk.Builder.Sharing.{attribute, has_attributes, custom-build, build-custom}
use ff_golang_server_sdk.Samples.{runtime}

-- A builder with one attribute, and its heap.
abbrev carl : TargetBuilder runtime.Float
carl = record { identifier = "carl"; name = ""; anonymous = none; attributes = some 0 }

abbrev heap : Heap runtime.Float
heap = (("plan", string_value "free") ∷ []) ∷ []

email-carl :
    email runtime.Float "carl@harness.io" (new_target_builder runtime.Float "carl") []
    ≡ (carl, (("email", string_value "carl@harness.io") ∷ []) ∷ [])
unfolding email new_target_builder
email-carl = refl

build-custom_example :
    (let heap' = (custom runtime.Float "plan" (string_value "paid") carl heap).1 in
      attribute runtime heap' (build runtime.Float carl) "plan")
    ≡ (if has_attributes runtime carl.attributes && "plan" == "plan"
        then string_value "paid"
        else attribute runtime heap (build runtime.Float carl) "plan")
build-custom_example =
    build-custom runtime carl heap "plan" "plan" (string_value "paid") (omega arith)

custom-build_example :
    (let (carl', heap') = custom runtime.Float "plan" (string_value "paid") carl heap in
      attribute runtime heap' (build runtime.Float carl') "plan")
    ≡ (if "plan" == "plan"
        then string_value "paid"
        else attribute runtime heap (build runtime.Float carl) "plan")
custom-build_example =
    custom-build runtime carl heap "plan" "plan" (string_value "paid") (omega arith)

-- ===== src/Http/Parse/Fields.antt =====
-- Which fields of the answers of rest/services.gen.go are set.
use mathlib.Core.Path.{subst}
use ff_golang_server_sdk.Common.{
  ℕ, ◌≡◌, refl, sym, Bool, true, false, Option, none, some, List, eqb, arith, if◌then◌else◌,
}
use ff_golang_server_sdk.Common.Fallible.{>>=-some}
use ff_golang_server_sdk.Rest.{AuthenticationResponse, Segment, ServiceError}
use ff_golang_server_sdk.Http.{Net, RawResponse}
use ff_golang_server_sdk.Http.Parse.{
  Decoders, FullResponse, is_json, full, read_full, read_failure, read_error, parse_full,
  parse_authenticate_response, parse_get_all_segments_response,
  parse_get_segment_by_identifier_response,
}

abbrev pub is_some : {A : Type 0} → Option A → Bool
is_some none = false
is_some (some a) = true

module _ (net : Net) (raw : RawResponse net) where
  -- The field of a status is set when the answer has that status and JSON content, and no other is.
  abbrev pub FitsStatus : {A : Type 0} → FullResponse net A → Type 0
  FitsStatus r =
      (r.http_response ≡ some raw)
      × (is_some r.json200 ≡ is_json net raw 200)
      × (is_some r.json401 ≡ is_json net raw 401)
      × (is_some r.json403 ≡ is_json net raw 403)
      × (is_some r.json404 ≡ is_json net raw 404)
      × (is_some r.json500 ≡ is_json net raw 500)

  -- One status excludes the others.
  other_status : (a b : ℕ) → eqb a b ≡ false → is_json net raw a ≡ true → false ≡ is_json net raw b
  unfolding is_json
  other_status a b h k = ground (h, k, arith)

  module _ {A : Type 0} (decode : net.Bytes → Option A)
      (decode_error : net.Bytes → Option ServiceError) (r : FullResponse net A)
      (body : net.Bytes) where
    abbrev blank : FullResponse net A
    blank = full net decode decode_error raw body

    error-FitsStatus :
        (set : ServiceError → FullResponse net A)
        → ((e : ServiceError) → FitsStatus (set e))
        → read_error net decode decode_error body set ≡ some r
        → FitsStatus r
    error-FitsStatus set fits h =
        let (dest, decoded, same) = >>=-some (decode_error body) (λ dest. some (set dest)) r h in
        subst (λ x. FitsStatus x) {x = set dest} {y = r} (cc same) (fits dest)

    -- One case of the switch.
    case-FitsStatus :
        (b : Bool) (x y : Option (FullResponse net A))
        → (b ≡ true → x ≡ some r → FitsStatus r)
        → (b ≡ false → y ≡ some r → FitsStatus r)
        → (if b then x else y) ≡ some r
        → FitsStatus r
    case-FitsStatus true x y f g h = f refl h
    case-FitsStatus false x y f g h = g refl h

    failure-FitsStatus :
        is_json net raw 200 ≡ false
        → read_failure net decode decode_error raw body ≡ some r
        → FitsStatus r
    failure-FitsStatus e200 =
        case-FitsStatus (is_json net raw 401) _ _
          (λ e401.
            error-FitsStatus (λ dest. record blank { json401 = some dest })
              λ dest. (
                refl,
                sym e200,
                sym e401,
                other_status 401 403 refl e401,
                other_status 401 404 refl e401,
                other_status 401 500 refl e401,
              ))
          λ e401.
            case-FitsStatus (is_json net raw 403) _ _
              (λ e403.
                error-FitsStatus (λ dest. record blank { json403 = some dest })
                  λ dest. (
                    refl,
                    sym e200,
                    sym e401,
                    sym e403,
                    other_status 403 404 refl e403,
                    other_status 403 500 refl e403,
                  ))
              λ e403.
                case-FitsStatus (is_json net raw 404) _ _
                  (λ e404.
                    error-FitsStatus (λ dest. record blank { json404 = some dest })
                      λ dest. (
                        refl,
                        sym e200,
                        sym e401,
                        sym e403,
                        sym e404,
                        other_status 404 500 refl e404,
                      ))
                  λ e404.
                    case-FitsStatus (is_json net raw 500) _ _
                      (λ e500.
                        error-FitsStatus (λ dest. record blank { json500 = some dest })
                          λ dest. (refl, sym e200, sym e401, sym e403, sym e404, sym e500))
                      λ e500 h.
                        subst (λ x. FitsStatus x) {x = blank} {y = r} (cc h)
                          (refl, sym e200, sym e401, sym e403, sym e404, sym e500)

    full-FitsStatus : read_full net decode decode_error raw body ≡ some r → FitsStatus r
    full-FitsStatus =
        case-FitsStatus (is_json net raw 200) _ _
          (λ e200 h.
            let (dest, decoded, same) =
              >>=-some (decode body) (λ dest. some (record blank { json200 = some dest })) r h in
            subst (λ x. FitsStatus x) {x = record blank { json200 = some dest }} {y = r} (cc same)
              (
                refl,
                sym e200,
                other_status 200 401 refl e200,
                other_status 200 403 refl e200,
                other_status 200 404 refl e200,
                other_status 200 500 refl e200,
              ))
          failure-FitsStatus

  parse_full-FitsStatus :
      {A : Type 0} (decode : net.Bytes → Option A) (decode_error : net.Bytes → Option ServiceError)
      (r : FullResponse net A)
      → parse_full net decode decode_error raw ≡ some r
      → FitsStatus r
  unfolding parse_full
  parse_full-FitsStatus decode decode_error r h =
      let (body, was_read, found) =
        >>=-some raw.body (λ body. read_full net decode decode_error raw body) r h in
      full-FitsStatus decode decode_error r body found

  -- What the three parsers that read errors return keeps the HTTP response, and sets of its five fields
  -- the one of the status of that response when its content is JSON, and no other.
  pub parse_authenticate_response-FitsStatus :
      (decoders : Decoders net.Bytes)
      → ((r : FullResponse net AuthenticationResponse)
          → parse_authenticate_response net decoders raw ≡ some r
          → FitsStatus r)
        × ((r : FullResponse net (List Segment))
            → parse_get_all_segments_response net decoders raw ≡ some r
            → FitsStatus r)
        × ((r : FullResponse net Segment)
            → parse_get_segment_by_identifier_response net decoders raw ≡ some r
            → FitsStatus r)
  unfolding parse_authenticate_response parse_get_all_segments_response
      parse_get_segment_by_identifier_response
  parse_authenticate_response-FitsStatus decoders = (
    parse_full-FitsStatus decoders.authentication_response decoders.service_error,
    parse_full-FitsStatus decoders.segments decoders.service_error,
    parse_full-FitsStatus decoders.segment decoders.service_error,
  )

-- ===== src/Http/Parse.antt =====
-- The answers of rest/services.gen.go and the functions that parse them. Two shapes occur: an answer that
-- is read with status 200 only, and one whose errors are read too.
pub mod Values
pub mod Fields
use ff_golang_server_sdk.Common.{
  ℕ, String, Bool, true, false, ◌&&◌, Option, none, some, List, eqb, if◌then◌else◌,
}
use ff_golang_server_sdk.Common.Fallible.{◌>>=◌}
use ff_golang_server_sdk.Go.Text.{contains_text}
use ff_golang_server_sdk.Rest.{
  AuthenticationResponse, FeatureConfig, Segment, Pagination, Evaluation, ServiceError,
}
use ff_golang_server_sdk.Http.{Net, RawResponse}

-- `json.Unmarshal` of a body, by the type that is read; `none` is an error.
pub record Decoders (Bytes : Type 0) : Type 0 where
  pub authentication_response : Bytes → Option AuthenticationResponse
  pub feature_configs : Bytes → Option (List FeatureConfig)
  pub feature_config : Bytes → Option FeatureConfig
  pub segments : Bytes → Option (List Segment)
  pub segment : Bytes → Option Segment
  pub evaluations : Bytes → Option (Pagination × List Evaluation)
  pub evaluation : Bytes → Option Evaluation
  pub service_error : Bytes → Option ServiceError

module _ (net : Net) where
  -- An answer that has a field for status 200 only.
  pub record PlainResponse (A : Type 0) : Type 0 where
    pub body : net.Bytes
    pub http_response : Option (RawResponse net)
    pub json200 : Option A

  -- An answer that has a field for each status that the service documents.
  pub record FullResponse (A : Type 0) : Type 0 where
    pub body : net.Bytes
    pub http_response : Option (RawResponse net)
    pub json200 : Option A
    pub json401 : Option ServiceError
    pub json403 : Option ServiceError
    pub json404 : Option ServiceError
    pub json500 : Option ServiceError

  abbrev pub AuthenticateResponse : Type 0
  AuthenticateResponse = FullResponse AuthenticationResponse

  abbrev pub GetFeatureConfigResponse : Type 0
  GetFeatureConfigResponse = PlainResponse (List FeatureConfig)

  abbrev pub GetFeatureConfigByIdentifierResponse : Type 0
  GetFeatureConfigByIdentifierResponse = PlainResponse FeatureConfig

  abbrev pub GetAllSegmentsResponse : Type 0
  GetAllSegmentsResponse = FullResponse (List Segment)

  abbrev pub GetSegmentByIdentifierResponse : Type 0
  GetSegmentByIdentifierResponse = FullResponse Segment

  abbrev pub GetEvaluationsResponse : Type 0
  GetEvaluationsResponse = PlainResponse (Pagination × List Evaluation)

  abbrev pub GetEvaluationByIdentifierResponse : Type 0
  GetEvaluationByIdentifierResponse = PlainResponse Evaluation

  pub record StreamResponse : Type 0 where
    pub body : net.Bytes
    pub http_response : Option (RawResponse net)

  -- `Status` of an answer, from its HTTP response
  unfoldable pub status : Option (RawResponse net) → String
  status none = net.status_text 0
  status (some raw) = raw.status

  -- `StatusCode` of an answer, from its HTTP response
  unfoldable pub status_code : Option (RawResponse net) → ℕ
  status_code none = 0
  status_code (some raw) = raw.status_code

  -- `strings.Contains(rsp.Header.Get("Content-Type"), "json") && rsp.StatusCode == code`
  unfoldable pub is_json : RawResponse net → (code : ℕ) → Bool
  unfolding contains_text
  is_json raw code = contains_text raw.content_type "json" && eqb raw.status_code code

  module _ {A : Type 0} (decode : net.Bytes → Option A) where
    abbrev pub plain : RawResponse net → net.Bytes → PlainResponse A
    plain raw body = record { body = body; http_response = some raw; json200 = none }

    abbrev pub read_plain : RawResponse net → net.Bytes → Option (PlainResponse A)
    read_plain raw body =
        if is_json raw 200
        then (decode body >>= λ dest. some (record (plain raw body) { json200 = some dest }))
        else some (plain raw body)

    -- The parse of an answer of the plain shape.
    unfoldable pub parse_plain : RawResponse net → Option (PlainResponse A)
    unfolding is_json
    parse_plain raw = do body ← raw.body; read_plain raw body

    module _ (decode_error : net.Bytes → Option ServiceError) where
      abbrev pub full : RawResponse net → net.Bytes → FullResponse A
      full raw body = record {
        body = body;
        http_response = some raw;
        json200 = none;
        json401 = none;
        json403 = none;
        json404 = none;
        json500 = none;
      }

      abbrev pub read_error : net.Bytes → (ServiceError → FullResponse A) → Option (FullResponse A)
      read_error body set = decode_error body >>= λ dest. some (set dest)

      -- The cases of the switch behind the one of status 200.
      abbrev pub read_failure : RawResponse net → net.Bytes → Option (FullResponse A)
      read_failure raw body =
          let response = full raw body in
          if is_json raw 401
          then read_error body (λ dest. record response { json401 = some dest })
          else if is_json raw 403
          then read_error body (λ dest. record response { json403 = some dest })
          else if is_json raw 404
          then read_error body (λ dest. record response { json404 = some dest })
          else if is_json raw 500
          then read_error body (λ dest. record response { json500 = some dest })
          else some response

      -- The switch on the status.
      abbrev pub read_full : RawResponse net → net.Bytes → Option (FullResponse A)
      read_full raw body =
          if is_json raw 200
          then (decode body >>= λ dest. some (record (full raw body) { json200 = some dest }))
          else read_failure raw body

      -- The parse of an answer of the full shape.
      unfoldable pub parse_full : RawResponse net → Option (FullResponse A)
      unfolding is_json
      parse_full raw = do body ← raw.body; read_full raw body

  module _ (decoders : Decoders net.Bytes) where
    -- `ParseAuthenticateResponse`
    unfoldable pub parse_authenticate_response : RawResponse net → Option AuthenticateResponse
    unfolding parse_full
    parse_authenticate_response = parse_full decoders.authentication_response decoders.service_error

    -- `ParseGetFeatureConfigResponse`
    unfoldable pub parse_get_feature_config_response :
        RawResponse net → Option GetFeatureConfigResponse
    unfolding parse_plain
    parse_get_feature_config_response = parse_plain decoders.feature_configs

    -- `ParseGetFeatureConfigByIdentifierResponse`
    unfoldable pub parse_get_feature_config_by_identifier_response :
        RawResponse net → Option GetFeatureConfigByIdentifierResponse
    unfolding parse_plain
    parse_get_feature_config_by_identifier_response = parse_plain decoders.feature_config

    -- `ParseGetAllSegmentsResponse`
    unfoldable pub parse_get_all_segments_response : RawResponse net → Option GetAllSegmentsResponse
    unfolding parse_full
    parse_get_all_segments_response = parse_full decoders.segments decoders.service_error

    -- `ParseGetSegmentByIdentifierResponse`
    unfoldable pub parse_get_segment_by_identifier_response :
        RawResponse net → Option GetSegmentByIdentifierResponse
    unfolding parse_full
    parse_get_segment_by_identifier_response = parse_full decoders.segment decoders.service_error

    -- `ParseGetEvaluationsResponse`
    unfoldable pub parse_get_evaluations_response : RawResponse net → Option GetEvaluationsResponse
    unfolding parse_plain
    parse_get_evaluations_response = parse_plain decoders.evaluations

    -- `ParseGetEvaluationByIdentifierResponse`
    unfoldable pub parse_get_evaluation_by_identifier_response :
        RawResponse net → Option GetEvaluationByIdentifierResponse
    unfolding parse_plain
    parse_get_evaluation_by_identifier_response = parse_plain decoders.evaluation

    -- `ParseStreamResponse`
    unfoldable pub parse_stream_response : RawResponse net → Option StreamResponse
    parse_stream_response raw = do
      body ← raw.body
      some (record { body = body; http_response = some raw })

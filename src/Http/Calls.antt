-- ===== src/Http/Calls.antt =====
-- The methods of `Client` and of `ClientWithResponses` of rest/services.gen.go. `none` is an error.
pub mod Answers
use ff_golang_server_sdk.Common.{String, Option, none, some, List, [], ◌∷◌}
use ff_golang_server_sdk.Common.Fallible
use ff_golang_server_sdk.Common.Run.{Run, ret, panic, ◌>>=◌}
use ff_golang_server_sdk.Rest.{AuthenticationRequest, StreamParams}
use ff_golang_server_sdk.Stream.{Response, failed, not_ok, json200}
use ff_golang_server_sdk.Http.{Net, RawResponse, RequestEditorFn, Client, send}
use ff_golang_server_sdk.Http.Requests.{
  new_authenticate_request_with_body, new_authenticate_request, new_get_feature_config_request,
  new_get_feature_config_by_identifier_request, new_get_all_segments_request,
  new_get_segment_by_identifier_request, new_get_evaluations_request,
  new_get_evaluation_by_identifier_request, new_stream_request,
}
use ff_golang_server_sdk.Http.Parse.{
  Decoders, PlainResponse, FullResponse, AuthenticateResponse, GetFeatureConfigResponse,
  GetFeatureConfigByIdentifierResponse, GetAllSegmentsResponse, GetSegmentByIdentifierResponse,
  GetEvaluationsResponse, GetEvaluationByIdentifierResponse, StreamResponse,
  parse_authenticate_response, parse_get_feature_config_response,
  parse_get_feature_config_by_identifier_response, parse_get_all_segments_response,
  parse_get_segment_by_identifier_response, parse_get_evaluations_response,
  parse_get_evaluation_by_identifier_response, parse_stream_response,
}

module _ (net : Net) (client : Client net) where
  abbrev pub Editors : Type 0
  Editors = List (RequestEditorFn net)

  abbrev pub Sent : Type 0
  Sent = Run (Option (RawResponse net))

  unfoldable pub authenticate_with_body : (content_type : String) → net.Bytes → Editors → Sent
  unfolding new_authenticate_request_with_body send
  authenticate_with_body content_type body =
      send net client (new_authenticate_request_with_body net client.server content_type body)

  unfoldable pub authenticate :
      {F : Type 0}
      → (AuthenticationRequest F → Option net.Bytes)
      → AuthenticationRequest F
      → Editors
      → Sent
  unfolding new_authenticate_request send
  authenticate marshal body =
      send net client (new_authenticate_request net marshal client.server body)

  unfoldable pub get_feature_config : (environment_uuid : String) → Editors → Sent
  unfolding new_get_feature_config_request send
  get_feature_config environment_uuid =
      send net client (new_get_feature_config_request net client.server environment_uuid)

  unfoldable pub get_feature_config_by_identifier :
      (environment_uuid identifier : String) → Editors → Sent
  unfolding new_get_feature_config_by_identifier_request send
  get_feature_config_by_identifier environment_uuid identifier =
      send net client
        (new_get_feature_config_by_identifier_request net client.server environment_uuid identifier)

  unfoldable pub get_all_segments : (environment_uuid : String) → Editors → Sent
  unfolding new_get_all_segments_request send
  get_all_segments environment_uuid =
      send net client (new_get_all_segments_request net client.server environment_uuid)

  unfoldable pub get_segment_by_identifier : (environment_uuid identifier : String) → Editors → Sent
  unfolding new_get_segment_by_identifier_request send
  get_segment_by_identifier environment_uuid identifier =
      send net client
        (new_get_segment_by_identifier_request net client.server environment_uuid identifier)

  unfoldable pub get_evaluations : (environment_uuid target : String) → Editors → Sent
  unfolding new_get_evaluations_request send
  get_evaluations environment_uuid target =
      send net client (new_get_evaluations_request net client.server environment_uuid target)

  unfoldable pub get_evaluation_by_identifier :
      (environment_uuid target feature : String) → Editors → Sent
  unfolding new_get_evaluation_by_identifier_request send
  get_evaluation_by_identifier environment_uuid target feature =
      send net client
        (new_get_evaluation_by_identifier_request net client.server environment_uuid target feature)

  unfoldable pub stream : StreamParams → Editors → Sent
  unfolding new_stream_request send
  stream params = send net client (new_stream_request net client.server params)

  -- What every method of `ClientWithResponses` does with the answer of the client's method.
  abbrev pub parsed : {R : Type 0} → (RawResponse net → Option R) → Sent → Run (Option R)
  parsed parse sent = sent >>= λ rsp. ret (Fallible.◌>>=◌ rsp parse)

  module _ (decoders : Decoders net.Bytes) where
    unfoldable pub authenticate_with_body_with_response :
        (content_type : String) → net.Bytes → Editors → Run (Option (AuthenticateResponse net))
    unfolding authenticate_with_body parse_authenticate_response
    authenticate_with_body_with_response content_type body req_editors =
        parsed (parse_authenticate_response net decoders)
          (authenticate_with_body content_type body req_editors)

    unfoldable pub authenticate_with_response :
        {F : Type 0}
        → (AuthenticationRequest F → Option net.Bytes)
        → AuthenticationRequest F
        → Editors
        → Run (Option (AuthenticateResponse net))
    unfolding authenticate parse_authenticate_response
    authenticate_with_response marshal body req_editors =
        parsed (parse_authenticate_response net decoders) (authenticate marshal body req_editors)

    unfoldable pub get_feature_config_with_response :
        (environment_uuid : String) → Editors → Run (Option (GetFeatureConfigResponse net))
    unfolding get_feature_config parse_get_feature_config_response
    get_feature_config_with_response environment_uuid req_editors =
        parsed (parse_get_feature_config_response net decoders)
          (get_feature_config environment_uuid req_editors)

    unfoldable pub get_feature_config_by_identifier_with_response :
        (environment_uuid identifier : String)
        → Editors
        → Run (Option (GetFeatureConfigByIdentifierResponse net))
    unfolding get_feature_config_by_identifier parse_get_feature_config_by_identifier_response
    get_feature_config_by_identifier_with_response environment_uuid identifier req_editors =
        parsed (parse_get_feature_config_by_identifier_response net decoders)
          (get_feature_config_by_identifier environment_uuid identifier req_editors)

    unfoldable pub get_all_segments_with_response :
        (environment_uuid : String) → Editors → Run (Option (GetAllSegmentsResponse net))
    unfolding get_all_segments parse_get_all_segments_response
    get_all_segments_with_response environment_uuid req_editors =
        parsed (parse_get_all_segments_response net decoders)
          (get_all_segments environment_uuid req_editors)

    unfoldable pub get_segment_by_identifier_with_response :
        (environment_uuid identifier : String)
        → Editors
        → Run (Option (GetSegmentByIdentifierResponse net))
    unfolding get_segment_by_identifier parse_get_segment_by_identifier_response
    get_segment_by_identifier_with_response environment_uuid identifier req_editors =
        parsed (parse_get_segment_by_identifier_response net decoders)
          (get_segment_by_identifier environment_uuid identifier req_editors)

    unfoldable pub get_evaluations_with_response :
        (environment_uuid target : String) → Editors → Run (Option (GetEvaluationsResponse net))
    unfolding get_evaluations parse_get_evaluations_response
    get_evaluations_with_response environment_uuid target req_editors =
        parsed (parse_get_evaluations_response net decoders)
          (get_evaluations environment_uuid target req_editors)

    unfoldable pub get_evaluation_by_identifier_with_response :
        (environment_uuid target feature : String)
        → Editors
        → Run (Option (GetEvaluationByIdentifierResponse net))
    unfolding get_evaluation_by_identifier parse_get_evaluation_by_identifier_response
    get_evaluation_by_identifier_with_response environment_uuid target feature req_editors =
        parsed (parse_get_evaluation_by_identifier_response net decoders)
          (get_evaluation_by_identifier environment_uuid target feature req_editors)

    unfoldable pub stream_with_response : StreamParams → Editors → Run (Option (StreamResponse net))
    unfolding stream parse_stream_response
    stream_with_response params req_editors =
        parsed (parse_stream_response net decoders) (stream params req_editors)

-- ===== src/Http/Requests.antt =====
-- The request builders of rest/services.gen.go.
use Prim.Native.String.{◌++◌}
use ff_golang_server_sdk.Common.{String, Option, none, some, [], if◌then◌else◌}
use ff_golang_server_sdk.Common.Fallible.{◌>>=◌}
use ff_golang_server_sdk.Go.Text.{has_prefix}
use ff_golang_server_sdk.Rest.{AuthenticationRequest, StreamParams}
use ff_golang_server_sdk.Http.{Net, Request, header_add, header_set}

-- `if operationPath[0] == '/' { operationPath = "." + operationPath }`
abbrev pub dotted : String → String
dotted operation_path =
    if has_prefix operation_path "/" then "." ++ operation_path else operation_path

module _ (net : Net) where
  -- The part that the builders share, from `url.Parse` to `http.NewRequest`.
  abbrev pub build :
      (method server operation_path : String) → Option net.Bytes → Option (Request net)
  build method server operation_path body = do
    server_url ← net.parse_url server
    query_url ← net.parse_in server_url (dotted operation_path)
    url ← net.request_url method (net.url_text query_url)
    some (record { method = method; url = url; header = []; body = body })

  -- `NewAuthenticateRequestWithBody`
  unfoldable pub new_authenticate_request_with_body :
      (server content_type : String) → net.Bytes → Option (Request net)
  unfolding has_prefix header_add
  new_authenticate_request_with_body server content_type body = do
    req ← build "POST" server "/client/auth" (some body)
    some (header_add net "Content-Type" content_type req)

  -- `NewAuthenticateRequest`; `marshal` is `json.Marshal`
  unfoldable pub new_authenticate_request :
      {F : Type 0}
      → (marshal : AuthenticationRequest F → Option net.Bytes) → (server : String)
      → AuthenticationRequest F
      → Option (Request net)
  unfolding new_authenticate_request_with_body
  new_authenticate_request marshal server body = do
    buf ← marshal body
    new_authenticate_request_with_body server "application/json" buf

  -- `NewGetFeatureConfigRequest`
  unfoldable pub new_get_feature_config_request :
      (server environment_uuid : String) → Option (Request net)
  unfolding has_prefix
  new_get_feature_config_request server environment_uuid = do
    path_param_0 ← net.style_path "environmentUUID" environment_uuid
    build "GET" server ("/client/env/" ++ path_param_0 ++ "/feature-configs") none

  -- `NewGetFeatureConfigByIdentifierRequest`
  unfoldable pub new_get_feature_config_by_identifier_request :
      (server environment_uuid identifier : String) → Option (Request net)
  unfolding has_prefix
  new_get_feature_config_by_identifier_request server environment_uuid identifier = do
    path_param_0 ← net.style_path "environmentUUID" environment_uuid
    path_param_1 ← net.style_path "identifier" identifier
    build "GET" server ("/client/env/" ++ path_param_0 ++ "/feature-configs/" ++ path_param_1) none

  -- `NewGetAllSegmentsRequest`
  unfoldable pub new_get_all_segments_request :
      (server environment_uuid : String) → Option (Request net)
  unfolding has_prefix
  new_get_all_segments_request server environment_uuid = do
    path_param_0 ← net.style_path "environmentUUID" environment_uuid
    build "GET" server ("/client/env/" ++ path_param_0 ++ "/target-segments") none

  -- `NewGetSegmentByIdentifierRequest`
  unfoldable pub new_get_segment_by_identifier_request :
      (server environment_uuid identifier : String) → Option (Request net)
  unfolding has_prefix
  new_get_segment_by_identifier_request server environment_uuid identifier = do
    path_param_0 ← net.style_path "environmentUUID" environment_uuid
    path_param_1 ← net.style_path "identifier" identifier
    build "GET" server ("/client/env/" ++ path_param_0 ++ "/target-segments/" ++ path_param_1) none

  -- `NewGetEvaluationsRequest`
  unfoldable pub new_get_evaluations_request :
      (server environment_uuid target : String) → Option (Request net)
  unfolding has_prefix
  new_get_evaluations_request server environment_uuid target = do
    path_param_0 ← net.style_path "environmentUUID" environment_uuid
    path_param_1 ← net.style_path "target" target
    build "GET" server
        ("/client/env/" ++ path_param_0 ++ "/target/" ++ path_param_1 ++ "/evaluations") none

  -- `NewGetEvaluationByIdentifierRequest`
  unfoldable pub new_get_evaluation_by_identifier_request :
      (server environment_uuid target feature : String) → Option (Request net)
  unfolding has_prefix
  new_get_evaluation_by_identifier_request server environment_uuid target feature = do
    path_param_0 ← net.style_path "environmentUUID" environment_uuid
    path_param_1 ← net.style_path "target" target
    path_param_2 ← net.style_path "feature" feature
    build "GET" server
        ("/client/env/" ++ path_param_0 ++ "/target/" ++ path_param_1 ++ "/evaluations/"
          ++ path_param_2)
        none

  -- `NewStreamRequest`
  unfoldable pub new_stream_request : (server : String) → StreamParams → Option (Request net)
  unfolding has_prefix header_set
  new_stream_request server params = do
    req ← build "GET" server "/stream" none
    header_param_0 ← net.style_header "API-Key" params.api_key
    some (header_set net "API-Key" header_param_0 req)

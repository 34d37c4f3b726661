-- ===== src/Http/Metrics.antt =====
-- metricsclient/services.gen.go: the request that posts metrics, and its answer. The client itself, its
-- options and its editors are the same text as in rest/services.gen.go. `none` is an error.
use Prim.Native.String.{◌++◌}
use ff_golang_server_sdk.Common.{String, Option, none, some, List, if◌then◌else◌}
use ff_golang_server_sdk.Common.Fallible.{◌>>=◌}
use ff_golang_server_sdk.Common.Run
use ff_golang_server_sdk.Common.Run.{Run, ret}
use ff_golang_server_sdk.Rest.{ServiceError}
use ff_golang_server_sdk.Analytics.{Metrics}
use ff_golang_server_sdk.Http.{Net, Request, RawResponse, RequestEditorFn, Client, send, header_add}
use ff_golang_server_sdk.Http.Requests.{build}
use ff_golang_server_sdk.Http.Parse.{is_json}
use ff_golang_server_sdk.Go.Text.{has_prefix}

module _ (net : Net) where
  -- `NewPostMetricsRequestWithBody`
  unfoldable pub new_post_metrics_request_with_body :
      (server environment content_type : String) → net.Bytes → Option (Request net)
  unfolding has_prefix header_add
  new_post_metrics_request_with_body server environment content_type body = do
    path_param_0 ← net.style_path "environment" environment
    req ← build net "POST" server ("/metrics/" ++ path_param_0) (some body)
    some (header_add net "Content-Type" content_type req)

  -- `NewPostMetricsRequest`; `marshal` is `json.Marshal`
  unfoldable pub new_post_metrics_request :
      (marshal : Metrics → Option net.Bytes)
      → (server environment : String) → Metrics
      → Option (Request net)
  unfolding new_post_metrics_request_with_body
  new_post_metrics_request marshal server environment body = do
    buf ← marshal body
    new_post_metrics_request_with_body server environment "application/json" buf

  pub record PostMetricsResponse : Type 0 where
    pub body : net.Bytes
    pub http_response : Option (RawResponse net)
    pub json401 : Option ServiceError
    pub json403 : Option ServiceError
    pub json500 : Option ServiceError

  module _ (decode_error : net.Bytes → Option ServiceError) where
    abbrev blank : RawResponse net → net.Bytes → PostMetricsResponse
    blank raw body = record {
      body = body;
      http_response = some raw;
      json401 = none;
      json403 = none;
      json500 = none;
    }

    abbrev read_error :
        net.Bytes → (ServiceError → PostMetricsResponse) → Option PostMetricsResponse
    read_error body set = decode_error body >>= λ dest. some (set dest)

    abbrev read_posted : RawResponse net → net.Bytes → Option PostMetricsResponse
    read_posted raw body =
        let response = blank raw body in
        if is_json net raw 401
        then read_error body (λ dest. record response { json401 = some dest })
        else if is_json net raw 403
        then read_error body (λ dest. record response { json403 = some dest })
        else if is_json net raw 500
        then read_error body (λ dest. record response { json500 = some dest })
        else some response

    -- `ParsePostMetricsResponse`
    unfoldable pub parse_post_metrics_response : RawResponse net → Option PostMetricsResponse
    unfolding is_json
    parse_post_metrics_response raw = do body ← raw.body; read_posted raw body

  module _ (client : Client net) where
    -- `PostMetricsWithBody`
    unfoldable pub post_metrics_with_body :
        (environment content_type : String)
        → net.Bytes
        → List (RequestEditorFn net)
        → Run (Option (RawResponse net))
    unfolding new_post_metrics_request_with_body send
    post_metrics_with_body environment content_type body =
        send net client
          (new_post_metrics_request_with_body client.server environment content_type body)

    -- `PostMetrics`
    unfoldable pub post_metrics :
        (Metrics → Option net.Bytes)
        → (environment : String) → Metrics
        → List (RequestEditorFn net)
        → Run (Option (RawResponse net))
    unfolding new_post_metrics_request send
    post_metrics marshal environment body =
        send net client (new_post_metrics_request marshal client.server environment body)

    module _ (decode_error : net.Bytes → Option ServiceError) where
      abbrev parsed : Run (Option (RawResponse net)) → Run (Option PostMetricsResponse)
      parsed sent = Run.◌>>=◌ sent λ rsp. ret (rsp >>= parse_post_metrics_response decode_error)

      -- `PostMetricsWithBodyWithResponse`
      unfoldable pub post_metrics_with_body_with_response :
          (environment content_type : String)
          → net.Bytes
          → List (RequestEditorFn net)
          → Run (Option PostMetricsResponse)
      unfolding post_metrics_with_body parse_post_metrics_response
      post_metrics_with_body_with_response environment content_type body req_editors =
          parsed (post_metrics_with_body environment content_type body req_editors)

      -- `PostMetricsWithResponse`
      unfoldable pub post_metrics_with_response :
          (Metrics → Option net.Bytes)
          → (environment : String) → Metrics
          → List (RequestEditorFn net)
          → Run (Option PostMetricsResponse)
      unfolding post_metrics parse_post_metrics_response
      post_metrics_with_response marshal environment body req_editors =
          parsed (post_metrics marshal environment body req_editors)

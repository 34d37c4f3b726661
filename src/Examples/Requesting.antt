-- ===== src/Examples/Requesting.antt =====
-- The generated HTTP clients on a sample service.
use Prim.Native.String.{◌++◌}
use ff_golang_server_sdk.Common.{String, ◌≡◌, ◌↔◌, refl, some, List, [], ◌∷◌}
use ff_golang_server_sdk.Common.Fallible.{◌>>=◌}
use ff_golang_server_sdk.Common.Run.{ret}
use ff_golang_server_sdk.Rest.{AuthenticationResponse, FeatureConfig, Segment}
use ff_golang_server_sdk.Stream.{json200}
use ff_golang_server_sdk.Http.{Request, RawResponse, RequestEditorFn, Client, send}
use ff_golang_server_sdk.Http.Requests.{
  new_get_feature_config_request, new_get_feature_config_by_identifier_request,
  new_get_all_segments_request, new_get_segment_by_identifier_request,
}
use ff_golang_server_sdk.Http.Parse.{
  FullResponse, parse_authenticate_response, parse_get_all_segments_response,
  parse_get_segment_by_identifier_response,
}
use ff_golang_server_sdk.Http.Parse.Fields.{FitsStatus, parse_authenticate_response-FitsStatus}
use ff_golang_server_sdk.Http.Calls.{get_feature_config_by_identifier_with_response}
use ff_golang_server_sdk.Http.Calls.Answers.{
  Delivered, seen_flags, seen_flag, seen_segments, seen_segment, seen_iff,
}
use ff_golang_server_sdk.Client.Network.{departs, network_layer, network_layer-send}
use ff_golang_server_sdk.Samples.Service.{net, service, client, decoders, off_flag}

abbrev no_editors : List (RequestEditorFn net)
no_editors = []

seen_iff_example :
    ((fcs : List FeatureConfig)
      → (seen_flags net client decoders "prod" no_editors ≡ ret (json200 fcs))
        ↔ Delivered net client service
            (new_get_feature_config_request net "https://ff/" "prod")
            no_editors
            decoders.feature_configs
            fcs)
    × ((fc : FeatureConfig)
        → (seen_flag net client decoders "prod" "dark_mode" no_editors ≡ ret (json200 fc))
          ↔ Delivered net client service
              (new_get_feature_config_by_identifier_request net "https://ff/" "prod" "dark_mode")
              no_editors
              decoders.feature_config
              fc)
    × ((segs : List Segment)
        → (seen_segments net client decoders "prod" no_editors ≡ ret (json200 segs))
          ↔ Delivered net client service
              (new_get_all_segments_request net "https://ff/" "prod")
              no_editors
              decoders.segments
              segs)
    × ((seg : Segment)
        → (seen_segment net client decoders "prod" "dark_mode" no_editors ≡ ret (json200 seg))
          ↔ Delivered net client service
              (new_get_segment_by_identifier_request net "https://ff/" "prod" "dark_mode")
              no_editors
              decoders.segment
              seg)
seen_iff_example = seen_iff net client decoders service refl "prod" "dark_mode" no_editors

-- Run on the service, the request gives the flag.
seen_dark_mode :
    seen_flag net client decoders "prod" "dark_mode" no_editors ≡ ret (json200 off_flag)
unfolding get_feature_config_by_identifier_with_response
seen_dark_mode = refl

abbrev missing : RawResponse net
missing = record {
  status = "404 Not Found";
  status_code = 404;
  content_type = "application/json";
  body = some "no";
}

parse_authenticate_response-FitsStatus_example :
    ((r : FullResponse net AuthenticationResponse)
      → parse_authenticate_response net decoders missing ≡ some r
      → FitsStatus net missing r)
    × ((r : FullResponse net (List Segment))
        → parse_get_all_segments_response net decoders missing ≡ some r
        → FitsStatus net missing r)
    × ((r : FullResponse net Segment)
        → parse_get_segment_by_identifier_response net decoders missing ≡ some r
        → FitsStatus net missing r)
parse_authenticate_response-FitsStatus_example =
    parse_authenticate_response-FitsStatus net missing decoders

-- The token of the provider, as an editor.
abbrev bearer : String → RequestEditorFn net
bearer token req = some (record req { header = ("Authorization", ("Bearer " ++ token) ∷ []) ∷ [] })

network_layer-send_example :
    (clients : Client net × Client net) × (network_layer net
        (λ token. some (bearer token))
        service
        service
        service
        "https://ff"
        "https://events"
        "a.b.c"
        "2"
      ≡ some clients)
    × ((req : Request net)
        → (send net clients.0 (some req) []
            ≡ ret (departs net (bearer "a.b.c") "2" req >>= service))
          × (send net clients.1 (some req) []
              ≡ ret (departs net (bearer "a.b.c") "2" req >>= service)))
network_layer-send_example =
    network_layer-send net (λ token. some (bearer token)) (bearer "a.b.c") service service service
      "https://ff" "https://events" "a.b.c" "2" refl

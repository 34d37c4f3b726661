-- ===== src/Samples/Service.antt =====
-- A service over HTTP for the tests.
use Prim.Native.String.{◌++◌}
use ff_golang_server_sdk.Common.{String, none, some, [], ◌∷◌, ◌==◌, if◌then◌else◌}
use ff_golang_server_sdk.Rest.{FeatureConfig}
use ff_golang_server_sdk.Http.{Net, HttpRequestDoer, Client}
use ff_golang_server_sdk.Http.Parse.{Decoders}
use ff_golang_server_sdk.Samples.Flags.{flag}

-- A flag that is turned off.
abbrev pub off_flag : FeatureConfig
off_flag = record (flag "dark_mode" none) { state = "off" }

-- Bytes and URLs are texts.
abbrev pub net : Net
net = record {
  Bytes = String;
  Url = String;
  parse_url = some;
  parse_in = λ base path. some (base ++ path);
  url_text = λ url. url;
  add_query = λ key value url. url ++ "?" ++ key ++ "=" ++ value;
  style_path = λ name value. some value;
  style_header = λ name value. some value;
  request_url = λ method url. some url;
  canonical_key = λ key. key;
  status_text = λ code. "";
}

-- The service knows one flag, and answers the rest with an error.
abbrev pub service : HttpRequestDoer net
service req = some (
    if req.url == "https://ff/./client/env/prod/feature-configs/dark_mode"
    then record {
      status = "200 OK";
      status_code = 200;
      content_type = "application/json";
      body = some "dark_mode";
    }
    else record {
      status = "404 Not Found";
      status_code = 404;
      content_type = "application/json";
      body = some "missing";
    })

abbrev pub client : Client net
client = record { server = "https://ff/"; client = some service; request_editors = [] }

abbrev pub decoders : Decoders String
decoders = record {
  authentication_response = λ s. some (record { auth_token = s });
  feature_configs = λ s. some (flag s none ∷ []);
  feature_config = λ s. some off_flag;
  segments = λ s. none;
  segment = λ s. none;
  evaluations = λ s. none;
  evaluation = λ s. none;
  service_error = λ s. some (record { code = "404"; message = s });
}

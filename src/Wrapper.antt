-- ===== src/Wrapper.antt =====
-- The test wrapper: test_wrapper/ffgosdk/ff_go_sdk.go, test_wrapper/handlers/handlers.go and the data of
-- test_wrapper/restapi and test_wrapper/wrapperconfig. It serves the variation methods of the client over HTTP.
pub mod Replies
use ff_golang_server_sdk.Common.{
  ℕ, String, Bool, true, false, ◌||◌, Option, none, some, List, [], ◌∷◌, ◌==◌, if◌then◌else◌,
}
use ff_golang_server_sdk.Common.Dict.{insert}
use ff_golang_server_sdk.Common.Int.{ℤ, negsuc}
use ff_golang_server_sdk.Common.Run.{Run, ret, panic, ◌>>=◌, Result, ok, err}
use ff_golang_server_sdk.Go.{Runtime}
use ff_golang_server_sdk.Go.Number.{format_int, format_bool}
use ff_golang_server_sdk.Target.{Target, Value, string_value}
use ff_golang_server_sdk.Evaluator.{Query}
use ff_golang_server_sdk.Repository.{Cache, Storage}
use ff_golang_server_sdk.Client.{
  ClientError, Parts, CfClient, ConfigOption, with_url, with_stream_enabled, new_cf_client,
}
use ff_golang_server_sdk.Client.Closing
use ff_golang_server_sdk.Client.Evaluation.{
  Queue, bool_variation, string_variation, int_variation, number_variation, json_variation,
}

-- `Config`
pub record Config : Type 0 where
  pub wrapper_hostname : String
  pub wrapper_port : String
  pub sdk_key : String
  pub base_url : String
  pub enable_streaming : Bool

-- The struct `Attributes` of `FlagCheckBody`
pub record BodyAttributes : Type 0 where
  pub email : Option String
  pub region : Option String
  pub username : Option String

-- The struct `Target` of `FlagCheckBody`
pub record BodyTarget : Type 0 where
  pub attributes : Option BodyAttributes
  pub target_identifier : Option String
  pub target_name : Option String

pub record FlagCheckBody : Type 0 where
  pub flag_key : String
  pub flag_kind : String
  pub target : Option BodyTarget

-- The bodies of the answers: `ErrorResponse`, `FlagCheckResponse` and `PongResponse`.
pub data Body : Type 0 where
  error_response : (error_message : String) → Body
  flag_check_response : (flag_key flag_value : String) → Body
  pong_response : (pong : Bool) → Body

pub record Reply : Type 0 where
  pub status : ℕ
  pub body : Body

-- What the wrapper takes from outside of the repository: the constants -1 and `types.JSON{}` as values,
-- the verb `%g` of fmt, `json.Marshal`, where `none` is an error, and the text of an error.
pub record Formats (rt : Runtime) : Type 0 where
  pub minus_one : rt.Float
  pub empty_json : rt.Json
  pub format_float : rt.Float → String
  pub marshal : rt.Json → Option String
  pub error_text : ClientError → String

-- A string behind a pointer, where the zero value stands for nil.
abbrev pub text_of : Option String → String
text_of none = ""
text_of (some s) = s

module _ (rt : Runtime) where
  abbrev put_attribute :
      String → Option String → List (String × Value rt.Float) → List (String × Value rt.Float)
  put_attribute key none attributes = attributes
  put_attribute key (some s) attributes = insert key (string_value s) attributes

  abbrev attributes_of : Option BodyAttributes → List (String × Value rt.Float)
  attributes_of none = []
  attributes_of (some a) =
      put_attribute "region" a.region
        (put_attribute "username" a.username (put_attribute "email" a.email []))

  abbrev some_target_of : BodyTarget → Target rt.Float
  some_target_of t = record {
    identifier = text_of t.target_identifier;
    name = text_of t.target_name;
    anonymous = none;
    attributes = some (attributes_of t.attributes);
  }

  -- The target that `GetVariant` makes of the body.
  unfoldable pub target_of : Option BodyTarget → Option (Target rt.Float)
  target_of none = none
  target_of (some t) = some (some_target_of t)

  module _ (parts : Parts) (c : Cache) (s : Storage) where
    abbrev client_or_error :
        Option (CfClient rt parts c s) × Option ClientError
        → Option (CfClient rt parts c s) × Option ClientError
    client_or_error (client, none) = (client, none)
    client_or_error (client, some e) = (none, some e)

    -- `NewSDK`; the zero `SDK`, whose client is nil, is `none`
    unfoldable pub new_sdk :
        (lru : Option c.State) → Config → Option (CfClient rt parts c s) × Option ClientError
    unfolding new_cf_client with_url with_stream_enabled
    new_sdk lru config = client_or_error (
        new_cf_client rt parts c s lru config.sdk_key (
          with_url rt parts config.base_url
          ∷ with_stream_enabled rt parts config.enable_streaming
          ∷ []))

    abbrev or_panic :
        Option (CfClient rt parts c s) × Option ClientError → Run (Option (CfClient rt parts c s))
    or_panic (client, none) = ret client
    or_panic (client, some e) = panic

    -- `NewServer`
    unfoldable pub new_server :
        (lru : Option c.State) → Config → Run (Option (CfClient rt parts c s))
    unfolding new_sdk
    new_server lru config = or_panic (new_sdk lru config)

    -- `Close`
    unfoldable pub close : CfClient rt parts c s → Run (Option ClientError × CfClient rt parts c s)
    unfolding Closing.close
    close client = Closing.close rt parts c s client

  -- `Ping`
  unfoldable pub ping : Reply
  ping = record { status = 200; body = pong_response true }

  module _ (formats : Formats rt) (depth fuel : ℕ) (q : Query) where
    -- A value of the client as text; its error is kept.
    abbrev pub written :
        {A : Type 0}
        → (A → String)
        → Run ((A × Option ClientError) × Queue rt)
        → Run ((String × Option ClientError) × Queue rt)
    written format variation = variation >>= λ r. ret ((format r.0.0, r.0.1), r.1)

    abbrev pub format_json : rt.Json → String
    format_json variation = elim (formats.marshal variation) [
      | none ↦ "{}"
      | some data_text ↦ data_text
    ]

    -- The switch of `GetVariant`
    unfoldable pub variation_text :
        (kind key : String)
        → Option (Target rt.Float)
        → Queue rt
        → Run ((String × Option ClientError) × Queue rt)
    unfolding bool_variation string_variation int_variation number_variation json_variation
        format_int format_bool
    variation_text kind key t queue =
        if kind == "boolean" || kind == "bool"
        then written format_bool (bool_variation rt depth fuel q key t false queue)
        else if kind == "string"
        then written (λ s. s) (string_variation rt depth fuel q key t "" queue)
        else if kind == "int"
        then written format_int (int_variation rt depth fuel q key t (negsuc 0) queue)
        else if kind == "number"
        then written formats.format_float
            (number_variation rt depth fuel q key t formats.minus_one queue)
        else if kind == "json"
        then written format_json (json_variation rt depth fuel q key t formats.empty_json queue)
        else ret (("failed to get flag", none), queue)

    -- `GetVariant`
    unfoldable pub get_variant :
        Option FlagCheckBody → Queue rt → Run ((String × Option ClientError) × Queue rt)
    unfolding target_of variation_text
    get_variant none queue = ret (("failed to get flag", none), queue)
    get_variant (some flag) queue =
        variation_text flag.flag_kind flag.flag_key (target_of flag.target) queue

    abbrev pub flag_reply : (key : String) → String × Option ClientError → Reply
    flag_reply key (variation, none) = record {
      status = 200;
      body = flag_check_response key variation;
    }
    flag_reply key (variation, some e) = record {
      status = 500;
      body = error_response (formats.error_text e);
    }

    -- `GetFlagValue`, from what `ctx.Bind` gives: the body, or an error by its text.
    unfoldable pub get_flag_value : Result String FlagCheckBody → Queue rt → Run (Reply × Queue rt)
    unfolding get_variant
    get_flag_value (err message) queue =
        ret (record { status = 500; body = error_response message }, queue)
    get_flag_value (ok flag_body) queue =
        get_variant (some flag_body) queue >>= λ r. ret (flag_reply flag_body.flag_key r.0, r.1)

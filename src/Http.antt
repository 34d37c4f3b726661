-- ===== src/Http.antt =====
-- What rest/services.gen.go and metricsclient/services.gen.go share, which is the same text in both:
-- `Client`, its options and `applyEditors`. Contexts are left out. Requests are values: an editor gives
-- the request that it leaves.
pub mod Requests
pub mod Parse
pub mod Calls
pub mod Metrics
use Prim.Native.String
use ff_golang_server_sdk.Common.{
  ℕ, String, Bool, Option, none, some, List, [], ◌∷◌, ◌++◌, if◌then◌else◌,
}
use ff_golang_server_sdk.Common.Dict.{lookup, insert}
use ff_golang_server_sdk.Common.Fallible.{◌>>=◌}
use ff_golang_server_sdk.Common.Run.{Run, ret, panic}
use ff_golang_server_sdk.Go.Text.{has_suffix}

-- What the generated clients take from outside of the repository.
pub record Net : Type 1 where
  -- a body
  pub Bytes : Type 0
  -- `url.Parse`, the method `Parse` of a URL, its `String`, and a query with one more value in it
  pub Url : Type 0
  pub parse_url : String → Option Url
  pub parse_in : Url → String → Option Url
  pub url_text : Url → String
  pub add_query : (key value : String) → Url → Url
  -- `runtime.StyleParamWithLocation("simple", false, name, location, value)`
  pub style_path : (name value : String) → Option String
  pub style_header : (name value : String) → Option String
  -- `http.NewRequest`: the URL of the request
  pub request_url : (method url : String) → Option Url
  -- the key that `http.Header` keeps a name under, and `http.StatusText`
  pub canonical_key : String → String
  pub status_text : ℕ → String

-- A server's URL with a slash at its end.
abbrev pub slashed : String → String
slashed server = if has_suffix server "/" then server else String.◌++◌ server "/"

module _ (net : Net) where
  -- `http.Request`
  pub record Request : Type 0 where
    pub method : String
    pub url : net.Url
    pub header : List (String × List String)
    pub body : Option net.Bytes

  -- `http.Response`; a body that cannot be read to its end is `none`
  pub record RawResponse : Type 0 where
    pub status : String
    pub status_code : ℕ
    pub content_type : String
    pub body : Option net.Bytes

  -- `RequestEditorFn`, where `none` is an error
  abbrev pub RequestEditorFn : Type 0
  RequestEditorFn = Request → Option Request

  -- `HttpRequestDoer`, where `none` is an error
  abbrev pub HttpRequestDoer : Type 0
  HttpRequestDoer = Request → Option RawResponse

  -- `Client`; a nil doer is `none`
  pub record Client : Type 0 where
    pub server : String
    pub client : Option HttpRequestDoer
    pub request_editors : List RequestEditorFn

  abbrev pub ClientOption : Type 0
  ClientOption = Client → Option Client

  abbrev pub or_default : HttpRequestDoer → Option HttpRequestDoer → HttpRequestDoer
  or_default default_doer none = default_doer
  or_default default_doer (some doer) = doer

  -- What `NewClient` does behind the options.
  abbrev pub completed : HttpRequestDoer → Client → Client
  completed default_doer client = record client {
    server = slashed client.server;
    client = some (or_default default_doer client.client);
  }

  abbrev apply_options : List ClientOption → Client → Option Client
  apply_options [] client = some client
  apply_options (o ∷ opts) client = do client' ← o client; apply_options opts client'

  -- `NewClient`; an option that fails is `none`, and so is the client then. The default doer is a new
  -- `http.Client`.
  unfoldable pub new_client :
      (default_doer : HttpRequestDoer) → String → List ClientOption → Option Client
  unfolding has_suffix
  new_client default_doer server opts = do
    client ← apply_options opts (record { server = server; client = none; request_editors = [] })
    some (completed default_doer client)

  -- `WithHTTPClient`
  unfoldable pub with_http_client : HttpRequestDoer → ClientOption
  with_http_client doer client = some (record client { client = some doer })

  -- `WithRequestEditorFn`
  unfoldable pub with_request_editor_fn : RequestEditorFn → ClientOption
  with_request_editor_fn fn client =
      some (record client { request_editors = client.request_editors ++ fn ∷ [] })

  -- `WithBaseURL`
  unfoldable pub with_base_url : String → ClientOption
  with_base_url base_url client = do
    new_base_url ← net.parse_url base_url
    some (record client { server = net.url_text new_base_url })

  -- One loop of `applyEditors`
  unfoldable pub run_editors : List RequestEditorFn → Request → Option Request
  run_editors [] req = some req
  run_editors (r ∷ editors) req = do req' ← r req; run_editors editors req'

  -- `applyEditors`
  unfoldable pub apply_editors : Client → Request → List RequestEditorFn → Option Request
  unfolding run_editors
  apply_editors client req additional_editors = do
    req' ← run_editors client.request_editors req
    run_editors additional_editors req'

  -- A call on a nil doer panics.
  abbrev pub do_request : Option HttpRequestDoer → Option Request → Run (Option RawResponse)
  do_request doer none = ret none
  do_request none (some req) = panic
  do_request (some doer) (some req) = ret (doer req)

  -- What every method of `Client` does with the request that its builder gives.
  unfoldable pub send : Client → Option Request → List RequestEditorFn → Run (Option RawResponse)
  unfolding apply_editors
  send client none req_editors = ret none
  send client (some req) req_editors =
      do_request client.client (apply_editors client req req_editors)

  -- `req.Header.Add`
  unfoldable pub header_add : (key value : String) → Request → Request
  header_add key value req =
      let name = net.canonical_key key in
      record req { header = insert name (values (lookup name req.header) ++ value ∷ []) req.header }
    where
      values : Option (List String) → List String
      values none = []
      values (some vs) = vs

  -- `req.Header.Set`
  unfoldable pub header_set : (key value : String) → Request → Request
  header_set key value req = record req {
    header = insert (net.canonical_key key) (value ∷ []) req.header;
  }

-- ===== src/Client/Network.antt =====
-- The network layer of client/client.go: the clients that `authenticate` makes behind the token, and
-- `InterceptAddCluster`. They are the generated clients of rest/services.gen.go and of
-- metricsclient/services.gen.go.
pub mod Served
use ff_golang_server_sdk.Common.{String, ◌≡◌, refl, Option, none, some, [], ◌∷◌}
use ff_golang_server_sdk.Common.Fallible.{◌>>=◌}
use ff_golang_server_sdk.Common.Run.{ret}
use ff_golang_server_sdk.Http.{
  Net, Request, RequestEditorFn, HttpRequestDoer, Client, slashed, new_client, with_http_client,
  with_request_editor_fn, run_editors, apply_editors, do_request, send,
}

module _ (net : Net) where
  -- `InterceptAddCluster`
  unfoldable pub intercept_add_cluster : (cluster_identifier : String) → RequestEditorFn net
  intercept_add_cluster cluster_identifier req =
      some (record req { url = net.add_query "cluster" cluster_identifier req.url })

  -- The clients of `authenticate`. `new_security_provider_bearer_token` gives the method `Intercept` of
  -- the provider of github.com/deepmap/oapi-codegen, where `none` is an error.
  unfoldable pub network_layer :
      (new_security_provider_bearer_token : String → Option (RequestEditorFn net))
      → (default_doer http_client default_client : HttpRequestDoer net)
      → (url events_url token cluster_identifier : String) → Option (Client net × Client net)
  unfolding new_client with_request_editor_fn with_http_client intercept_add_cluster
  network_layer new_security_provider_bearer_token default_doer http_client default_client url
        events_url token cluster_identifier =
      do
        intercept ← new_security_provider_bearer_token token
        rest_client ← new_client net default_doer url (
            with_request_editor_fn net intercept
            ∷ with_request_editor_fn net (intercept_add_cluster cluster_identifier)
            ∷ with_http_client net http_client
            ∷ [])
        metrics_client ← new_client net default_doer events_url (
            with_request_editor_fn net intercept
            ∷ with_request_editor_fn net (intercept_add_cluster cluster_identifier)
            ∷ with_http_client net default_client
            ∷ [])
        some (rest_client, metrics_client)

  -- What a request is when it leaves: with the token, and the cluster in its query.
  abbrev pub departs : RequestEditorFn net → String → Request net → Option (Request net)
  departs intercept cluster_identifier req = do
    req' ← intercept req
    some (record req' { url = net.add_query "cluster" cluster_identifier req'.url })

  -- A client with these two editors.
  abbrev equipped :
      RequestEditorFn net → (cluster_identifier server : String) → HttpRequestDoer net → Client net
  equipped intercept cluster_identifier server doer = record {
    server = server;
    client = some doer;
    request_editors = intercept ∷ intercept_add_cluster cluster_identifier ∷ [];
  }

  equipped-send :
      (intercept : RequestEditorFn net) (cluster_identifier server : String)
      (doer : HttpRequestDoer net) (req : Request net)
      → send net (equipped intercept cluster_identifier server doer) (some req) []
        ≡ ret (departs intercept cluster_identifier req >>= doer)
  unfolding send apply_editors run_editors intercept_add_cluster
  equipped-send intercept cluster_identifier server doer req = by_token (intercept req)
    where
      by_token :
          (o : Option (Request net))
          → do_request net (some doer) (
              o
              >>= (λ req'.
                  some (record req' { url = net.add_query "cluster" cluster_identifier req'.url }))
              >>= λ x. some x)
            ≡ ret (
                o
                >>= (λ req'.
                    some
                      (record req' { url = net.add_query "cluster" cluster_identifier req'.url }))
                >>= doer)
      by_token none = refl
      by_token (some req') = refl

  module _ (provider : String → Option (RequestEditorFn net)) (intercept : RequestEditorFn net)
      (default_doer http_client default_client : HttpRequestDoer net)
      (url events_url token cluster_identifier : String) where
    -- Where the provider accepts the token, both clients can be made, and every request that the one or
    -- the other sends leaves with what the provider adds and with the cluster in its query, by the doer
    -- of the configuration and by the default one; what an editor rejects is not sent.
    pub network_layer-send :
        provider token ≡ some intercept
        → (clients : Client net × Client net) × (network_layer provider default_doer http_client
              default_client url events_url token cluster_identifier
            ≡ some clients)
          × ((req : Request net)
              → (send net clients.0 (some req) []
                  ≡ ret (departs intercept cluster_identifier req >>= http_client))
                × (send net clients.1 (some req) []
                    ≡ ret (departs intercept cluster_identifier req >>= default_client)))
    unfolding network_layer
    network_layer-send accepted = (
      (
        equipped intercept cluster_identifier (slashed url) http_client,
        equipped intercept cluster_identifier (slashed events_url) default_client,
      ),
      rw accepted refl,
      λ req. (
        equipped-send intercept cluster_identifier _ http_client req,
        equipped-send intercept cluster_identifier _ default_client req,
      ),
    )

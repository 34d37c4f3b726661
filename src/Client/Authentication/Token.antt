-- ===== src/Client/Authentication/Token.antt =====
-- `authenticate` of client/client.go: what it reads from a token.
use ff_golang_server_sdk.Common.{
  String, ◌≡◌, ◌≢◌, refl, ◌∙◌, Bool, true, false, Option, none, some, List, [], ◌∷◌, All, eqb,
  if◌then◌else◌, arith,
}
use mathlib.Core.Path.{subst}
use Prim.Native.Char.{code}
use ff_golang_server_sdk.Common.Run.{Run, ret, panic, >>=-eq-ret}
use ff_golang_server_sdk.Go.{Runtime}
use ff_golang_server_sdk.Go.Text.{codes}
use ff_golang_server_sdk.Repository.{Cache, Storage}
use ff_golang_server_sdk.Stream.{Response, failed, not_ok, json200}
use ff_golang_server_sdk.Client.{ClientError, environment_not_present, Parts, CfClient}
use ff_golang_server_sdk.Client.Authentication.{
  Claims, split_dots, finish_setup, set_cluster, set_environment, read_claims, read_token,
  authenticate, retry, init_authentication,
}

-- No code point of the text is that of a dot.
abbrev pub HasNoDot : String → Type 0
HasNoDot s = All (λ n. n ≢ 46) (codes s)

split_dots-single : (s : String) → HasNoDot s → split_dots s ≡ s ∷ []
unfolding split_dots
split_dots-single String.[] h = refl
split_dots-single (String.◌∷◌ ch s) h =
    let apart : eqb (code ch) 46 ≡ false = ground (arith, h.0) in
    rw (split_dots-single s h.1) (rw apart refl)

module _ (rt : Runtime) (parts : Parts) (c : Cache) (s : Storage)
    (decode_claims : String → Option Claims) (clients_made : Bool) where
  -- The client is authenticated, and its environment and its cluster are those that the claims in the
  -- second part of its token name.
  pub record IsAuthenticated (client : CfClient rt parts c s) : Type 0 where
    pub header : String
    pub payload : String
    pub words : List String
    pub claims : Claims
    pub authenticated : client.authenticated ≡ true
    pub split : split_dots client.token ≡ header ∷ payload ∷ words
    pub decoded : decode_claims payload ≡ some claims
    pub environment : claims.environment ≡ some client.environment_id
    pub cluster : claims.cluster_identifier ≡ some client.cluster_identifier

  module _ (client' : CfClient rt parts c s) where
    abbrev Ends : Run (Option ClientError × CfClient rt parts c s) → Type 0
    Ends m = m ≡ ret (none, client') → IsAuthenticated client'

    finish-Ends :
        (client : CfClient rt parts c s)
        → IsAuthenticated (record client { authenticated = true })
        → (made : Bool) → Ends (finish_setup rt parts c s decode_claims clients_made made client)
    finish-Ends client known false h = cc h
    finish-Ends client known true h = by_test client.authenticated h
      where
        by_test :
            (b : Bool)
            → Ends (if b then panic else ret (none, record client { authenticated = true }))
        by_test true k = cc k
        by_test false k =
            let same : record client { authenticated = true } ≡ client' = cc k in
            subst IsAuthenticated same known

    module _ (client : CfClient rt parts c s) (token header payload : String) (words : List String)
        (parted : split_dots token ≡ header ∷ payload ∷ words) (claims : Claims)
        (read : decode_claims payload ≡ some claims) where
      cluster-Ends :
          (environment : String)
          → claims.environment ≡ some environment
          → (o : Option String) → claims.cluster_identifier ≡ o
          → Ends (
              set_cluster rt parts c s decode_claims clients_made o
                (record client { token = token; environment_id = environment }))
      cluster-Ends environment e none f h = cc h
      cluster-Ends environment e (some cluster) f h =
          finish-Ends
            (record client {
              token = token;
              environment_id = environment;
              cluster_identifier = cluster;
            })
            (record {
              header = header;
              payload = payload;
              words = words;
              claims = claims;
              authenticated = refl;
              split = parted;
              decoded = read;
              environment = e;
              cluster = f;
            })
            clients_made h

      environment-Ends : Ends (
          set_environment rt parts c s decode_claims clients_made claims
            (record client { token = token }))
      environment-Ends = by_claim claims.environment refl
        where
          by_claim :
              (o : Option String)
              → claims.environment ≡ o
              → Ends (elim o [
                | none ↦ ret (
                  some environment_not_present,
                  record client { token = token; environment_id = "" },
                )
                | some environment ↦
                    set_cluster rt parts c s decode_claims clients_made claims.cluster_identifier
                      (record client { token = token; environment_id = environment })
              ])
          by_claim none e h = cc h
          by_claim (some environment) e h =
              cluster-Ends environment e claims.cluster_identifier refl h

    token-Ends :
        (client : CfClient rt parts c s) (token : String) (parts' : List String)
        → split_dots token ≡ parts'
        → Ends (
            read_token rt parts c s decode_claims clients_made parts'
              (record client { token = token }))
    token-Ends client token [] e h = cc h
    token-Ends client token (header ∷ []) e h = cc h
    token-Ends client token (header ∷ payload ∷ words) e h =
        by_claims (decode_claims payload) refl h
      where
        by_claims :
            (o : Option Claims)
            → decode_claims payload ≡ o
            → Ends (
                read_claims rt parts c s decode_claims clients_made o
                  (record client { token = token }))
        by_claims none f k = cc k
        by_claims (some claims) f k =
            environment-Ends client token header payload words e claims f k

    authenticate-Ends :
        (client : CfClient rt parts c s) (response : Response String)
        → Ends (authenticate rt parts c s decode_claims clients_made response client)
    unfolding authenticate
    authenticate-Ends client failed h = cc h
    authenticate-Ends client not_ok h = cc h
    authenticate-Ends client (json200 token) h = token-Ends client token (split_dots token) refl h

    -- When the attempts to authenticate end without an error, the client is authenticated, for the
    -- environment and the cluster that its token names.
    pub init_authentication-IsAuthenticated :
        (responses : List (Response String)) (client : CfClient rt parts c s)
        → init_authentication rt parts c s decode_claims clients_made responses client
          ≡ ret (none, client')
        → IsAuthenticated client'
    unfolding init_authentication
    init_authentication-IsAuthenticated [] client h = cc h
    init_authentication-IsAuthenticated (response ∷ responses) client h =
        let attempt = authenticate rt parts c s decode_claims clients_made response client in
        let (r, ran, left) =
          >>=-eq-ret attempt
            (λ r.
              retry rt parts c s decode_claims clients_made
                (λ after.
                  init_authentication rt parts c s decode_claims clients_made responses after)
                r.0 r.1)
            h in
        by_error r.0 r.1 ran left (λ after k. init_authentication-IsAuthenticated responses after k)
      where
        by_error :
            (o : Option ClientError) (after : CfClient rt parts c s)
            → authenticate rt parts c s decode_claims clients_made response client ≡ ret (o, after)
            → retry rt parts c s decode_claims clients_made
                (λ after.
                  init_authentication rt parts c s decode_claims clients_made responses after)
                o
                after
              ≡ ret (none, client')
            → ((a : CfClient rt parts c s)
                → init_authentication rt parts c s decode_claims clients_made responses a
                  ≡ ret (none, client')
                → IsAuthenticated client')
            → IsAuthenticated client'
        by_error none after ran left ih = authenticate-Ends client response (ran ∙ left)
        by_error (some e) after ran left ih = ih after left

  -- A token without a dot makes the client panic, whatever the claims would be.
  pub authenticate-panic :
      (client : CfClient rt parts c s) (token : String)
      → HasNoDot token
      → authenticate rt parts c s decode_claims clients_made (json200 token) client ≡ panic
  unfolding authenticate
  authenticate-panic client token plain = rw (split_dots-single token plain) refl

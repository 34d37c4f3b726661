-- ===== src/Client/Authentication.antt =====
-- `authenticate` and `initAuthentication` of client/client.go.
pub mod Token
use Prim.Native.Char.{code}
use ff_golang_server_sdk.Common.{
  ◌≡◌, refl, String, Bool, true, false, Option, none, some, List, [], ◌∷◌, eqb, if◌then◌else◌,
}
use ff_golang_server_sdk.Common.Run.{Run, ret, panic, ◌>>=◌}
use ff_golang_server_sdk.Go.{Runtime}
use ff_golang_server_sdk.Repository.{Cache, Storage}
use ff_golang_server_sdk.Stream.{Response, failed, not_ok, json200}
use ff_golang_server_sdk.Client.{
  ClientError, request_failed, unauthorized, decode_failed, environment_not_present,
  cluster_not_present, client_setup_failed, Parts, CfClient,
}

-- The claims of a token; `none` where a claim is missing or no text.
pub record Claims : Type 0 where
  pub environment : Option String
  pub cluster_identifier : Option String

-- `strings.Split(s, ".")`
unfoldable pub split_dots : String → List String
split_dots String.[] = "" ∷ []
split_dots (String.◌∷◌ ch s) = elim (split_dots s) [
  | [] ↦ []
  | word ∷ words ↦ if eqb (code ch) 46 then "" ∷ word ∷ words else String.◌∷◌ ch word ∷ words
]

module _ (rt : Runtime) (parts : Parts) (c : Cache) (s : Storage) where
  abbrev Client : Type 0
  Client = CfClient rt parts c s

  -- `jwt.DecodeSegment` and the JSON library, `none` on an error; and whether the clients can be made.
  module _ (decode_claims : String → Option Claims) (clients_made : Bool) where
    -- The close of a channel that is closed panics.
    abbrev pub finish_setup : Bool → Client → Run (Option ClientError × Client)
    finish_setup false client = ret (some client_setup_failed, client)
    finish_setup true client =
        if client.authenticated then panic else ret (none, record client { authenticated = true })

    abbrev pub set_cluster : Option String → Client → Run (Option ClientError × Client)
    set_cluster none client =
        ret (some cluster_not_present, record client { cluster_identifier = "1" })
    set_cluster (some cluster) client =
        finish_setup clients_made (record client { cluster_identifier = cluster })

    -- A failed assertion stores the empty text.
    abbrev pub set_environment : Claims → Client → Run (Option ClientError × Client)
    set_environment claims client = elim claims.environment [
      | none ↦ ret (some environment_not_present, record client { environment_id = "" })
      | some environment ↦
          set_cluster claims.cluster_identifier (record client { environment_id = environment })
    ]

    abbrev pub read_claims : Option Claims → Client → Run (Option ClientError × Client)
    read_claims none client = ret (some decode_failed, client)
    read_claims (some claims) client = set_environment claims client

    -- The index 1 panics on a token without a dot.
    abbrev pub read_token : List String → Client → Run (Option ClientError × Client)
    read_token [] client = panic
    read_token (header ∷ []) client = panic
    read_token (header ∷ payload ∷ words) client = read_claims (decode_claims payload) client

    -- `authenticate`, on what the request gives.
    unfoldable pub authenticate : Response String → Client → Run (Option ClientError × Client)
    unfolding split_dots
    authenticate failed client = ret (some request_failed, client)
    authenticate not_ok client = ret (some unauthorized, client)
    authenticate (json200 token) client =
        read_token (split_dots token) (record client { token = token })

    abbrev pub retry :
        (Client → Run (Option ClientError × Client))
        → Option ClientError
        → Client
        → Run (Option ClientError × Client)
    retry next none client = ret (none, client)
    retry next (some e) client = next client

    -- `initAuthentication`, on what the requests of the minutes give in turn. Behind the last of them it
    -- still waits, with an error.
    unfoldable pub init_authentication :
        List (Response String) → Client → Run (Option ClientError × Client)
    unfolding authenticate
    init_authentication [] client = ret (some request_failed, client)
    init_authentication (response ∷ responses) client = authenticate response client >>= λ r.
        retry (λ after. init_authentication responses after) r.0 r.1

split_test : split_dots "head.body.sign" ≡ "head" ∷ "body" ∷ "sign" ∷ []
unfolding split_dots
split_test = refl

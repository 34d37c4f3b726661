-- ===== src/Http/Calls/Answers.antt =====
-- From the methods of rest/services.gen.go to the value that a caller sees.
use ff_golang_server_sdk.Common.{String, ◌≡◌, ◌↔◌, refl, ap, Option, none, some, List}
use ff_golang_server_sdk.Common.Fallible
use ff_golang_server_sdk.Common.Fallible.{>>=-some}
use ff_golang_server_sdk.Common.Run.{Run, ret, ◌>>=◌, Returns}
use ff_golang_server_sdk.Rest.{FeatureConfig, Segment}
use ff_golang_server_sdk.Stream.{Response, failed, json200}
use ff_golang_server_sdk.Http.{
  Net, Request, RawResponse, RequestEditorFn, HttpRequestDoer, Client, apply_editors, do_request,
  send,
}
use ff_golang_server_sdk.Http.Requests.{
  new_get_feature_config_request, new_get_feature_config_by_identifier_request,
  new_get_all_segments_request, new_get_segment_by_identifier_request,
}
use ff_golang_server_sdk.Http.Parse.{Decoders, parse_plain, parse_full}
use ff_golang_server_sdk.Http.Parse.Values.{
  seen_plain, seen_full, IsSuccess, Gives, parse_plain-Gives, Gives-parse_plain, parse_full-Gives,
  Gives-parse_full,
}
use ff_golang_server_sdk.Http.Calls.{
  parsed, get_feature_config_with_response, get_feature_config_by_identifier_with_response,
  get_all_segments_with_response, get_segment_by_identifier_with_response,
}

module _ (net : Net) where
  -- What an answer with a value goes back to: a request that could be built, the editors, an HTTP
  -- response of status 200 whose content is JSON, and a body that reads as the value.
  pub record Delivered {A : Type 0} (client : Client net) (doer : HttpRequestDoer net)
      (built : Option (Request net)) (req_editors : List (RequestEditorFn net))
      (decode : net.Bytes → Option A) (a : A) : Type 0 where
    pub request : Request net
    pub was_built : built ≡ some request
    pub edited : Request net
    pub was_edited : apply_editors net client request req_editors ≡ some edited
    pub raw : RawResponse net
    pub answered : doer edited ≡ some raw
    pub success : IsSuccess net raw
    pub body : net.Bytes
    pub was_read : raw.body ≡ some body
    pub decoded : decode body ≡ some a

  do_request-some :
      (doer : HttpRequestDoer net) (o : Option (Request net))
      → do_request net (some doer) o ≡ ret (Fallible.◌>>=◌ o doer)
  do_request-some doer none = refl
  do_request-some doer (some req) = refl

  module _ (client : Client net) (doer : HttpRequestDoer net) (has_doer : client.client ≡ some doer)
      (req_editors : List (RequestEditorFn net)) where
    -- What is sent, as one chain.
    abbrev answer : Option (Request net) → Option (RawResponse net)
    answer built =
        Fallible.◌>>=◌ built λ req. Fallible.◌>>=◌ (apply_editors net client req req_editors) doer

    send-answer :
        (built : Option (Request net)) → send net client built req_editors ≡ ret (answer built)
    unfolding send
    send-answer none = refl
    send-answer (some req) =
        rw has_doer (do_request-some doer (apply_editors net client req req_editors))

    module _ {A R : Type 0} (decode : net.Bytes → Option A) (a : A)
        (parse : RawResponse net → Option R) (see : Option R → Response A)
        (unread : see none ≡ failed)
        (gives : (raw : RawResponse net) → (see (parse raw) ≡ json200 a) ↔ Gives net decode a raw)
        (built : Option (Request net)) where
      abbrev Fetched : Type 0
      Fetched =
          (parsed net client parse (send net client built req_editors) >>= λ r. ret (see r))
          ≡ ret (json200 a)

      Fetched-see : Fetched → see (Fallible.◌>>=◌ (answer built) parse) ≡ json200 a
      Fetched-see h =
          cc (h, ap (λ m. parsed net client parse m >>= λ r. ret (see r)) (send-answer built))

      Fetched_iff : Fetched ↔ Delivered client doer built req_editors decode a
      Fetched_iff = (forth, back)
        where
          from_answer :
              (o : Option (RawResponse net))
              → answer built ≡ o
              → see (Fallible.◌>>=◌ o parse) ≡ json200 a
              → Delivered client doer built req_editors decode a
          from_answer none e h = cc (h, unread)
          from_answer (some raw) e h =
              let (request, was_built, rest) = >>=-some built _ raw e in
              let (edited, was_edited, answered) =
                >>=-some (apply_editors net client request req_editors) doer raw rest in
              let (success, body, was_read, decoded) = (gives raw).0 h in
              record {
                request = request;
                was_built = was_built;
                edited = edited;
                was_edited = was_edited;
                raw = raw;
                answered = answered;
                success = success;
                body = body;
                was_read = was_read;
                decoded = decoded;
              }

          forth : Fetched → Delivered client doer built req_editors decode a
          forth h = from_answer (answer built) refl (Fetched-see h)

          back : Delivered client doer built req_editors decode a → Fetched
          back d =
              let found : answer built ≡ some d.raw = rw (d.was_built, d.was_edited) (d.answered) in
              let given : see (parse d.raw) ≡ json200 a =
                (gives d.raw).1 (d.success, d.body, d.was_read, d.decoded) in
              rw (send-answer built, found, given) refl

module _ (net : Net) (client : Client net) (decoders : Decoders net.Bytes) where
  -- What a caller sees of the four requests for flags and segments.
  abbrev pub seen_flags :
      (environment_uuid : String) → List (RequestEditorFn net) → Run (Response (List FeatureConfig))
  seen_flags environment_uuid req_editors =
      get_feature_config_with_response net client decoders environment_uuid req_editors >>= λ r.
      ret (seen_plain net r)

  abbrev pub seen_flag :
      (environment_uuid identifier : String)
      → List (RequestEditorFn net)
      → Run (Response FeatureConfig)
  seen_flag environment_uuid identifier req_editors =
      get_feature_config_by_identifier_with_response net client decoders environment_uuid identifier
        req_editors
      >>= λ r. ret (seen_plain net r)

  abbrev pub seen_segments :
      (environment_uuid : String) → List (RequestEditorFn net) → Run (Response (List Segment))
  seen_segments environment_uuid req_editors =
      get_all_segments_with_response net client decoders environment_uuid req_editors >>= λ r.
      ret (seen_full net r)

  abbrev pub seen_segment :
      (environment_uuid identifier : String) → List (RequestEditorFn net) → Run (Response Segment)
  seen_segment environment_uuid identifier req_editors =
      get_segment_by_identifier_with_response net client decoders environment_uuid identifier
        req_editors
      >>= λ r. ret (seen_full net r)

  module _ (doer : HttpRequestDoer net) (has_doer : client.client ≡ some doer)
      (environment_uuid identifier : String) (req_editors : List (RequestEditorFn net)) where
    by_plain :
        {A : Type 0} (decode : net.Bytes → Option A) (a : A) (built : Option (Request net))
        → ((parsed net client (parse_plain net decode) (send net client built req_editors) >>= λ r.
              ret (seen_plain net r))
            ≡ ret (json200 a))
          ↔ Delivered net client doer built req_editors decode a
    by_plain decode a =
        Fetched_iff net client doer has_doer req_editors decode a (parse_plain net decode)
          (seen_plain net) refl
          (λ raw. (parse_plain-Gives net decode a raw, Gives-parse_plain net decode a raw))

    by_full :
        {A : Type 0} (decode : net.Bytes → Option A) (a : A) (built : Option (Request net))
        → ((parsed net client
                (parse_full net decode decoders.service_error)
                (send net client built req_editors)
              >>= λ r. ret (seen_full net r))
            ≡ ret (json200 a))
          ↔ Delivered net client doer built req_editors decode a
    by_full decode a =
        Fetched_iff net client doer has_doer req_editors decode a
          (parse_full net decode decoders.service_error) (seen_full net) refl
          (λ raw. (
            parse_full-Gives net decode a raw decoders.service_error,
            Gives-parse_full net decode a raw decoders.service_error,
          ))

    seen-Returns :
        {A R : Type 0} (parse : RawResponse net → Option R) (see : Option R → Response A)
        (built : Option (Request net))
        → Returns (parsed net client parse (send net client built req_editors) >>= λ r. ret (see r))
    seen-Returns parse see built = rw (send-answer net client doer has_doer req_editors built) tt

    -- A client that has a doer does not panic.
    pub seen_flag-Returns : Returns (seen_flag environment_uuid identifier req_editors)
    unfolding get_feature_config_by_identifier_with_response
    seen_flag-Returns =
        seen-Returns (parse_plain net decoders.feature_config) (seen_plain net) (
          new_get_feature_config_by_identifier_request net client.server environment_uuid
            identifier)

    pub seen_segment-Returns : Returns (seen_segment environment_uuid identifier req_editors)
    unfolding get_segment_by_identifier_with_response
    seen_segment-Returns =
        seen-Returns (parse_full net decoders.segment decoders.service_error) (seen_full net)
          (new_get_segment_by_identifier_request net client.server environment_uuid identifier)

    -- On a client that has a doer, each of the four requests for flags and for segments gives a value
    -- exactly when its request can be built and edited, the doer answers it with status 200 and JSON
    -- content, and the body can be read and decodes to that value.
    pub seen_iff :
        ((fcs : List FeatureConfig)
          → (seen_flags environment_uuid req_editors ≡ ret (json200 fcs))
            ↔ Delivered net client doer
                (new_get_feature_config_request net client.server environment_uuid)
                req_editors
                decoders.feature_configs
                fcs)
        × ((fc : FeatureConfig)
            → (seen_flag environment_uuid identifier req_editors ≡ ret (json200 fc))
              ↔ Delivered net client doer
                  (new_get_feature_config_by_identifier_request net client.server environment_uuid
                    identifier)
                  req_editors
                  decoders.feature_config
                  fc)
        × ((segs : List Segment)
            → (seen_segments environment_uuid req_editors ≡ ret (json200 segs))
              ↔ Delivered net client doer
                  (new_get_all_segments_request net client.server environment_uuid)
                  req_editors
                  decoders.segments
                  segs)
        × ((seg : Segment)
            → (seen_segment environment_uuid identifier req_editors ≡ ret (json200 seg))
              ↔ Delivered net client doer
                  (new_get_segment_by_identifier_request net client.server environment_uuid
                    identifier)
                  req_editors
                  decoders.segment
                  seg)
    unfolding get_feature_config_with_response get_feature_config_by_identifier_with_response
        get_all_segments_with_response get_segment_by_identifier_with_response
    seen_iff = (
      λ fcs. by_plain decoders.feature_configs fcs _,
      λ fc. by_plain decoders.feature_config fc _,
      λ segs. by_full decoders.segments segs _,
      λ seg. by_full decoders.segment seg _,
    )

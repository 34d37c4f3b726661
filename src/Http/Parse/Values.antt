-- ===== src/Http/Parse/Values.antt =====
-- What the callers of rest/services.gen.go see of an answer: client/client.go and stream/sse.go look at
-- the error and at `JSON200`, and at nothing else. Which raw responses give a value.
use ff_golang_server_sdk.Common.{
  arith, ◌≡◌, ◌≢◌, refl, ap, Bool, true, false, Option, none, some, if◌then◌else◌,
}
use ff_golang_server_sdk.Common.Fallible
use ff_golang_server_sdk.Common.Fallible.{>>=-some}
use ff_golang_server_sdk.Go.Text.{contains_text}
use ff_golang_server_sdk.Rest.{ServiceError}
use ff_golang_server_sdk.Stream.{Response, failed, not_ok, json200}
use ff_golang_server_sdk.Http.{Net, RawResponse}
use ff_golang_server_sdk.Http.Parse.{
  PlainResponse, FullResponse, is_json, plain, read_plain, full, read_full, read_failure,
  parse_plain, parse_full,
}

abbrev pub seen : {A : Type 0} → Option A → Response A
seen none = not_ok
seen (some a) = json200 a

module _ (net : Net) where
  abbrev pub seen_plain : {A : Type 0} → Option (PlainResponse net A) → Response A
  seen_plain none = failed
  seen_plain (some response) = seen response.json200

  abbrev pub seen_full : {A : Type 0} → Option (FullResponse net A) → Response A
  seen_full none = failed
  seen_full (some response) = seen response.json200

  -- Status 200, and content that is JSON by its type.
  abbrev pub IsSuccess : RawResponse net → Type 0
  IsSuccess raw = (contains_text raw.content_type "json" ≡ true) × (raw.status_code ≡ 200)

  is_json-IsSuccess : (raw : RawResponse net) → is_json net raw 200 ≡ true → IsSuccess raw
  unfolding is_json
  is_json-IsSuccess raw h = (ground (h, arith), ground (h, arith))

  IsSuccess-is_json : (raw : RawResponse net) → IsSuccess raw → is_json net raw 200 ≡ true
  unfolding is_json
  IsSuccess-is_json raw (typed, success) = ground (typed, success, arith)

  module _ {A : Type 0} (decode : net.Bytes → Option A) (a : A) (raw : RawResponse net) where
    -- What a raw response needs to give the value.
    abbrev pub Gives : Type 0
    Gives = IsSuccess raw × (body : net.Bytes) × (raw.body ≡ some body) × (decode body ≡ some a)

    pub parse_plain-Gives : seen_plain (parse_plain net decode raw) ≡ json200 a → Gives
    unfolding parse_plain
    parse_plain-Gives h = by_body raw.body refl h
      where
        by_value :
            (body : net.Bytes)
            → raw.body ≡ some body
            → is_json net raw 200 ≡ true
            → (o : Option A) → decode body ≡ o
            → seen_plain (
                Fallible.◌>>=◌ o
                  λ dest. some (record (plain net decode raw body) { json200 = some dest }))
              ≡ json200 a
            → Gives
        by_value body e f none g h = cc h
        by_value body e f (some x) g h = (is_json-IsSuccess raw f, body, e, cc (g, h))

        by_status :
            (body : net.Bytes)
            → raw.body ≡ some body
            → (b : Bool) → is_json net raw 200 ≡ b
            → seen_plain (
                if b
                then (Fallible.◌>>=◌
                    (decode body)
                    λ dest. some (record (plain net decode raw body) { json200 = some dest }))
                else some (plain net decode raw body))
              ≡ json200 a
            → Gives
        by_status body e true f h = by_value body e f (decode body) refl h
        by_status body e false f h = cc h

        by_body :
            (o : Option net.Bytes)
            → raw.body ≡ o
            → seen_plain (Fallible.◌>>=◌ o λ body. read_plain net decode raw body) ≡ json200 a
            → Gives
        by_body none e h = cc h
        by_body (some body) e h = by_status body e (is_json net raw 200) refl h

    pub Gives-parse_plain : Gives → seen_plain (parse_plain net decode raw) ≡ json200 a
    unfolding parse_plain
    Gives-parse_plain (f, body, e, g) = rw (e, IsSuccess-is_json raw f, g) refl

    module _ (decode_error : net.Bytes → Option ServiceError) where
      pub Gives-parse_full : Gives → seen_full (parse_full net decode decode_error raw) ≡ json200 a
      unfolding parse_full
      Gives-parse_full (f, body, e, g) = rw (e, IsSuccess-is_json raw f, g) refl

      -- The value is not there.
      abbrev Without : Option (FullResponse net A) → Type 0
      Without response = seen_full response ≢ json200 a

      if-Without :
          (b : Bool) (x y : Option (FullResponse net A))
          → Without x
          → Without y
          → Without (if b then x else y)
      if-Without true x y h k = h
      if-Without false x y h k = k

      read_error-Without :
          (o : Option ServiceError) (set : ServiceError → FullResponse net A)
          → ((e : ServiceError) → (set e).json200 ≡ none)
          → Without (Fallible.◌>>=◌ o λ dest. some (set dest))
      read_error-Without none set h k = cc k
      read_error-Without (some e) set h k = cc (ap seen (h e), k)

      read_failure-Without :
          (body : net.Bytes) → Without (read_failure net decode decode_error raw body)
      read_failure-Without body =
          let o = decode_error body in
          if-Without (is_json net raw 401) _ _ (read_error-Without o _ (λ e. refl)) (
            if-Without (is_json net raw 403) _ _ (read_error-Without o _ (λ e. refl)) (
              if-Without (is_json net raw 404) _ _ (read_error-Without o _ (λ e. refl)) (
                if-Without (is_json net raw 500) _ _ (read_error-Without o _ (λ e. refl))
                  (λ k. cc k))))

      pub parse_full-Gives : seen_full (parse_full net decode decode_error raw) ≡ json200 a → Gives
      unfolding parse_full
      parse_full-Gives h = by_body raw.body refl h
        where
          by_value :
              (body : net.Bytes)
              → raw.body ≡ some body
              → is_json net raw 200 ≡ true
              → (o : Option A) → decode body ≡ o
              → seen_full (
                  Fallible.◌>>=◌ o λ dest.
                    some (record (full net decode decode_error raw body) { json200 = some dest }))
                ≡ json200 a
              → Gives
          by_value body e f none g h = cc h
          by_value body e f (some x) g h = (is_json-IsSuccess raw f, body, e, cc (g, h))

          by_status :
              (body : net.Bytes)
              → raw.body ≡ some body
              → (b : Bool) → is_json net raw 200 ≡ b
              → seen_full (
                  if b
                  then (Fallible.◌>>=◌ (decode body) λ dest.
                      some (record (full net decode decode_error raw body) { json200 = some dest }))
                  else read_failure net decode decode_error raw body)
                ≡ json200 a
              → Gives
          by_status body e true f h = by_value body e f (decode body) refl h
          by_status body e false f h = absurd (read_failure-Without body h)

          by_body :
              (o : Option net.Bytes)
              → raw.body ≡ o
              → seen_full (Fallible.◌>>=◌ o λ body. read_full net decode decode_error raw body)
                ≡ json200 a
              → Gives
          by_body none e h = cc h
          by_body (some body) e h = by_status body e (is_json net raw 200) refl h

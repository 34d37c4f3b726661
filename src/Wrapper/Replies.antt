-- ===== src/Wrapper/Replies.antt =====
-- What the handlers of test_wrapper/handlers/handlers.go answer.
use ff_golang_server_sdk.Common.{
  ℕ, suc, ◌<◌, String, ◌≡◌, refl, ap, Bool, true, false, ◌||◌, Option, none, some, ◌==◌,
  if◌then◌else◌, ◌⊎◌, inl, inr,
}
use ff_golang_server_sdk.Common.Int.{negsuc}
use ff_golang_server_sdk.Common.Run.{Run, ret, panic, no_fuel, ◌>>=◌, Result, ok, err, Returns}
use ff_golang_server_sdk.Go.{Runtime}
use ff_golang_server_sdk.Go.Text.{lower_is}
use ff_golang_server_sdk.Go.Number.{format_int, format_bool, parse_int}
use ff_golang_server_sdk.Errors.{Error}
use ff_golang_server_sdk.Target.{Target}
use ff_golang_server_sdk.Evaluator.{Query}
use ff_golang_server_sdk.Evaluator.Prerequisite.Total.{IsSound}
use ff_golang_server_sdk.Evaluator.Variation
use ff_golang_server_sdk.Evaluator.Variation.{evaluate, typed_variation}
use ff_golang_server_sdk.Evaluator.Variation.Total.{typed_variation-Returns}
use ff_golang_server_sdk.Client.{ClientError}
use ff_golang_server_sdk.Client.Evaluation.{
  Queue, evaluator, no_error, post_evaluate_processor, bool_variation, string_variation,
  int_variation, number_variation, json_variation,
}
use ff_golang_server_sdk.Wrapper.{
  FlagCheckBody, Formats, Reply, flag_check_response, target_of, written, format_json,
  variation_text, get_variant, get_flag_value, flag_reply,
}

module _ (rt : Runtime) (formats : Formats rt) (depth fuel : ℕ) (q : Query) where
  -- An answer of the client without an error.
  abbrev Answers : Run ((String × Option ClientError) × Queue rt) → Type 0
  Answers m = (text : String) × (queue : Queue rt) × (m ≡ ret ((text, none), queue))

  written-Answers :
      {A : Type 0} (format : A → String) (m : Run (A × Queue rt))
      → Returns m
      → Answers (written rt formats depth fuel q format (m >>= λ r. ret (no_error rt r)))
  written-Answers format (ret (a, queue)) h = (format a, queue, refl)
  written-Answers format panic h = absurd h
  written-Answers format no_fuel h = absurd h

  if-Answers :
      (b : Bool) {m n : Run ((String × Option ClientError) × Queue rt)}
      → Answers m
      → Answers n
      → Answers (if b then m else n)
  if-Answers true h k = h
  if-Answers false h k = k

module _ (rt : Runtime) (formats : Formats rt) (depth fuel : ℕ) (q : Query) (rank need : String → ℕ)
    (sound : IsSound q rank need depth) where
  variation_text-Answers :
      (kind key : String) (t : Option (Target rt.Float)) (queue : Queue rt)
      → need key < fuel
      → Answers rt formats
          (suc depth)
          fuel
          q
          (variation_text rt formats (suc depth) fuel q kind key t queue)
  unfolding variation_text bool_variation string_variation int_variation number_variation
      json_variation Variation.bool_variation Variation.string_variation Variation.int_variation
      Variation.number_variation Variation.json_variation
  variation_text-Answers kind key t queue low =
      if-Answers rt formats (suc depth) fuel q (kind == "boolean" || kind == "bool")
        (answers format_bool false (λ s. some (lower_is rt s "true")) "boolean")
        (if-Answers rt formats (suc depth) fuel q (kind == "string")
          (answers (λ s. s) "" some "string")
          (if-Answers rt formats (suc depth) fuel q (kind == "int")
            (answers format_int (negsuc 0) parse_int "int")
            (if-Answers rt formats (suc depth) fuel q (kind == "number")
              (answers formats.format_float formats.minus_one rt.parse_float "int")
              (if-Answers rt formats (suc depth) fuel q (kind == "json")
                (answers (format_json rt formats (suc depth) fuel q) formats.empty_json rt.unmarshal
                  "json")
                ("failed to get flag", queue, refl)))))
    where
      answers :
          {A : Type 0} (format : A → String) (default_value : A) (read : String → Option A)
          (type : String)
          → Answers rt formats (suc depth) fuel q (
              written rt formats (suc depth) fuel q format (
                typed_variation rt
                  (suc depth)
                  fuel
                  (evaluator rt q)
                  default_value
                  read
                  key
                  t
                  type
                  queue
                >>= λ r. ret (no_error rt r)))
      answers format default_value read type =
          written-Answers rt formats (suc depth) fuel q format _ (
            typed_variation-Returns rt depth fuel q (some (post_evaluate_processor rt)) rank need
              sound key t low default_value read type queue)

  -- The body names a flag that the fuel suffices for.
  abbrev pub IsLow : Result String FlagCheckBody → Type 0
  IsLow (err message) = Unit
  IsLow (ok flag_body) = need flag_body.flag_key < fuel

  abbrev pub status_of : Result String FlagCheckBody → ℕ
  status_of (err message) = 500
  status_of (ok flag_body) = 200

  -- `GetFlagValue` answers every request: with status 500 when the body does not bind, and otherwise with
  -- status 200, whatever the flag, the kind and the target in the body are, where the data of the query
  -- does not run in circles, its flags are well formed and the fuel passes the flag's rank.
  pub get_flag_value-total :
      (bound : Result String FlagCheckBody) (queue : Queue rt)
      → IsLow bound
      → (reply : Reply) × (queue' : Queue rt) × (get_flag_value rt formats
            (suc depth)
            fuel
            q
            bound
            queue
          ≡ ret (reply, queue'))
        × (reply.status ≡ status_of bound)
  unfolding get_flag_value get_variant
  get_flag_value-total (err message) queue low = (_, _, refl, refl)
  get_flag_value-total (ok flag_body) queue low =
      let (text, queue', e) =
        variation_text-Answers flag_body.flag_kind flag_body.flag_key
          (target_of rt flag_body.target) queue low in
      (
        flag_reply rt formats (suc depth) fuel q flag_body.flag_key (text, none),
        queue',
        ap
            (λ m.
              m >>= λ r. ret (flag_reply rt formats (suc depth) fuel q flag_body.flag_key r.0, r.1))
            e,
        refl,
      )

typed_variation-unknown :
    (rt : Runtime) (depth fuel : ℕ) (q : Query) {A : Type 0} (default_value : A)
    (read : String → Option A) (key : String) (t : Option (Target rt.Float)) (type : String)
    (queue : Queue rt) (e : Error)
    → q.get_flag key ≡ err e
    → typed_variation rt depth fuel (evaluator rt q) default_value read key t type queue
      ≡ ret (default_value, queue)
unfolding typed_variation evaluate
typed_variation-unknown rt depth fuel q default_value read key t type queue e unknown =
    rw unknown refl

if-text :
    {rt : Runtime} (queue : Queue rt) (b : Bool)
    {m n : Run ((String × Option ClientError) × Queue rt)} {x y : String}
    → m ≡ ret ((x, none), queue)
    → n ≡ ret ((y, none), queue)
    → (if b then m else n) ≡ ret ((if b then x else y, none), queue)
if-text queue true h k = h
if-text queue false h k = k

module _ (rt : Runtime) (formats : Formats rt) (depth fuel : ℕ) (q : Query) where
  -- The text of the default that the wrapper gives for a kind of flag.
  abbrev pub default_text : (kind : String) → String
  default_text kind =
      if kind == "boolean" || kind == "bool"
      then "false"
      else if kind == "string"
      then ""
      else if kind == "int"
      then "-1"
      else if kind == "number"
      then formats.format_float formats.minus_one
      else if kind == "json"
      then format_json rt formats depth fuel q formats.empty_json
      else "failed to get flag"

  -- A kind that there is not.
  abbrev pub IsNoKind : String → Type 0
  IsNoKind kind =
      ((kind == "boolean") ≡ false)
      × ((kind == "bool") ≡ false)
      × ((kind == "string") ≡ false)
      × ((kind == "int") ≡ false)
      × ((kind == "number") ≡ false)
      × ((kind == "json") ≡ false)

  -- For a flag that the repository does not know, `GetFlagValue` answers with status 200 and the default of
  -- the kind. For a kind that there is not it answers, whatever the flag, with status 200 and
  -- the text `failed to get flag` as the value. Neither counts in the analytics.
  pub get_flag_value-unknown :
      (flag_body : FlagCheckBody) (queue : Queue rt)
      → ((e : Error) × (q.get_flag flag_body.flag_key ≡ err e)) ⊎ IsNoKind flag_body.flag_kind
      → get_flag_value rt formats depth fuel q (ok flag_body) queue
        ≡ ret (
          record {
            status = 200;
            body = flag_check_response flag_body.flag_key (default_text flag_body.flag_kind);
          },
          queue,
        )
  unfolding get_flag_value get_variant variation_text bool_variation string_variation int_variation
      number_variation json_variation Variation.bool_variation Variation.string_variation
      Variation.int_variation Variation.number_variation Variation.json_variation format_int
      format_bool
  get_flag_value-unknown flag_body queue (inr (boolean, bool, string, int, number, json)) =
      rw (boolean, bool, string, int, number, json) refl
  get_flag_value-unknown flag_body queue (inl (e, unknown)) =
      ap (λ m. m >>= λ r. ret (flag_reply rt formats depth fuel q flag_body.flag_key r.0, r.1))
        (if-text queue (kind == "boolean" || kind == "bool")
          (gives format_bool false (λ s. some (lower_is rt s "true")) "boolean")
          (if-text queue (kind == "string") (gives (λ s. s) "" some "string") (
            if-text queue (kind == "int") (gives format_int (negsuc 0) parse_int "int") (
              if-text queue (kind == "number")
                (gives formats.format_float formats.minus_one rt.parse_float "int")
                (if-text queue (kind == "json")
                  (gives (format_json rt formats depth fuel q) formats.empty_json rt.unmarshal
                    "json")
                  refl)))))
    where
      kind : String
      kind = flag_body.flag_kind

      gives :
          {A : Type 0} (format : A → String) (default_value : A) (read : String → Option A)
          (type : String)
          → written rt formats depth fuel q format (
              typed_variation rt depth fuel
                (evaluator rt q)
                default_value
                read
                flag_body.flag_key
                (target_of rt flag_body.target)
                type
                queue
              >>= λ r. ret (no_error rt r))
            ≡ ret ((format default_value, none), queue)
      gives format default_value read type =
          ap (λ m. written rt formats depth fuel q format (m >>= λ r. ret (no_error rt r)))
            (typed_variation-unknown rt depth fuel q default_value read flag_body.flag_key
              (target_of rt flag_body.target) type queue e unknown)

-- ===== src/Examples/Serving.antt =====
-- The test wrapper on the sample flags.
use ff_golang_server_sdk.Common.{String, ◌≡◌, refl, arith, none, some, [], inr}
use ff_golang_server_sdk.Common.Run.{ok, ret}
use ff_golang_server_sdk.Client.Evaluation.{Queue}
use ff_golang_server_sdk.Wrapper.{
  FlagCheckBody, Formats, Reply, flag_check_response, get_flag_value,
}
use ff_golang_server_sdk.Wrapper.Replies.{
  status_of, get_flag_value-total, default_text, get_flag_value-unknown,
}
use ff_golang_server_sdk.Samples.{runtime}
use ff_golang_server_sdk.Samples.Flags.{query, rank, need, query-IsSound}

abbrev formats : Formats runtime
formats = record {
  minus_one = 1;
  empty_json = "{}";
  format_float = λ x. "-1";
  marshal = some;
  error_text = λ e. "error";
}

abbrev asks : (key kind : String) → FlagCheckBody
asks key kind = record {
  flag_key = key;
  flag_kind = kind;
  target = some (record { attributes = none; target_identifier = some "ann"; target_name = none });
}

get_flag_value-total_example :
    (reply : Reply) × (queue' : Queue runtime) × (get_flag_value runtime formats 2 2 query
        (ok (asks "dark_mode" "boolean"))
        []
      ≡ ret (reply, queue'))
    × (reply.status
        ≡ status_of runtime formats 1 2 query rank need query-IsSound
            (ok (asks "dark_mode" "boolean")))
get_flag_value-total_example =
    get_flag_value-total runtime formats 1 2 query rank need query-IsSound
      (ok (asks "dark_mode" "boolean")) [] (omega arith)

get_flag_value-unknown_example :
    get_flag_value runtime formats 2 2 query (ok (asks "dark_mode" "colour")) []
    ≡ ret (
      record {
        status = 200;
        body = flag_check_response "dark_mode" (default_text runtime formats 2 2 query "colour");
      },
      [],
    )
get_flag_value-unknown_example =
    get_flag_value-unknown runtime formats 2 2 query (asks "dark_mode" "colour") []
      (inr (refl, refl, refl, refl, refl, refl))

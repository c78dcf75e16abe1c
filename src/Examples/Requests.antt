-- ===== src/Examples/Requests.antt =====
-- Requests through the gateway, with a format that has one character for a message.
use shimiaocheng_llm.Prelude.{
  ℕ, ◌≡◌, ◌≤◌, refl, true, false, List, [], ◌∷◌, ◌++◌, none, some, Text, text, text_eq, arith, map,
  length, lookup, pos, negsuc, if◌then◌else◌,
}
use shimiaocheng_llm.Quota.Gate.{OnlyRow}
use shimiaocheng_llm.Float64.{ceil_mul_ℤ, ceil_mul, round_53, excess, round_even, ceil_div}
use shimiaocheng_llm.Proxy.Json.{Json, Usage, put}
use shimiaocheng_llm.Proxy.Body.{compact_messages_to_budget, is_system, try_build}
use shimiaocheng_llm.Proxy.Body.Compact.{
  Oversized, Fits, history, build, compact_messages_to_budget-largest,
}
use shimiaocheng_llm.Proxy.Exchange.{
  Db, Faults, Call, Upstream, billed_tokens, handle_sync, handle_stream,
}
use shimiaocheng_llm.Proxy.Exchange.Settle.{Executes}
use shimiaocheng_llm.Proxy.Exchange.Stream.{stream_row, handle_stream-settles}
use shimiaocheng_llm.Proxy.Exchange.Logs.{Logged, handle_sync-logs}
use shimiaocheng_llm.Proxy.Exchange.Isolation.{SameRow}
use shimiaocheng_llm.Proxy.Handler.{Environment, Handler, HttpRequest, World}
use shimiaocheng_llm.Proxy.Handler.Serve.{Send, serve_http}
use shimiaocheng_llm.Proxy.Handler.Path.{AllExecute, CallSpec, charge_call-refines}
use shimiaocheng_llm.Proxy.Handler.Isolation.{serve_http-isolates}
use shimiaocheng_llm.Proxy.Handler.Counter.{counter, serve_http-counter}
use shimiaocheng_llm.Examples.Data.{layout, now, sample, rows, rows-IsUnique, rows-sample}

pub joined : List Text → Text
joined [] = []
joined (t ∷ ts) = t ++ joined ts

abbrev spent : Usage
spent = record { prompt_tokens = pos 100; completion_tokens = pos 21; total_tokens = pos 121 }

-- The message "s" is of the system.
abbrev json : Json
json = record {
  object_of = λ t. some ((text "messages", t) ∷ []);
  array_of = λ t. some (map (λ c. c ∷ []) t);
  parts_of = λ t. none;
  role_of = λ t. some (if text_eq t (text "s") then text "system" else text "user");
  model_of = λ t. none;
  request_of = λ t. some (text "glm", false);
  usage_of = λ t. some spent;
  chunk_usage_of = λ t. some (some spent);
  from_object = λ m. lookup text_eq (text "messages") m;
  from_array = λ ts. some (joined ts);
  from_string = λ t. t;
}

-- "asbcd" within three bytes: the two newest messages of the history are kept, behind the system's.
abbrev body : Text
body = text "asbcd"

body-Oversized :
    Oversized json body 3
      ((text "messages", body) ∷ [])
      (text "a")
      (text "s" ∷ text "b" ∷ text "c" ∷ text "d" ∷ [])
unfolding text_eq
body-Oversized = record {
  messages = body;
  limited = refl;
  over = refl;
  object = refl;
  field = refl;
  array = refl;
}

abbrev messages : List Text
messages = text "a" ∷ text "s" ∷ text "b" ∷ text "c" ∷ text "d" ∷ []

body-Fits : Fits (build json ((text "messages", body) ∷ []) messages) 3 2 (text "scd")
unfolding text_eq is_system try_build joined put
body-Fits = record { built = refl; small = omega arith }

compact_messages_to_budget-largest_example :
    (k' : ℕ) × (out' : Text) × (2 ≤ k')
    × (k' ≤ length (history json messages))
    × Fits (build json ((text "messages", body) ∷ []) messages) 3 k' out'
    × (compact_messages_to_budget json body 3 ≡ out')
unfolding is_system text_eq
compact_messages_to_budget-largest_example =
    compact_messages_to_budget-largest json body 3 2 ((text "messages", body) ∷ []) (text "a")
      (text "s" ∷ text "b" ∷ text "c" ∷ text "d" ∷ []) (text "scd") body-Oversized body-Fits
      (omega arith) (omega arith)

abbrev pub faults : Faults
faults = record {
  fixed_reads = true;
  multiplier_reads = true;
  gate_reads = true;
  gate_writes = true;
  label_reads = true;
  refund_writes = true;
  token_writes = true;
  log_writes = true;
}

-- Two calls of user 7 at a multiplier of 3/2.
abbrev pub call : Call
call = record {
  user_id = 7;
  model = text "glm-5.2";
  request_model = text "glm";
  provider_id = text "zhipu";
  effective_calls = 2;
  multiplier = record { mantissa = 3; shift = 1 };
  latency_ms = 40;
}

abbrev answer : Upstream
answer = record {
  built = true;
  transport_error = none;
  read_error = none;
  status = 500;
  body = text "oops";
  lines = [];
  flusher = true;
}

-- A stream whose client leaves after its first line.
abbrev stream : Upstream
stream = record answer {
  status = 200;
  lines = (text "data: a", false) ∷ (text "data: b", true) ∷ [];
}

abbrev pub db : Db
db = record { quotas = rows; call_logs = [] }

faults-Executes : Executes faults
faults-Executes = record { refunds = refl; tokens = refl }

handle_stream-settles_example :
    OnlyRow 7
      (stream_row json layout now call stream sample)
      rows
      (handle_stream json layout faults now call stream db).0.quotas
handle_stream-settles_example =
    handle_stream-settles json layout faults now call stream db sample faults-Executes refl refl
      rows-sample

handle_sync-logs_example : Logged call db (handle_sync json layout faults now call answer db)
handle_sync-logs_example = handle_sync-logs json layout faults now call answer db refl refl

abbrev pub environment : Environment
environment = record {
  json = json;
  layout = layout;
  parse_datetime = λ t. none;
  fold = λ c. c;
  provider_order = λ m. m;
  mapping_order = λ m. m;
}

pub faults-AllExecute : AllExecute faults
faults-AllExecute = record { reads = refl; writes = refl; labels = refl; rest = faults-Executes }

charge_call-refines_example : CallSpec environment faults now call false answer db sample
charge_call-refines_example =
    charge_call-refines environment faults now call false answer db sample faults-AllExecute refl
      refl rows-IsUnique rows-sample

-- A gateway without a router, that sends to one endpoint.
abbrev handler : Handler
handler = record {
  api_key_getter = some (text "key");
  endpoint_getter = some (text "https://z.example");
  quota_checker = true;
  multiplier_eng = true;
  router = none;
  compaction_off = false;
}

abbrev pub http_request : HttpRequest
http_request = record {
  user_id = 7;
  max_concurrency = 2;
  max_body_size = 0;
  route_mode = text "auto";
  fixed_provider = [];
  body = some body;
  latency_ms = 40;
}

abbrev pub world : World
world = record {
  store = record { generation = 0; entry = some (pos 1) };
  db = db;
  multipliers = record { rows = []; next_id = 1 };
}

abbrev send : Send
send endpoint key sent = answer

serve_http-isolates_example :
    SameRow 8 rows (serve_http environment handler faults now send http_request world).0.db.quotas
serve_http-isolates_example =
    serve_http-isolates environment handler faults now send http_request world 8 (λ e. omega arith)

serve_http-counter_example :
    counter (serve_http environment handler faults now send http_request world).0.store ≡ pos 1
serve_http-counter_example =
    serve_http-counter environment handler faults now send http_request world refl

-- A negative Token number is billed as the source computes it: -4.5 becomes -4, which is not added.
negative_billed : billed_tokens call (record spent { prompt_tokens = negsuc 23 }) ≡ negsuc 3
unfolding billed_tokens ceil_mul_ℤ ceil_mul round_53 excess round_even ceil_div
negative_billed = refl

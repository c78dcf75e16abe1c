-- ===== src/Proxy/Exchange.antt =====
-- handleSync, ExtractTokenUsage and BuildUpstreamRequest's outcome in internal/proxy/handler.go and
-- handleStream in internal/proxy/stream.go, and InsertCallLog of internal/models/call_log.go: what
-- a request does to the database after its calls have been deducted.
pub mod Settle
pub mod Stream
pub mod Logs
pub mod Isolation
use shimiaocheng_llm.Prelude.{
  ℕ, ◌+◌, ◌/◌, ◌%◌, Bool, true, false, not, ◌||◌, List, [], ◌∷◌, ◌++◌, Option, none, some, Text,
  text, text_eq, leb, ◌==◌, if◌then◌else◌, ℤ, pos, ◌+ℤ◌,
}
use shimiaocheng_llm.Float64.{Float64, ceil_mul_ℤ}
use shimiaocheng_llm.GoTime.{Time, Layout}
use shimiaocheng_llm.TimeUtil.{trim_space}
use shimiaocheng_llm.Quota.{Quota, Reply, ok, db_error, panic}
use shimiaocheng_llm.Quota.Usage.{refund_quota_usage, add_token_usage}
use shimiaocheng_llm.Proxy.Json.{Json, Usage}
use shimiaocheng_llm.Proxy.Body.{after_prefix, replace_first, model_field, rewrite_response_model}

-- The columns of a row of call_logs that the caller gives; `raw_total_tokens` is computed.
pub record CallLog : Type 0 where
  pub user_id : ℕ
  pub model : Text
  pub provider_id : Text
  pub prompt_tokens : ℤ
  pub completion_tokens : ℤ
  pub total_tokens : ℤ
  pub raw_total_tokens : ℤ
  pub effective_calls : ℕ
  pub multiplier_used : Float64
  pub status_code : ℕ
  pub latency_ms : ℕ
  pub error_msg : Text

pub record Db : Type 0 where
  pub quotas : List Quota
  pub call_logs : List CallLog

-- Which of the statements of a request the database executes.
pub record Faults : Type 0 where
  pub fixed_reads : Bool
  pub multiplier_reads : Bool
  pub gate_reads : Bool
  pub gate_writes : Bool
  pub label_reads : Bool
  pub refund_writes : Bool
  pub token_writes : Bool
  pub log_writes : Bool

-- `InsertCallLog`; its callers only log an error.
unfoldable pub insert_call_log : Bool → CallLog → Db → Db
insert_call_log writes log db =
    let row = record log {
      provider_id = if text_eq log.provider_id [] then text "zhipu" else log.provider_id;
      raw_total_tokens = log.prompt_tokens +ℤ log.completion_tokens;
    } in
    if writes then record db { call_logs = db.call_logs ++ row ∷ [] } else db

-- A statement on quotas whose error is only logged.
unfoldable pub settle : Db → Reply (List Quota) → Db
settle db (ok rows) = record db { quotas = rows }
settle db db_error = db
settle db panic = db

-- The arguments of the two handlers.
pub record Call : Type 0 where
  pub user_id : ℕ
  pub model : Text
  pub request_model : Text
  pub provider_id : Text
  pub effective_calls : ℕ
  pub multiplier : Float64
  pub latency_ms : ℕ

-- What the upstream does with the request: the request can be built; the transport, and then the
-- reading of a body, end with no error; the status; the body, and for a stream its lines, each with
-- whether the client has left when it arrives. `flusher`: the client's connection can be flushed.
pub record Upstream : Type 0 where
  pub built : Bool
  pub transport_error : Option Text
  pub read_error : Option Text
  pub status : ℕ
  pub body : Text
  pub lines : List (Text × Bool)
  pub flusher : Bool

pub data ErrorType : Type 0 where
  not_authenticated concurrency_limit_exceeded request_entity_too_large bad_request : ErrorType
  provider_unavailable no_provider internal_error upstream_error passthrough_disabled : ErrorType
  quota_exceeded token_5h_quota_exceeded token_week_quota_exceeded token_quota_exceeded : ErrorType

-- What the client gets. `panicked` is a nil pointer that the code follows.
pub data Response : Type 0 where
  proxy_error : ℕ → ErrorType → Response
  forwarded : ℕ → Text → Response
  streamed : List Text → Response
  panicked : Response

abbrev pub no_usage : Usage
no_usage = record { prompt_tokens = pos 0; completion_tokens = pos 0; total_tokens = pos 0 }

-- The row that a call writes.
abbrev pub log_row : Call → Usage → ℕ → Text → CallLog
log_row c u status error_msg = record {
  user_id = c.user_id;
  model = c.model;
  provider_id = c.provider_id;
  prompt_tokens = u.prompt_tokens;
  completion_tokens = u.completion_tokens;
  total_tokens = u.total_tokens;
  raw_total_tokens = pos 0;
  effective_calls = c.effective_calls;
  multiplier_used = c.multiplier;
  status_code = status;
  latency_ms = c.latency_ms;
  error_msg = error_msg;
}

-- `RefundQuotaUsage` and `AddTokenUsage` as the handlers call them.
unfoldable pub refund_call : Layout → Faults → Time → Call → Db → Db
unfolding settle
refund_call l f now c db =
    settle db (refund_quota_usage l f.refund_writes c.user_id c.effective_calls now db.quotas)

-- `billedTokens`.
unfoldable pub billed_tokens : Call → Usage → ℤ
billed_tokens c u = ceil_mul_ℤ (u.prompt_tokens +ℤ u.completion_tokens) c.multiplier

unfoldable pub bill_call : Faults → Call → Usage → Db → Db
unfolding settle billed_tokens
bill_call f c u db =
    settle db (add_token_usage f.token_writes c.user_id (billed_tokens c u) db.quotas)

unfoldable pub log_call : Faults → Call → Usage → ℕ → Text → Db → Db
log_call f c u status error_msg db = insert_call_log f.log_writes (log_row c u status error_msg) db

-- `ExtractTokenUsage`.
unfoldable pub extract_token_usage : Json → Text → Usage
extract_token_usage j body = elim (j.usage_of body) [ none ↦ no_usage | some u ↦ u ]

-- `handleSync`.
unfoldable pub handle_sync : Json → Layout → Faults → Time → Call → Upstream → Db → Db × Response
unfolding refund_call bill_call log_call extract_token_usage
handle_sync j l f now c up db =
    if not up.built then (db, proxy_error 500 internal_error) else elim up.transport_error [
      | some e ↦
          (log_call f c no_usage 502 e (refund_call l f now c db), proxy_error 502 upstream_error)
      | none ↦ elim up.read_error [
        | some e ↦
            (log_call f c no_usage 502 e (refund_call l f now c db), proxy_error 502 upstream_error)
        | none ↦
            let body = rewrite_response_model j up.body c.request_model in
            let usage = extract_token_usage j body in
            let db' = if leb 400 up.status then refund_call l f now c db else db in
            (bill_call f c usage (log_call f c usage up.status [] db'), forwarded up.status body)
      ]
    ]

-- `strings.Contains(s, part)`.
unfoldable pub contains : Text → Text → Bool
contains part [] = elim (after_prefix part []) [ none ↦ false | some _ ↦ true ]
contains part (c ∷ s) =
    let rest = contains part s in elim (after_prefix part (c ∷ s)) [ none ↦ rest | some _ ↦ true ]

-- The trimmed data of a line that carries data, other than the end mark, if it is not empty.
unfoldable pub line_data : Text → Option Text
unfolding contains
line_data line =
    if contains (text "[DONE]") line then none else elim (after_prefix (text "data:") line) [
      | none ↦ none
      | some rest ↦ elim (trim_space rest) [ [] ↦ none | c ∷ s ↦ some (c ∷ s) ]
    ]

-- A line as the client gets it.
unfoldable pub client_line : Json → Text → Text → Text
unfolding line_data
client_line j model line = elim (line_data line) [
  | none ↦ line
  | some payload ↦ elim (j.model_of payload) [
    | none ↦ line
    | some found ↦
        if text_eq model [] || text_eq found [] || text_eq found model
        then line
        else text "data: " ++ replace_first (model_field found) (model_field model) payload
  ]
]

-- The usage after a line: that of the line, if it has one.
unfoldable pub line_usage : Json → Usage → Text → Usage
unfolding line_data
line_usage j u line = elim (line_data line) [
  | none ↦ u
  | some payload ↦ elim (j.chunk_usage_of payload) [ some (some v) ↦ v | _ ↦ u ]
]

-- The loop over the lines: what the client has got, and the usage when the loop ends.
unfoldable pub scan_lines : Json → Text → Usage → List (Text × Bool) → List Text × Usage
unfolding client_line line_usage
scan_lines j model u [] = ([], u)
scan_lines j model u ((line, gone) ∷ lines) =
    let sent = client_line j model line in
    let (out, v) = scan_lines j model (line_usage j u sent) lines in
    if gone then ([], u) else (sent ∷ out, v)

-- `fmt.Sprintf("%d", …)` of a status, which has three digits.
abbrev pub status_digits : ℕ → Text
status_digits n = (48 + n / 100 % 10) ∷ (48 + n / 10 % 10) ∷ (48 + n % 10) ∷ []

-- `handleStream`, the deferred accounting included.
unfoldable pub handle_stream : Json → Layout → Faults → Time → Call → Upstream → Db → Db × Response
unfolding refund_call bill_call log_call scan_lines
handle_stream j l f now c up db =
    if not up.built then (db, proxy_error 500 internal_error) else elim up.transport_error [
      | some e ↦ (log_call f c no_usage 502 e db, proxy_error 502 upstream_error)
      | none ↦
          if not (up.status == 200)
          then (
            log_call f c no_usage up.status (text "Upstream returned " ++ status_digits up.status)
                (refund_call l f now c db),
            forwarded up.status up.body,
          )
          else if not up.flusher
          then (db, streamed [])
          else let (out, u) = scan_lines j c.request_model no_usage up.lines in
            (bill_call f c u (log_call f c u 200 [] db), streamed out)
    ]

-- ===== src/Proxy/Handler/Serve.antt =====
-- ServeHTTP of internal/proxy/handler.go: its stages in order.
use shimiaocheng_llm.Prelude.{
  Bool, List, [], true, false, not, ◌&&◌, none, some, Text, text, ◌==◌, if◌then◌else◌, pos,
}
use shimiaocheng_llm.Float64.{ceil}
use shimiaocheng_llm.GoTime.{Time}
use shimiaocheng_llm.Quota.{Quota, Reply, ok, db_error, panic, find}
use shimiaocheng_llm.Quota.Checker.{check_and_deduct}
use shimiaocheng_llm.Proxy.Concurrency.{Store}
use shimiaocheng_llm.Proxy.Body.{rewrite_body_model}
use shimiaocheng_llm.Proxy.Exchange.{
  Db, Faults, Call, CallLog, Upstream, Response, proxy_error, panicked, ErrorType,
  not_authenticated, concurrency_limit_exceeded, internal_error, quota_exceeded,
  token_5h_quota_exceeded, token_week_quota_exceeded, token_quota_exceeded, no_usage,
  insert_call_log, log_call, handle_sync, handle_stream,
}
use shimiaocheng_llm.Proxy.Handler.{
  Handler, HttpRequest, World, Environment, stop, go, Upstreams, try_acquire, release, read_body,
  parse_request, prepare_body, resolve_route, provider_model, multiplier_of, classify,
}

-- The message of a refusal by the quota.
abbrev pub message : ErrorType → Text
message token_5h_quota_exceeded = text "5 小时内 Token 已超限"
message token_week_quota_exceeded = text "本周 Token 已超限"
message token_quota_exceeded = text "Token 额度已用尽"
message _ = text "Quota exceeded"

abbrev pub refusal : Faults → Call → Db → ErrorType → Db × Response
refusal f c db e = (log_call f c no_usage 429 (message e) db, proxy_error 429 e)

-- The answer where the gate refuses: the row is read for its label. No row is a nil pointer.
unfoldable pub refuse : Environment → Faults → Time → Call → Db → Db × Response
refuse env f now c db =
    if f.label_reads
    then elim (find c.user_id db.quotas) [
      | none ↦ (db, panicked)
      | some q ↦ refusal f c db (classify env now q)
    ]
    else refusal f c db quota_exceeded

abbrev pub exchange : Environment → Faults → Time → Call → Bool → Upstream → Db → Db × Response
exchange env f now c stream up db =
    if stream
    then handle_stream env.json env.layout f now c up db
    else handle_sync env.json env.layout f now c up db

-- What follows the gate.
unfoldable pub after_gate :
    Environment
    → Faults
    → Time
    → Call
    → Bool
    → Upstream
    → Db
    → Reply (List Quota × Bool)
    → Db × Response
unfolding refuse
after_gate env f now c stream up db db_error = (db, proxy_error 500 internal_error)
after_gate env f now c stream up db panic = (db, panicked)
after_gate env f now c stream up db (ok (rows, true)) =
    exchange env f now c stream up (record db { quotas = rows })
after_gate env f now c stream up db (ok (rows, false)) =
    refuse env f now c (record db { quotas = rows })

unfoldable pub charge_call :
    Environment → Faults → Time → Call → Bool → Upstream → Db → Db × Response
unfolding after_gate
charge_call env f now c stream up db = after_gate env f now c stream up db (
    check_and_deduct env.layout f.gate_reads f.gate_writes c.user_id c.effective_calls now
      db.quotas)

-- The call that a routed request makes.
unfoldable pub call_of :
    Environment → Handler → Faults → Time → HttpRequest → Text → Upstreams → World → Call
call_of env h f now r model route w =
    let multiplier = multiplier_of f now r.user_id w in
    record {
      user_id = r.user_id;
      model = provider_model env h model route.provider_id;
      request_model = model;
      provider_id = route.provider_id;
      effective_calls = ceil multiplier;
      multiplier = multiplier;
      latency_ms = r.latency_ms;
    }

-- What the upstream does with the endpoint, the key and the body that it is sent.
abbrev pub Send : Type 0
Send = Text → Text → Text → Upstream

unfoldable pub serve_routed :
    Environment
    → Handler
    → Faults
    → Time
    → Send
    → HttpRequest
    → (Text × Bool)
    → Text
    → Upstreams
    → World
    → Db × Response
unfolding call_of charge_call
serve_routed env h f now send r (model, stream) body route w =
    if not (h.multiplier_eng && h.quota_checker)
    then (w.db, proxy_error 500 internal_error)
    else let c = call_of env h f now r model route w in
      charge_call env f now c stream
        (send route.endpoint route.api_key (rewrite_body_model env.json body c.model)) w.db

-- A request that has been admitted.
unfoldable pub serve_admitted :
    Environment → Handler → Faults → Time → Send → HttpRequest → World → Db × Response
unfolding serve_routed
serve_admitted env h f now send r w = elim (read_body h r) [
  | stop e ↦ (w.db, e)
  | go body ↦ elim (parse_request env.json body) [
    | stop e ↦ (w.db, e)
    | go parsed ↦ elim (resolve_route env h r now) [
      | stop e ↦ (w.db, e)
      | go route ↦ serve_routed env h f now send r parsed (prepare_body env.json h r body) route w
    ]
  ]
]

-- The row for a request over the concurrency limit.
abbrev pub rejected_row : HttpRequest → CallLog
rejected_row r = record {
  user_id = r.user_id;
  model = [];
  provider_id = text "concurrency_rejected";
  prompt_tokens = pos 0;
  completion_tokens = pos 0;
  total_tokens = pos 0;
  raw_total_tokens = pos 0;
  effective_calls = 0;
  multiplier_used = record { mantissa = 0; shift = 0 };
  status_code = 429;
  latency_ms = r.latency_ms;
  error_msg = text "concurrency_limit_exceeded";
}

-- The request after its attempt to be admitted: the counter, and whether it was.
unfoldable pub serve_counted :
    Environment
    → Handler
    → Faults
    → Time
    → Send
    → HttpRequest
    → World
    → Store × Bool
    → World × Response
unfolding serve_admitted
serve_counted env h f now send r w (store, true) =
    let (db, response) = serve_admitted env h f now send r (record w { store = store }) in
    (record w { store = release store; db = db }, response)
serve_counted env h f now send r w (store, false) =
    let db = if h.quota_checker then insert_call_log f.log_writes (rejected_row r) w.db else w.db in
    (record w { store = store; db = db }, proxy_error 429 concurrency_limit_exceeded)

-- `ServeHTTP`; the deferred release runs on every path, a panic included.
unfoldable pub serve_http :
    Environment → Handler → Faults → Time → Send → HttpRequest → World → World × Response
unfolding serve_counted try_acquire
serve_http env h f now send r w =
    if r.user_id == 0
    then (w, proxy_error 401 not_authenticated)
    else serve_counted env h f now send r w (try_acquire r.max_concurrency w.store)

-- ===== src/Proxy/Passthrough/Serve.antt =====
-- ServeHTTP of internal/proxy/passthrough.go: its stages in order.
use shimiaocheng_llm.Prelude.{
  Bool, List, [], true, false, not, ◌&&◌, Option, none, some, Text, leb, ◌==◌, if◌then◌else◌,
}
use shimiaocheng_llm.GoTime.{Time}
use shimiaocheng_llm.Router.{Provider, ok}
use shimiaocheng_llm.Quota.{Quota, Reply, ok, db_error, panic}
use shimiaocheng_llm.Quota.Checker.{check_and_deduct}
use shimiaocheng_llm.Proxy.Concurrency.{Store}
use shimiaocheng_llm.Proxy.Exchange.{
  Db, Faults, Call, proxy_error, panicked, not_authenticated, concurrency_limit_exceeded,
  internal_error, upstream_error, passthrough_disabled, no_usage, log_call, refund_call,
}
use shimiaocheng_llm.Proxy.Handler.{World, Environment, Stage, stop, go, try_acquire, release}
use shimiaocheng_llm.Proxy.Passthrough.{
  UpstreamRequest, build_passthrough_target, build_upstream_request, provider_entry_from_router,
  copy_response_headers, is_streaming_response, stream_copy,
}
use shimiaocheng_llm.Proxy.Passthrough.Stages.{
  PassthroughHandler, PassthroughRequest, Sent, transport_error, answered, Network, Answer, refused,
  relayed, is_enabled, sub_path, read_passthrough_body, resolve_upstream, allowed_upstream,
  passthrough_call, refuse_passthrough,
}

-- What follows the sending: a call that did not happen or that failed is refunded.
unfoldable pub relay : Environment → Faults → Time → Call → Db → Sent → Db × Answer
unfolding copy_response_headers is_streaming_response stream_copy
relay env f now c db (transport_error e) = (
  log_call f c no_usage 502 e (refund_call env.layout f now c db),
  refused (proxy_error 502 upstream_error),
)
relay env f now c db (answered a) =
    let headers =
      copy_response_headers [] a.headers (is_streaming_response a.headers a.content_length) in
    let db' = if leb 400 a.status then refund_call env.layout f now c db else db in
    (log_call f c no_usage a.status [] db', relayed a.status headers (stream_copy a.steps).0)

-- The request that is sent for the provider.
abbrev pub upstream_request :
    Network → PassthroughRequest → Option Text → Provider → Option UpstreamRequest
upstream_request net r body p =
    build_upstream_request net.builds r.method
      (build_passthrough_target p.endpoint (sub_path r) r.raw_query) r.headers body
      (provider_entry_from_router p)

unfoldable pub forward :
    Environment → Faults → Time → Network → Call → Db → Option UpstreamRequest → Db × Answer
unfolding relay
forward env f now net c db none = (db, refused (proxy_error 500 internal_error))
forward env f now net c db (some request) = relay env f now c db (net.send request)

-- What follows the gate of the quota.
unfoldable pub after_charge :
    Environment
    → Faults
    → Time
    → Network
    → Call
    → Option UpstreamRequest
    → Db
    → Reply (List Quota × Bool)
    → Db × Answer
unfolding forward refuse_passthrough
after_charge env f now net c request db db_error = (db, refused (proxy_error 500 internal_error))
after_charge env f now net c request db panic = (db, refused panicked)
after_charge env f now net c request db (ok (rows, true)) =
    forward env f now net c (record db { quotas = rows }) request
after_charge env f now net c request db (ok (rows, false)) =
    refuse_passthrough f c (record db { quotas = rows })

unfoldable pub charge_passthrough :
    Environment → Faults → Time → Network → Call → Option UpstreamRequest → Db → Db × Answer
unfolding after_charge
charge_passthrough env f now net c request db = after_charge env f now net c request db (
    check_and_deduct env.layout f.gate_reads f.gate_writes c.user_id c.effective_calls now
      db.quotas)

unfoldable pub serve_provider :
    Environment
    → PassthroughHandler
    → Faults
    → Time
    → Network
    → PassthroughRequest
    → World
    → Option Text
    → Stage Provider
    → Db × Answer
unfolding charge_passthrough
serve_provider env h f now net r w body (stop e) = (w.db, refused e)
serve_provider env h f now net r w body (go p) =
    if not (h.multiplier_eng && h.quota_checker)
    then (w.db, refused (proxy_error 500 internal_error))
    else charge_passthrough env f now net (passthrough_call f now r p w)
        (upstream_request net r body p) w.db

unfoldable pub serve_body :
    Environment
    → PassthroughHandler
    → Faults
    → Time
    → Network
    → PassthroughRequest
    → World
    → Stage (Option Text)
    → Db × Answer
unfolding serve_provider allowed_upstream resolve_upstream
serve_body env h f now net r w (stop e) = (w.db, refused e)
serve_body env h f now net r w (go body) =
    serve_provider env h f now net r w body (allowed_upstream (resolve_upstream env h r.client now))

-- A request after its attempt to be admitted.
unfoldable pub serve_slot :
    Environment
    → PassthroughHandler
    → Faults
    → Time
    → Network
    → PassthroughRequest
    → World
    → Store × Bool
    → World × Answer
unfolding serve_body read_passthrough_body
serve_slot env h f now net r w (store, false) =
    (record w { store = store }, refused (proxy_error 429 concurrency_limit_exceeded))
serve_slot env h f now net r w (store, true) =
    let (db, answer) = serve_body env h f now net r w (read_passthrough_body r) in
    (record w { store = release store; db = db }, answer)

-- `ServeHTTP` of the passthrough handler; the deferred release runs on every path.
unfoldable pub serve_passthrough :
    Environment
    → PassthroughHandler
    → Faults
    → Time
    → Network
    → PassthroughRequest
    → World
    → World × Answer
unfolding serve_slot is_enabled try_acquire
serve_passthrough env h f now net r w =
    if r.client.user_id == 0
    then (w, refused (proxy_error 401 not_authenticated))
    else if not (is_enabled h)
    then (w, refused (proxy_error 403 passthrough_disabled))
    else serve_slot env h f now net r w (try_acquire r.client.max_concurrency w.store)

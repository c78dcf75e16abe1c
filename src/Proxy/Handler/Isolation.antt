-- ===== src/Proxy/Handler/Isolation.antt =====
-- ServeHTTP of internal/proxy/handler.go: what a request leaves alone.
use shimiaocheng_llm.Prelude.{
  ℕ, ◌≡◌, ◌≢◌, refl, ap, ◌∙◌, ◌⊎◌, inl, inr, Bool, true, false, ◌&&◌, List, Text, ◌==◌, Bool-cases,
  Option-cases,
}
use shimiaocheng_llm.GoTime.{Time}
use shimiaocheng_llm.Quota.{Quota, Reply, ok, db_error, panic, find}
use shimiaocheng_llm.Proxy.Exchange.{
  Db, Faults, Call, CallLog, Upstream, Response, no_usage, log_call, insert_call_log, ErrorType,
  quota_exceeded,
}
use shimiaocheng_llm.Proxy.Exchange.Settle.{log_call-quotas}
use shimiaocheng_llm.Proxy.Exchange.Isolation.{
  SameRow, GateKeepsRow, gate-others, handle_sync-others, handle_stream-others,
}
use shimiaocheng_llm.Proxy.Concurrency.{Store}
use shimiaocheng_llm.Proxy.Handler.{
  Environment, Handler, HttpRequest, World, Stage, stop, go, Upstreams, try_acquire, read_body,
  parse_request, resolve_route, prepare_body, classify,
}
use shimiaocheng_llm.Proxy.Handler.Serve.{
  Send, refuse, refusal, message, exchange, after_gate, charge_call, call_of, serve_routed,
  serve_admitted, serve_counted, serve_http, rejected_row,
}

pub refusal-others :
    (f : Faults) (c : Call) (v : ℕ) (db : Db) (e : ErrorType)
    → SameRow v db.quotas (refusal f c db e).0.quotas
refusal-others f c v db e = ap (find v) (log_call-quotas f c no_usage 429 (message e) db)

refuse-others :
    (env : Environment) (f : Faults) (now : Time) (c : Call) (v : ℕ) (db : Db)
    → SameRow v db.quotas (refuse env f now c db).0.quotas
unfolding refuse log_call
refuse-others env f now c v db = elim (Bool-cases f.label_reads) [
  | inr h ↦ rw h (refusal-others f c v db quota_exceeded)
  | inl h ↦ elim (Option-cases (find c.user_id db.quotas)) [
    | inl e ↦ rw (h, e) refl
    | inr (q, e) ↦ rw (h, e) (refusal-others f c v db (classify env now q))
  ]
]

exchange-others :
    (env : Environment) (f : Faults) (now : Time) (c : Call) (stream : Bool) (up : Upstream) (v : ℕ)
    (db : Db)
    → v ≢ c.user_id
    → SameRow v db.quotas (exchange env f now c stream up db).0.quotas
exchange-others env f now c true up v db ne =
    handle_stream-others env.json env.layout f now c up v db ne
exchange-others env f now c false up v db ne =
    handle_sync-others env.json env.layout f now c up v db ne

after_gate-others :
    (env : Environment) (f : Faults) (now : Time) (c : Call) (stream : Bool) (up : Upstream) (v : ℕ)
    (db : Db) (y : Reply (List Quota × Bool))
    → v ≢ c.user_id
    → GateKeepsRow v db.quotas y
    → SameRow v db.quotas (after_gate env f now c stream up db y).0.quotas
unfolding after_gate
after_gate-others env f now c stream up v db db_error ne h = refl
after_gate-others env f now c stream up v db panic ne h = refl
after_gate-others env f now c stream up v db (ok (rows, true)) ne h =
    exchange-others env f now c stream up v (record db { quotas = rows }) ne ∙ h
after_gate-others env f now c stream up v db (ok (rows, false)) ne h =
    refuse-others env f now c v (record db { quotas = rows }) ∙ h

charge_call-others :
    (env : Environment) (f : Faults) (now : Time) (c : Call) (stream : Bool) (up : Upstream) (v : ℕ)
    (db : Db)
    → v ≢ c.user_id
    → SameRow v db.quotas (charge_call env f now c stream up db).0.quotas
unfolding charge_call
charge_call-others env f now c stream up v db ne =
    after_gate-others env f now c stream up v db _ ne (
      gate-others env.layout f.gate_reads f.gate_writes c.user_id c.effective_calls v now db.quotas
        ne)

serve_routed-others :
    (env : Environment) (h : Handler) (f : Faults) (now : Time) (send : Send) (r : HttpRequest)
    (parsed : Text × Bool) (body : Text) (route : Upstreams) (w : World) (v : ℕ)
    → v ≢ r.user_id
    → SameRow v w.db.quotas (serve_routed env h f now send r parsed body route w).0.quotas
unfolding serve_routed call_of
serve_routed-others env h f now send r (model, stream) body route w v ne =
    elim (Bool-cases (h.multiplier_eng && h.quota_checker)) [
      | inr e ↦ rw e refl
      | inl e ↦ rw e (charge_call-others env f now _ stream _ v w.db ne)
    ]

Stage-cases {ℓ} :
    {A : Type ℓ} (s : Stage A) → ((e : Response) × (s ≡ stop e)) ⊎ ((a : A) × (s ≡ go a))
Stage-cases (stop e) = inl (e, refl)
Stage-cases (go a) = inr (a, refl)

serve_admitted-others :
    (env : Environment) (h : Handler) (f : Faults) (now : Time) (send : Send) (r : HttpRequest)
    (w : World) (v : ℕ)
    → v ≢ r.user_id
    → SameRow v w.db.quotas (serve_admitted env h f now send r w).0.quotas
unfolding serve_admitted
serve_admitted-others env h f now send r w v ne = elim (Stage-cases (read_body h r)) [
  | inl (e, p) ↦ rw (serve_admitted, p) refl
  | inr (body, p) ↦ elim (Stage-cases (parse_request env.json body)) [
    | inl (e, p') ↦ rw (serve_admitted, p, p') refl
    | inr (parsed, p') ↦ elim (Stage-cases (resolve_route env h r now)) [
      | inl (e, p'') ↦ rw (serve_admitted, p, p', p'') refl
      | inr (route, p'') ↦
          rw (serve_admitted, p, p', p'')
            (serve_routed-others env h f now send r parsed (prepare_body env.json h r body) route w
              v ne)
    ]
  ]
]

insert-quotas :
    (writes : Bool) (log : CallLog) (db : Db) → (insert_call_log writes log db).quotas ≡ db.quotas
unfolding insert_call_log
insert-quotas true log db = refl
insert-quotas false log db = refl

-- A request never changes the quota row of another user, whatever its outcome: for every
-- configuration, body and upstream, and whichever statements fail.
pub serve_http-isolates :
    (env : Environment) (h : Handler) (f : Faults) (now : Time) (send : Send) (r : HttpRequest)
    (w : World) (v : ℕ)
    → v ≢ r.user_id
    → SameRow v w.db.quotas (serve_http env h f now send r w).0.db.quotas
unfolding serve_http serve_counted
serve_http-isolates env h f now send r w v ne = elim (Bool-cases (r.user_id == 0)) [
  | inl z ↦ rw z refl
  | inr z ↦ rw z (counted (try_acquire r.max_concurrency w.store))
]
  where
    counted :
        (s : Store × Bool)
        → SameRow v w.db.quotas (serve_counted env h f now send r w s).0.db.quotas
    counted (s, true) = serve_admitted-others env h f now send r (record w { store = s }) v ne
    counted (s, false) = elim (Bool-cases h.quota_checker) [
      | inl e ↦ rw e (ap (find v) (insert-quotas f.log_writes (rejected_row r) w.db))
      | inr e ↦ rw e refl
    ]

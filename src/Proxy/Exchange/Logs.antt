-- ===== src/Proxy/Exchange/Logs.antt =====
-- handleSync and handleStream of internal/proxy: the row that they add to call_logs.
use shimiaocheng_llm.Prelude.{
  ℕ, ◌≡◌, refl, ◌∙◌, inl, inr, Bool, true, false, List, [], ◌∷◌, ◌++◌, Text, text, text_eq, leb,
  ◌==◌, if◌then◌else◌, Bool-cases, Option-cases, ◌+ℤ◌,
}
use shimiaocheng_llm.GoTime.{Time, Layout}
use shimiaocheng_llm.Quota.{Quota, Reply, ok, db_error, panic}
use shimiaocheng_llm.Proxy.Json.{Json, Usage}
use shimiaocheng_llm.Proxy.Exchange.{
  Db, Faults, Call, CallLog, Upstream, Response, proxy_error, forwarded, streamed, panicked, settle,
  no_usage, log_row, refund_call, bill_call, log_call, insert_call_log, handle_sync, handle_stream,
  upstream_error, extract_token_usage, status_digits, scan_lines,
}
use shimiaocheng_llm.Proxy.Body.{rewrite_response_model}

-- The status that the client sees.
abbrev pub status_of : Response → ℕ
status_of (proxy_error status e) = status
status_of (forwarded status body) = status
status_of (streamed lines) = 200
status_of panicked = 0

-- One row is added; it carries the call's user, multiplier, charge and the client's status.
pub record Logged (c : Call) (before : Db) (after : Db × Response) : Type 0 where
  pub row : CallLog
  pub added : after.0.call_logs ≡ before.call_logs ++ row ∷ []
  pub user : row.user_id ≡ c.user_id
  pub calls : row.effective_calls ≡ c.effective_calls
  pub multiplier : row.multiplier_used ≡ c.multiplier
  pub status : row.status_code ≡ status_of after.1
  pub raw : row.raw_total_tokens ≡ row.prompt_tokens +ℤ row.completion_tokens

settle-logs : (db : Db) (r : Reply (List Quota)) → (settle db r).call_logs ≡ db.call_logs
unfolding settle
settle-logs db (ok rows) = refl
settle-logs db db_error = refl
settle-logs db panic = refl

refund_call-logs :
    (l : Layout) (f : Faults) (now : Time) (c : Call) (db : Db)
    → (refund_call l f now c db).call_logs ≡ db.call_logs
unfolding refund_call
refund_call-logs l f now c db = settle-logs db _

bill_call-logs :
    (f : Faults) (c : Call) (u : Usage) (db : Db) → (bill_call f c u db).call_logs ≡ db.call_logs
unfolding bill_call
bill_call-logs f c u db = settle-logs db _

-- A row that is written after a change that adds none, and before another one.
logged :
    (f : Faults) (c : Call) (u : Usage) (msg : Text) (db db' after : Db) (r : Response)
    → f.log_writes ≡ true
    → db'.call_logs ≡ db.call_logs
    → after.call_logs ≡ (log_call f c u (status_of r) msg db').call_logs
    → Logged c db (after, r)
unfolding log_call insert_call_log
logged f c u msg db db' after r w same e = record {
  row = record (log_row c u (status_of r) msg) {
    provider_id = if text_eq c.provider_id [] then text "zhipu" else c.provider_id;
    raw_total_tokens = u.prompt_tokens +ℤ u.completion_tokens;
  };
  added = e ∙ rw (w, same) refl;
  user = refl;
  calls = refl;
  multiplier = refl;
  status = refl;
  raw = refl;
}

-- A call that is not streamed and whose request can be built adds one row to the call log if the
-- INSERT is executed, whatever the upstream does and whether or not the statements on the quota
-- are executed: the row has the user, the charge and the multiplier of the call and the status
-- that the client sees.
pub handle_sync-logs :
    (j : Json) (l : Layout) (f : Faults) (now : Time) (c : Call) (up : Upstream) (db : Db)
    → f.log_writes ≡ true
    → up.built ≡ true
    → Logged c db (handle_sync j l f now c up db)
unfolding handle_sync
handle_sync-logs j l f now c up db w b = elim (Option-cases up.transport_error) [
  | inr (t, h) ↦ rw (b, h) (failed t)
  | inl h ↦ elim (Option-cases up.read_error) [
    | inr (t, k) ↦ rw (b, h, k) (failed t)
    | inl k ↦ rw (b, h, k) (answered (leb 400 up.status))
  ]
]
  where
    refunded_db : Db
    refunded_db = refund_call l f now c db

    failed :
        (t : Text)
        → Logged c db (log_call f c no_usage 502 t refunded_db, proxy_error 502 upstream_error)
    failed t =
        logged f c no_usage t db refunded_db _ (proxy_error 502 upstream_error) w
          (refund_call-logs l f now c db) refl

    body : Text
    body = rewrite_response_model j up.body c.request_model

    usage : Usage
    usage = extract_token_usage j body

    answered :
        (failing : Bool)
        → let db' = if failing then refunded_db else db in
          Logged c db
            (bill_call f c usage (log_call f c usage up.status [] db'), forwarded up.status body)
    answered true =
        logged f c usage [] db refunded_db _ (forwarded up.status body) w
          (refund_call-logs l f now c db) (bill_call-logs f c usage _)
    answered false =
        logged f c usage [] db db _ (forwarded up.status body) w refl (bill_call-logs f c usage _)

-- A streamed call whose request can be built, to a client that can be flushed, adds one row to
-- the call log if the INSERT is executed, whatever the upstream does and whether or not the
-- statements on the quota are executed: the row has the user, the charge and the multiplier of
-- the call and the status that the client sees.
pub handle_stream-logs :
    (j : Json) (l : Layout) (f : Faults) (now : Time) (c : Call) (up : Upstream) (db : Db)
    → f.log_writes ≡ true
    → up.built ≡ true
    → up.flusher ≡ true
    → Logged c db (handle_stream j l f now c up db)
unfolding handle_stream
handle_stream-logs j l f now c up db w b fl = elim (Option-cases up.transport_error) [
  | inr (t, h) ↦
      rw (b, h) (logged f c no_usage t db db _ (proxy_error 502 upstream_error) w refl refl)
  | inl h ↦ elim (Bool-cases (up.status == 200)) [
    | inl k ↦ rw (b, h, k, fl) streaming
    | inr k ↦
        rw (b, h, k)
          (logged f c no_usage (text "Upstream returned " ++ status_digits up.status) db
            (refund_call l f now c db) _ (forwarded up.status up.body) w
            (refund_call-logs l f now c db) refl)
  ]
]
  where
    out : List Text × Usage
    out = scan_lines j c.request_model no_usage up.lines

    streaming : Logged c db (bill_call f c out.1 (log_call f c out.1 200 [] db), streamed out.0)
    streaming = logged f c out.1 [] db db _ (streamed out.0) w refl (bill_call-logs f c out.1 _)

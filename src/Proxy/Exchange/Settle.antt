-- ===== src/Proxy/Exchange/Settle.antt =====
-- handleSync and handleStream of internal/proxy: what they leave in the user's quota row.
use shimiaocheng_llm.Prelude.{
  ℕ, ◌≡◌, refl, ap, ◌∙◌, inl, inr, true, [], none, some, Text, leb, if◌then◌else◌, Bool-cases,
  Option-cases,
}
use shimiaocheng_llm.GoTime.{Time, Layout}
use shimiaocheng_llm.Quota.{Quota, find}
use shimiaocheng_llm.Quota.Gate.{OnlyRow}
use shimiaocheng_llm.Quota.Accounting.{
  refunded, refund-OnlyRow, accounted, add-OnlyRow, OnlyRow-trans,
}
use shimiaocheng_llm.Proxy.Json.{Json, Usage}
use shimiaocheng_llm.Proxy.Body.{rewrite_response_model}
use shimiaocheng_llm.Proxy.Exchange.{
  Db, Faults, Call, Upstream, no_usage, refund_call, bill_call, log_call, insert_call_log,
  billed_tokens, extract_token_usage, handle_sync,
}

-- The statements on the user's quota row that follow the gate are executed.
pub record Executes (f : Faults) : Type 0 where
  pub refunds : f.refund_writes ≡ true
  pub tokens : f.token_writes ≡ true

pub refund_call-OnlyRow :
    (l : Layout) (f : Faults) (now : Time) (c : Call) (db : Db) (q : Quota)
    → Executes f
    → find c.user_id db.quotas ≡ some q
    → OnlyRow c.user_id
        (refunded (l.format now) c.effective_calls q)
        db.quotas
        (refund_call l f now c db).quotas
unfolding refund_call
refund_call-OnlyRow l f now c db q x e =
    let (rows, p, o) = refund-OnlyRow l c.user_id c.effective_calls now db.quotas q e in
    rw (x.refunds, p) o

bill_call-OnlyRow :
    (f : Faults) (c : Call) (u : Usage) (db : Db) (q : Quota)
    → Executes f
    → find c.user_id db.quotas ≡ some q
    → OnlyRow c.user_id (accounted (billed_tokens c u) q) db.quotas (bill_call f c u db).quotas
unfolding bill_call
bill_call-OnlyRow f c u db q x e =
    let (rows, p, o) = add-OnlyRow c.user_id (billed_tokens c u) db.quotas q e in rw (x.tokens, p) o

pub log_call-quotas :
    (f : Faults) (c : Call) (u : Usage) (status : ℕ) (msg : Text) (db : Db)
    → (log_call f c u status msg db).quotas ≡ db.quotas
unfolding log_call insert_call_log
log_call-quotas f c u status msg db = elim (Bool-cases f.log_writes) [
  | inl e ↦ rw e refl
  | inr e ↦ rw e refl
]

-- The row after a call that is not streamed.
abbrev pub sync_row : Json → Layout → Time → Call → Upstream → Quota → Quota
sync_row j l now c up q = elim up.transport_error [
  | some _ ↦ refunded (l.format now) c.effective_calls q
  | none ↦ elim up.read_error [
    | some _ ↦ refunded (l.format now) c.effective_calls q
    | none ↦
        accounted
          (billed_tokens c
            (extract_token_usage j (rewrite_response_model j up.body c.request_model)))
          (if leb 400 up.status then refunded (l.format now) c.effective_calls q else q)
  ]
]

failed-OnlyRow :
    (l : Layout) (f : Faults) (now : Time) (c : Call) (msg : Text) (db : Db) (q : Quota)
    → Executes f
    → find c.user_id db.quotas ≡ some q
    → OnlyRow c.user_id
        (refunded (l.format now) c.effective_calls q)
        db.quotas
        (log_call f c no_usage 502 msg (refund_call l f now c db)).quotas
failed-OnlyRow l f now c msg db q x e =
    rw (log_call-quotas f c no_usage 502 msg (refund_call l f now c db))
      (refund_call-OnlyRow l f now c db q x e)

pub billed-OnlyRow :
    (f : Faults) (c : Call) (u : Usage) (status : ℕ) (msg : Text) (db : Db) (q : Quota)
    → Executes f
    → find c.user_id db.quotas ≡ some q
    → OnlyRow c.user_id
        (accounted (billed_tokens c u) q)
        db.quotas
        (bill_call f c u (log_call f c u status msg db)).quotas
billed-OnlyRow f c u status msg db q x e =
    let same = log_call-quotas f c u status msg db in
    let o = bill_call-OnlyRow f c u (log_call f c u status msg db) q x (rw same e) in
    (o.0, λ v ne. o.1 v ne ∙ ap (find v) same)

answered-OnlyRow :
    (l : Layout) (f : Faults) (now : Time) (c : Call) (u : Usage) (status : ℕ) (db : Db) (q : Quota)
    → Executes f
    → find c.user_id db.quotas ≡ some q
    → OnlyRow c.user_id
        (accounted
          (billed_tokens c u)
          (if leb 400 status then refunded (l.format now) c.effective_calls q else q))
        db.quotas
        (bill_call f c u (
          log_call f c u status []
            (if leb 400 status then refund_call l f now c db else db))).quotas
answered-OnlyRow l f now c u status db q x e = elim (Bool-cases (leb 400 status)) [
  | inl h ↦ rw h (
      let o = refund_call-OnlyRow l f now c db q x e in
      OnlyRow-trans c.user_id (refunded (l.format now) c.effective_calls q)
        (accounted (billed_tokens c u) (refunded (l.format now) c.effective_calls q)) db.quotas
        (refund_call l f now c db).quotas
        (bill_call f c u (log_call f c u status [] (refund_call l f now c db))).quotas o
        (billed-OnlyRow f c u status [] (refund_call l f now c db)
          (refunded (l.format now) c.effective_calls q) x o.0))
  | inr h ↦ rw h (billed-OnlyRow f c u status [] db q x e)
]

-- A call that is not streamed, whose request can be built, of a user with a quota row, where the
-- refund and the billing are executed: a failure of the transport or of the reading refunds the
-- effective calls; a response is accounted with the billed Tokens of its usage, and one of status
-- 400 or above is refunded too. Rows of other users stay.
pub handle_sync-settles :
    (j : Json) (l : Layout) (f : Faults) (now : Time) (c : Call) (up : Upstream) (db : Db)
    (q : Quota)
    → Executes f
    → up.built ≡ true
    → find c.user_id db.quotas ≡ some q
    → OnlyRow c.user_id (sync_row j l now c up q) db.quotas (handle_sync j l f now c up db).0.quotas
unfolding handle_sync
handle_sync-settles j l f now c up db q x b e = elim (Option-cases up.transport_error) [
  | inr (t, h) ↦ rw (b, h) (failed-OnlyRow l f now c t db q x e)
  | inl h ↦ elim (Option-cases up.read_error) [
    | inr (t, k) ↦ rw (b, h, k) (failed-OnlyRow l f now c t db q x e)
    | inl k ↦
        rw (b, h, k)
          (answered-OnlyRow l f now c
            (extract_token_usage j (rewrite_response_model j up.body c.request_model)) up.status db
            q x e)
  ]
]

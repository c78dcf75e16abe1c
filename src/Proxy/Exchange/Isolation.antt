-- ===== src/Proxy/Exchange/Isolation.antt =====
-- handleSync and handleStream of internal/proxy and the statements on quotas that a request makes:
-- the rows of other users stay.
use shimiaocheng_llm.Prelude.{
  ℕ, ◌≡◌, ◌≢◌, refl, ap, ◌∙◌, inl, inr, Bool, true, false, ◌&&◌, List, [], ◌∷◌, Text, text, ◌++◌,
  if◌then◌else◌, leb, ◌==◌, arith, Bool-cases, Option-cases, ℤ, pos, pos_part, ◌<ℤ◌,
}
use shimiaocheng_llm.GoTime.{Time, Layout}
use shimiaocheng_llm.Quota.{
  Quota, Reply, ok, db_error, panic, find, update_where, of_user, atomic_deduct_quota, exec,
}
use shimiaocheng_llm.Quota.Table.{KeepsUser, find-update}
use shimiaocheng_llm.Quota.Usage.{refund, refund_quota_usage, add_tokens, add_token_usage}
use shimiaocheng_llm.Proxy.Json.{Json, Usage}
use shimiaocheng_llm.Proxy.Body.{rewrite_response_model}
use shimiaocheng_llm.Proxy.Exchange.{
  Db, Faults, Call, Upstream, settle, refund_call, bill_call, log_call, handle_sync, handle_stream,
  no_usage, extract_token_usage, scan_lines, status_digits,
}
use shimiaocheng_llm.Proxy.Exchange.Settle.{log_call-quotas}

-- A user's row is the same in the two tables.
abbrev pub SameRow : ℕ → List Quota → List Quota → Type 0
SameRow v a b = find v b ≡ find v a

-- So it is after a statement, if that succeeds.
abbrev KeepsRow : ℕ → List Quota → Reply (List Quota) → Type 0
KeepsRow v a (ok b) = SameRow v a b
KeepsRow v a db_error = Unit
KeepsRow v a panic = Unit

abbrev pub GateKeepsRow : ℕ → List Quota → Reply (List Quota × Bool) → Type 0
GateKeepsRow v a (ok (b, passed)) = SameRow v a b
GateKeepsRow v a db_error = Unit
GateKeepsRow v a panic = Unit

update-others :
    (f : Quota → Quota) (g : Quota → Bool) (user v : ℕ) (rows : List Quota)
    → KeepsUser f
    → v ≢ user
    → SameRow v rows (update_where (λ r. of_user user r && g r) f rows)
unfolding find update_where
update-others f g user v [] keep ne = refl
update-others f g user v (q ∷ qs) keep ne =
    ground (arith, keep q, update-others f g user v qs keep ne)

exec-others :
    (writes : Bool) (f : Quota → Quota) (user v : ℕ) (rows : List Quota)
    → KeepsUser f
    → v ≢ user
    → KeepsRow v rows (exec writes (update_where (of_user user) f rows))
exec-others false f user v rows keep ne = tt
exec-others true f user v rows keep ne = rw (find-update f keep user v rows, other) refl
  where
    other : (user == v) ≡ false
    other = ground arith

refund-others :
    (l : Layout) (writes : Bool) (user calls v : ℕ) (now : Time) (rows : List Quota)
    → v ≢ user
    → KeepsRow v rows (refund_quota_usage l writes user calls now rows)
unfolding refund_quota_usage
refund-others l writes user calls v now rows ne = elim (Bool-cases (calls == 0)) [
  | inl z ↦ rw z refl
  | inr z ↦ rw z (exec-others writes (refund (l.format now) calls) user v rows (λ q. refl) ne)
]

add-others :
    (writes : Bool) (user : ℕ) (delta : ℤ) (v : ℕ) (rows : List Quota)
    → v ≢ user
    → KeepsRow v rows (add_token_usage writes user delta rows)
unfolding add_token_usage
add-others writes user delta v rows ne = elim (Bool-cases (delta <ℤ pos 1)) [
  | inl z ↦ rw z refl
  | inr z ↦ rw z (exec-others writes (add_tokens (pos_part delta)) user v rows (λ q. refl) ne)
]

pub gate-others :
    (l : Layout) (reads writes : Bool) (user calls v : ℕ) (now : Time) (rows : List Quota)
    → v ≢ user
    → GateKeepsRow v rows (atomic_deduct_quota l reads writes user calls now rows)
unfolding atomic_deduct_quota
gate-others l false writes user calls v now rows ne = tt
gate-others l true false user calls v now rows ne = elim (Option-cases (find user rows)) [
  | inl e ↦ rw e refl
  | inr (q, e) ↦ rw e tt
]
gate-others l true true user calls v now rows ne = elim (Option-cases (find user rows)) [
  | inl e ↦ rw e refl
  | inr (q, e) ↦ rw e (update-others _ _ user v rows (λ r. refl) ne)
]

settle-others :
    (v : ℕ) (db : Db) (r : Reply (List Quota))
    → KeepsRow v db.quotas r
    → SameRow v db.quotas (settle db r).quotas
unfolding settle
settle-others v db (ok rows) h = h
settle-others v db db_error h = refl
settle-others v db panic h = refl

pub refund_call-others :
    (l : Layout) (f : Faults) (now : Time) (c : Call) (v : ℕ) (db : Db)
    → v ≢ c.user_id
    → SameRow v db.quotas (refund_call l f now c db).quotas
unfolding refund_call
refund_call-others l f now c v db ne =
    settle-others v db _
      (refund-others l f.refund_writes c.user_id c.effective_calls v now db.quotas ne)

-- A bill after a log row.
billed-others :
    (f : Faults) (c : Call) (u : Usage) (status : ℕ) (msg : Text) (v : ℕ) (db : Db)
    → v ≢ c.user_id
    → SameRow v db.quotas (bill_call f c u (log_call f c u status msg db)).quotas
unfolding bill_call
billed-others f c u status msg v db ne =
    settle-others v (log_call f c u status msg db) _
      (add-others f.token_writes c.user_id _ v (log_call f c u status msg db).quotas ne)
    ∙ ap (find v) (log_call-quotas f c u status msg db)

pub failed-others :
    (l : Layout) (f : Faults) (now : Time) (c : Call) (status : ℕ) (msg : Text) (v : ℕ) (db : Db)
    → v ≢ c.user_id
    → SameRow v db.quotas (log_call f c no_usage status msg (refund_call l f now c db)).quotas
failed-others l f now c status msg v db ne =
    ap (find v) (log_call-quotas f c no_usage status msg (refund_call l f now c db))
    ∙ refund_call-others l f now c v db ne

pub handle_sync-others :
    (j : Json) (l : Layout) (f : Faults) (now : Time) (c : Call) (up : Upstream) (v : ℕ) (db : Db)
    → v ≢ c.user_id
    → SameRow v db.quotas (handle_sync j l f now c up db).0.quotas
unfolding handle_sync
handle_sync-others j l f now c up v db ne = elim (Bool-cases up.built) [
  | inr b ↦ rw b refl
  | inl b ↦ elim (Option-cases up.transport_error) [
    | inr (t, h) ↦ rw (b, h) (failed-others l f now c 502 t v db ne)
    | inl h ↦ elim (Option-cases up.read_error) [
      | inr (t, k) ↦ rw (b, h, k) (failed-others l f now c 502 t v db ne)
      | inl k ↦ rw (b, h, k) (answered (leb 400 up.status))
    ]
  ]
]
  where
    usage : Usage
    usage = extract_token_usage j (rewrite_response_model j up.body c.request_model)

    answered :
        (failing : Bool)
        → let db' = if failing then refund_call l f now c db else db in
          SameRow v db.quotas (bill_call f c usage (log_call f c usage up.status [] db')).quotas
    answered true =
        billed-others f c usage up.status [] v (refund_call l f now c db) ne
        ∙ refund_call-others l f now c v db ne
    answered false = billed-others f c usage up.status [] v db ne

pub handle_stream-others :
    (j : Json) (l : Layout) (f : Faults) (now : Time) (c : Call) (up : Upstream) (v : ℕ) (db : Db)
    → v ≢ c.user_id
    → SameRow v db.quotas (handle_stream j l f now c up db).0.quotas
unfolding handle_stream
handle_stream-others j l f now c up v db ne = elim (Bool-cases up.built) [
  | inr b ↦ rw b refl
  | inl b ↦ elim (Option-cases up.transport_error) [
    | inr (t, h) ↦ rw (b, h) (ap (find v) (log_call-quotas f c no_usage 502 t db))
    | inl h ↦ elim (Bool-cases (up.status == 200)) [
      | inr k ↦
          rw (b, h, k)
            (failed-others l f now c up.status
              (text "Upstream returned " ++ status_digits up.status) v db ne)
      | inl k ↦ elim (Bool-cases up.flusher) [
        | inr fl ↦ rw (b, h, k, fl) refl
        | inl fl ↦
            rw (b, h, k, fl)
              (billed-others f c (scan_lines j c.request_model no_usage up.lines).1 200 [] v db ne)
      ]
    ]
  ]
]

-- ===== src/Proxy/Passthrough/Settle.antt =====
-- ServeHTTP of internal/proxy/passthrough.go: what a request that is forwarded costs.
use shimiaocheng_llm.Prelude.{
  ◌≡◌, refl, ap, subst, sym, ◌∙◌, ◌⊎◌, inl, inr, Bool, true, false, List, [], none, some,
  if◌then◌else◌, leb, Bool-cases,
}
use shimiaocheng_llm.GoTime.{Time}
use shimiaocheng_llm.Quota.{Quota, Reply, ok, find, atomic_deduct_quota}
use shimiaocheng_llm.Quota.Table.{IsUnique}
use shimiaocheng_llm.Quota.Gate.{OnlyRow, HasRoom, rolled, charge, atomic_deduct_quota-refines}
use shimiaocheng_llm.Quota.Accounting.{OnlyRow-trans, refunded}
use shimiaocheng_llm.Proxy.Exchange.{
  Db, Faults, Call, panicked, quota_exceeded, no_usage, refund_call,
}
use shimiaocheng_llm.Proxy.Exchange.Settle.{Executes, refund_call-OnlyRow, log_call-quotas}
use shimiaocheng_llm.Proxy.Handler.{Environment}
use shimiaocheng_llm.Proxy.Handler.Serve.{refusal}
use shimiaocheng_llm.Proxy.Handler.Path.{AllExecute, gate-executed}
use shimiaocheng_llm.Proxy.Passthrough.{UpstreamRequest}
use shimiaocheng_llm.Proxy.Passthrough.Serve.{relay, forward, after_charge, charge_passthrough}
use shimiaocheng_llm.Proxy.Passthrough.Stages.{
  Network, Sent, transport_error, answered, Answer, refused, token_label, refused_at,
  refuse_passthrough,
}

-- The row after a request has been sent: refunded where it did not arrive or failed.
abbrev pub sent_row : Environment → Time → Call → Sent → Quota → Quota
sent_row env now c (transport_error e) q = refunded (env.layout.format now) c.effective_calls q
sent_row env now c (answered a) q =
    if leb 400 a.status then refunded (env.layout.format now) c.effective_calls q else q

relay-settles :
    (env : Environment) (f : Faults) (now : Time) (c : Call) (db : Db) (s : Sent) (q : Quota)
    → Executes f
    → find c.user_id db.quotas ≡ some q
    → OnlyRow c.user_id (sent_row env now c s q) db.quotas (relay env f now c db s).0.quotas
unfolding relay
relay-settles env f now c db (transport_error e) q x h =
    rw (log_call-quotas f c no_usage 502 e (refund_call env.layout f now c db))
      (refund_call-OnlyRow env.layout f now c db q x h)
relay-settles env f now c db (answered a) q x h = elim (Bool-cases (leb 400 a.status)) [
  | inl b ↦
      rw (b, log_call-quotas f c no_usage a.status [] (refund_call env.layout f now c db))
        (refund_call-OnlyRow env.layout f now c db q x h)
  | inr b ↦ rw (b, log_call-quotas f c no_usage a.status [] db) (h, λ v ne. refl)
]

-- A refusal, with the label of the row.
refuse_passthrough-refusal :
    (f : Faults) (c : Call) (db : Db) (q : Quota)
    → f.label_reads ≡ true
    → find c.user_id db.quotas ≡ some q
    → refuse_passthrough f c db ≡ refused_at (refusal f c db (token_label q))
unfolding refuse_passthrough
refuse_passthrough-refusal f c db q b e = labelled f.label_reads b
  where
    labelled :
        (b : Bool)
        → b ≡ true
        → (if b
            then elim (find c.user_id db.quotas) as (λ o. Db × Answer) [
              | none ↦ (db, refused panicked)
              | some q ↦ refused_at (refusal f c db (token_label q))
            ]
            else refused_at (refusal f c db quota_exceeded))
          ≡ refused_at (refusal f c db (token_label q))
    labelled true h = rw e refl
    labelled false h = absurd (apart h)
      where
        apart : false ≡ true → ⊥
        apart k = cc

-- What a request costs that has been admitted, routed and priced.
abbrev pub PassthroughSpec :
    Environment → Faults → Time → Network → Call → UpstreamRequest → Db → Quota → Type 0
PassthroughSpec env f now net c request db q =
    (HasRoom c.effective_calls (rolled env.layout now q)
      × OnlyRow c.user_id
          (sent_row env now c (net.send request)
            (charge (env.layout.format now) c.effective_calls (rolled env.layout now q)))
          db.quotas (charge_passthrough env f now net c (some request) db).0.quotas)
    ⊎ ((¬ HasRoom c.effective_calls (rolled env.layout now q))
        × (charge_passthrough env f now net c (some request) db
            ≡ refused_at (refusal f c db (token_label q))))

-- A passthrough request of a user who has one quota row, where all statements on quotas are
-- executed and the request can be built: if the rolled row has room, the user's row is charged,
-- and refunded where the upstream was not reached or answered with 400 or more; no Tokens are
-- billed, and no other row changes. If not, the outcome is the 429 of the label, for whatever the
-- upstream would do.
pub charge_passthrough-refines :
    (env : Environment) (f : Faults) (now : Time) (net : Network) (c : Call)
    (request : UpstreamRequest) (db : Db) (q : Quota)
    → AllExecute f
    → IsUnique db.quotas
    → find c.user_id db.quotas ≡ some q
    → PassthroughSpec env f now net c request db q
unfolding charge_passthrough after_charge forward
charge_passthrough-refines env f now net c request db q x u e =
    elim (atomic_deduct_quota-refines env.layout c.user_id c.effective_calls now db.quotas q u e) [
      | inl (room, (rows, p, o)) ↦ inl (room, passed rows p o)
      | inr (full, p) ↦ inr (
        full,
        ap (after_charge env f now net c (some request) db) (gate-executed env f now c db x ∙ p)
            ∙ refuse_passthrough-refusal f c db q x.labels e,
      )
    ]
  where
    charged : Quota
    charged = charge (env.layout.format now) c.effective_calls (rolled env.layout now q)

    passed :
        (rows : List Quota)
        → atomic_deduct_quota env.layout true true c.user_id c.effective_calls now db.quotas
          ≡ ok (rows, true)
        → OnlyRow c.user_id charged db.quotas rows
        → OnlyRow c.user_id
            (sent_row env now c (net.send request) charged)
            db.quotas
            (charge_passthrough env f now net c (some request) db).0.quotas
    passed rows p o =
        subst
          (λ (y : Reply (List Quota × Bool)).
            OnlyRow c.user_id (sent_row env now c (net.send request) charged) db.quotas
              (after_charge env f now net c (some request) db y).0.quotas)
          (sym (gate-executed env f now c db x ∙ p))
          (OnlyRow-trans c.user_id charged (sent_row env now c (net.send request) charged) db.quotas
            rows (relay env f now c (record db { quotas = rows }) (net.send request)).0.quotas o
            (relay-settles env f now c (record db { quotas = rows }) (net.send request) charged
              x.rest o.0))

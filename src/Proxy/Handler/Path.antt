-- ===== src/Proxy/Handler/Path.antt =====
-- The gate and what follows it in ServeHTTP of internal/proxy/handler.go: the cost of a request.
use shimiaocheng_llm.Prelude.{
  ◌≡◌, refl, ap, subst, sym, ◌∙◌, ◌⊎◌, inl, inr, Bool, true, false, List, none, some, if◌then◌else◌,
}
use shimiaocheng_llm.GoTime.{Time}
use shimiaocheng_llm.Quota.{Quota, Reply, ok, find, atomic_deduct_quota}
use shimiaocheng_llm.Quota.Table.{IsUnique}
use shimiaocheng_llm.Quota.Gate.{OnlyRow, HasRoom, rolled, charge, atomic_deduct_quota-refines}
use shimiaocheng_llm.Quota.Accounting.{OnlyRow-trans}
use shimiaocheng_llm.Proxy.Exchange.{Db, Faults, Call, Upstream, Response, panicked, quota_exceeded}
use shimiaocheng_llm.Proxy.Exchange.Settle.{Executes, sync_row, handle_sync-settles}
use shimiaocheng_llm.Proxy.Exchange.Stream.{stream_row, handle_stream-settles}
use shimiaocheng_llm.Proxy.Handler.{Environment, classify}
use shimiaocheng_llm.Proxy.Handler.Serve.{charge_call, after_gate, exchange, refuse, refusal}

-- All the statements on quotas are executed.
pub record AllExecute (f : Faults) : Type 0 where
  pub reads : f.gate_reads ≡ true
  pub writes : f.gate_writes ≡ true
  pub labels : f.label_reads ≡ true
  pub rest : Executes f

-- The row after a call, streamed or not, has been answered.
abbrev pub exchange_row : Environment → Time → Call → Bool → Upstream → Quota → Quota
exchange_row env now c stream up q =
    if stream
    then stream_row env.json env.layout now c up q
    else sync_row env.json env.layout now c up q

exchange-settles :
    (env : Environment) (f : Faults) (now : Time) (c : Call) (stream : Bool) (up : Upstream)
    (db : Db) (q : Quota)
    → Executes f
    → up.built ≡ true
    → up.flusher ≡ true
    → find c.user_id db.quotas ≡ some q
    → OnlyRow c.user_id
        (exchange_row env now c stream up q)
        db.quotas
        (exchange env f now c stream up db).0.quotas
exchange-settles env f now c true up db q x b fl e =
    handle_stream-settles env.json env.layout f now c up db q x b fl e
exchange-settles env f now c false up db q x b fl e =
    handle_sync-settles env.json env.layout f now c up db q x b e

pub gate-executed :
    (env : Environment) (f : Faults) (now : Time) (c : Call) (db : Db)
    → AllExecute f
    → atomic_deduct_quota env.layout f.gate_reads f.gate_writes c.user_id c.effective_calls now
        db.quotas
      ≡ atomic_deduct_quota env.layout true true c.user_id c.effective_calls now db.quotas
gate-executed env f now c db x = rw (x.reads, x.writes) refl

refuse-refusal :
    (env : Environment) (f : Faults) (now : Time) (c : Call) (db : Db) (q : Quota)
    → AllExecute f
    → find c.user_id db.quotas ≡ some q
    → refuse env f now c db ≡ refusal f c db (classify env now q)
unfolding refuse
refuse-refusal env f now c db q x e = labelled f.label_reads x.labels
  where
    labelled :
        (b : Bool)
        → b ≡ true
        → (if b
            then elim (find c.user_id db.quotas) as (λ o. Db × Response) [
              | none ↦ (db, panicked)
              | some q ↦ refusal f c db (classify env now q)
            ]
            else refusal f c db quota_exceeded)
          ≡ refusal f c db (classify env now q)
    labelled true h = rw e refl
    labelled false h = absurd (apart h)
      where
        apart : false ≡ true → ⊥
        apart k = cc

-- What a request does that has been admitted, routed and priced.
abbrev pub CallSpec : Environment → Faults → Time → Call → Bool → Upstream → Db → Quota → Type 0
CallSpec env f now c stream up db q =
    (HasRoom c.effective_calls (rolled env.layout now q)
      × OnlyRow c.user_id
          (exchange_row env now c stream up
            (charge (env.layout.format now) c.effective_calls (rolled env.layout now q)))
          db.quotas (charge_call env f now c stream up db).0.quotas)
    ⊎ ((¬ HasRoom c.effective_calls (rolled env.layout now q))
        × (charge_call env f now c stream up db ≡ refusal f c db (classify env now q)))

-- A call of a user who has one quota row, where all statements on quotas are executed, the
-- request can be built and the client flushed: if the rolled row has room, the user's row is
-- charged and then settled by the upstream's answer, and no other row changes. If not, the
-- outcome is the 429 of the label, for whatever the upstream would do, and the quotas stay.
pub charge_call-refines :
    (env : Environment) (f : Faults) (now : Time) (c : Call) (stream : Bool) (up : Upstream)
    (db : Db) (q : Quota)
    → AllExecute f
    → up.built ≡ true
    → up.flusher ≡ true
    → IsUnique db.quotas
    → find c.user_id db.quotas ≡ some q
    → CallSpec env f now c stream up db q
unfolding charge_call after_gate
charge_call-refines env f now c stream up db q x b fl u e =
    elim (atomic_deduct_quota-refines env.layout c.user_id c.effective_calls now db.quotas q u e) [
      | inl (room, (rows, p, o)) ↦ inl (room, passed rows p o)
      | inr (full, p) ↦ inr (
        full,
        ap (after_gate env f now c stream up db) (gate-executed env f now c db x ∙ p)
            ∙ refuse-refusal env f now c db q x e,
      )
    ]
  where
    charged : Quota
    charged = charge (env.layout.format now) c.effective_calls (rolled env.layout now q)

    passed :
        (rows : List Quota)
        → atomic_deduct_quota env.layout true true c.user_id c.effective_calls now db.quotas
          ≡ ok (rows, true)
        → OnlyRow c.user_id charged db.quotas rows
        → OnlyRow c.user_id
            (exchange_row env now c stream up charged)
            db.quotas
            (charge_call env f now c stream up db).0.quotas
    passed rows p o =
        subst
          (λ (y : Reply (List Quota × Bool)).
            OnlyRow c.user_id (exchange_row env now c stream up charged) db.quotas
              (after_gate env f now c stream up db y).0.quotas)
          (sym (gate-executed env f now c db x ∙ p))
          (OnlyRow-trans c.user_id charged (exchange_row env now c stream up charged) db.quotas rows
            (exchange env f now c stream up (record db { quotas = rows })).0.quotas o
            (exchange-settles env f now c stream up (record db { quotas = rows }) charged x.rest b
              fl o.0))

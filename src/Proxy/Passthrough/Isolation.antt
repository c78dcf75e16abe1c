-- ===== src/Proxy/Passthrough/Isolation.antt =====
-- ServeHTTP of internal/proxy/passthrough.go: what a request leaves alone.
use shimiaocheng_llm.Prelude.{
  ℕ, ◌≡◌, ◌≢◌, ◌⊎◌, refl, ap, ◌∙◌, inl, inr, Bool, true, false, not, ◌&&◌, List, [], Option, none,
  some, Text, ◌==◌, leb, Bool-cases, Option-cases,
}
use shimiaocheng_llm.GoTime.{Time}
use shimiaocheng_llm.Router.{Provider}
use shimiaocheng_llm.Quota.{Quota, Reply, ok, db_error, panic, find}
use shimiaocheng_llm.Proxy.Exchange.{Db, Faults, Call, no_usage, log_call, quota_exceeded}
use shimiaocheng_llm.Proxy.Exchange.Settle.{log_call-quotas}
use shimiaocheng_llm.Proxy.Exchange.Isolation.{SameRow, GateKeepsRow, gate-others, failed-others}
use shimiaocheng_llm.Proxy.Concurrency.{Store}
use shimiaocheng_llm.Proxy.Handler.{Environment, World, Stage, stop, go, try_acquire, release}
use shimiaocheng_llm.Proxy.Handler.Isolation.{refusal-others}
use shimiaocheng_llm.Proxy.Handler.Counter.{counter, settled, acquire-settled}
use shimiaocheng_llm.Proxy.Passthrough.{UpstreamRequest}
use shimiaocheng_llm.Proxy.Passthrough.Serve.{
  relay, forward, after_charge, charge_passthrough, serve_provider, serve_body, serve_slot,
  serve_passthrough,
}
use shimiaocheng_llm.Proxy.Passthrough.Stages.{
  PassthroughHandler, PassthroughRequest, Network, Sent, transport_error, answered, token_label,
  refuse_passthrough, is_enabled, read_passthrough_body,
}

relay-others :
    (env : Environment) (f : Faults) (now : Time) (c : Call) (v : ℕ) (db : Db) (s : Sent)
    → v ≢ c.user_id
    → SameRow v db.quotas (relay env f now c db s).0.quotas
unfolding relay
relay-others env f now c v db (transport_error e) ne =
    failed-others env.layout f now c 502 e v db ne
relay-others env f now c v db (answered a) ne = elim (Bool-cases (leb 400 a.status)) [
  | inl b ↦ rw b (failed-others env.layout f now c a.status [] v db ne)
  | inr b ↦ rw b (ap (find v) (log_call-quotas f c no_usage a.status [] db))
]

refuse_passthrough-others :
    (f : Faults) (c : Call) (v : ℕ) (db : Db)
    → SameRow v db.quotas (refuse_passthrough f c db).0.quotas
unfolding refuse_passthrough log_call
refuse_passthrough-others f c v db = elim (Bool-cases f.label_reads) [
  | inr h ↦ rw h (refusal-others f c v db quota_exceeded)
  | inl h ↦ elim (Option-cases (find c.user_id db.quotas)) [
    | inl e ↦ rw (h, e) refl
    | inr (q, e) ↦ rw (h, e) (refusal-others f c v db (token_label q))
  ]
]

module _ (env : Environment) (f : Faults) (now : Time) (net : Network) where
  after_charge-others :
      (c : Call) (request : Option UpstreamRequest) (v : ℕ) (db : Db)
      (y : Reply (List Quota × Bool))
      → v ≢ c.user_id
      → GateKeepsRow v db.quotas y
      → SameRow v db.quotas (after_charge env f now net c request db y).0.quotas
  unfolding after_charge forward
  after_charge-others c request v db db_error ne h = refl
  after_charge-others c request v db panic ne h = refl
  after_charge-others c none v db (ok (rows, true)) ne h = h
  after_charge-others c (some r) v db (ok (rows, true)) ne h =
      relay-others env f now c v (record db { quotas = rows }) (net.send r) ne ∙ h
  after_charge-others c request v db (ok (rows, false)) ne h =
      refuse_passthrough-others f c v (record db { quotas = rows }) ∙ h

  module _ (h : PassthroughHandler) (r : PassthroughRequest) (w : World) where
    serve_provider-others :
        (v : ℕ) (body : Option Text) (s : Stage Provider)
        → v ≢ r.client.user_id
        → SameRow v w.db.quotas (serve_provider env h f now net r w body s).0.quotas
    unfolding serve_provider charge_passthrough
    serve_provider-others v body (stop e) ne = refl
    serve_provider-others v body (go p) ne =
        elim (Bool-cases (not (h.multiplier_eng && h.quota_checker))) [
          | inl b ↦ rw (b, serve_provider) refl
          | inr b ↦
              rw (b, serve_provider)
                (after_charge-others _ _ v w.db _ ne (
                  gate-others env.layout f.gate_reads f.gate_writes r.client.user_id _ v now
                    w.db.quotas ne))
        ]

    serve_slot-others :
        (v : ℕ) (s : Store × Bool)
        → v ≢ r.client.user_id
        → SameRow v w.db.quotas (serve_slot env h f now net r w s).0.db.quotas
    unfolding serve_slot serve_body
    serve_slot-others v (s, false) ne = refl
    serve_slot-others v (s, true) ne = body (read_passthrough_body r)
      where
        body :
            (b : Stage (Option Text))
            → SameRow v w.db.quotas (serve_body env h f now net r w b).0.quotas
        body (stop e) = refl
        body (go b) = serve_provider-others v b _ ne

    serve_slot-counter :
        (s : Store × Bool) → counter (serve_slot env h f now net r w s).0.store ≡ settled s
    unfolding serve_slot
    serve_slot-counter (s, true) = refl
    serve_slot-counter (s, false) = refl

    -- The counter as it was found or, without a limit, with the one taken off that was never added.
    abbrev pub CounterLeft : Type 0
    CounterLeft =
        let left = counter (serve_passthrough env h f now net r w).0.store in
        (left ≡ counter w.store)
        ⊎ (((r.client.max_concurrency == 0) ≡ true) × (left ≡ counter (release w.store)))

    slot-CounterLeft : (r.client.user_id == 0) ≡ false → is_enabled h ≡ true → CounterLeft
    unfolding serve_passthrough try_acquire
    slot-CounterLeft e b = elim (Bool-cases (r.client.max_concurrency == 0)) [
      | inl z ↦ inr (
        z,
        rw (e, b, serve_passthrough)
            (serve_slot-counter (try_acquire r.client.max_concurrency w.store) ∙ rw z refl),
      )
      | inr z ↦ inl (
          rw (e, b, serve_passthrough)
            (serve_slot-counter (try_acquire r.client.max_concurrency w.store)
              ∙ acquire-settled r.client.max_concurrency w.store.generation w.store.entry z))
    ]

    -- A passthrough request never changes the quota row of another user, whatever its outcome and
    -- with or without a concurrency limit. It leaves the user's counter at the value that it found
    -- there; only without a limit may it instead release a slot that it had not acquired.
    pub serve_passthrough-isolates :
        (v : ℕ)
        → v ≢ r.client.user_id
        → SameRow v w.db.quotas (serve_passthrough env h f now net r w).0.db.quotas × CounterLeft
    unfolding serve_passthrough
    serve_passthrough-isolates v ne = elim (Bool-cases (r.client.user_id == 0)) [
      | inl e ↦ (rw (e, serve_passthrough) refl, inl (rw (e, serve_passthrough) refl))
      | inr e ↦ elim (Bool-cases (is_enabled h)) [
        | inr b ↦ (rw (e, b, serve_passthrough) refl, inl (rw (e, b, serve_passthrough) refl))
        | inl b ↦ (
          rw (e, b, serve_passthrough)
              (serve_slot-others v (try_acquire r.client.max_concurrency w.store) ne),
          slot-CounterLeft e b,
        )
      ]
    ]

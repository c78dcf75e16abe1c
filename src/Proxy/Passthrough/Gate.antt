-- ===== src/Proxy/Passthrough/Gate.antt =====
-- ServeHTTP of internal/proxy/passthrough.go: who gets an answer of an upstream.
use shimiaocheng_llm.Prelude.{
  ℕ, ◌≡◌, refl, ap, sym, ◌∙◌, subst, inl, inr, Bool, true, false, not, ◌&&◌, List, Option, none,
  some, Option-cases, Text, ◌==◌, Bool-cases,
}
use shimiaocheng_llm.GoTime.{Time}
use shimiaocheng_llm.Router.{Provider}
use shimiaocheng_llm.Quota.{Quota, Reply, ok, db_error, panic, find}
use shimiaocheng_llm.Quota.Checker.{check_and_deduct}
use shimiaocheng_llm.Proxy.Exchange.{
  Db, Faults, Call, Response, proxy_error, panicked, quota_exceeded,
}
use shimiaocheng_llm.Proxy.Concurrency.{Store}
use shimiaocheng_llm.Proxy.Handler.{Environment, World, Stage, stop, go, try_acquire}
use shimiaocheng_llm.Proxy.Passthrough.{Header, UpstreamRequest, stream_copy}
use shimiaocheng_llm.Proxy.Passthrough.Serve.{
  upstream_request, relay, forward, after_charge, charge_passthrough, serve_provider, serve_body,
  serve_slot, serve_passthrough,
}
use shimiaocheng_llm.Proxy.Passthrough.Stages.{
  PassthroughHandler, PassthroughRequest, UpstreamAnswer, Sent, transport_error, answered, Network,
  Answer, refused, relayed, is_enabled, read_passthrough_body, resolve_upstream, allowed_upstream,
  token_label, gated, refuse_passthrough, passthrough_call,
}

-- An upstream's answer, with the request that it answers.
pub record IsAnswer (net : Network) (request : Option UpstreamRequest) (status : ℕ) (body : Text)
    : Type 0 where
  pub sent : UpstreamRequest
  pub built : request ≡ some sent
  pub answer : UpstreamAnswer
  pub reply : net.send sent ≡ answered answer
  pub same_status : status ≡ answer.status
  pub same_body : body ≡ (stream_copy answer.steps).0

not_relayed :
    {r : Response} {status : ℕ} {headers : Header} {body : Text}
    → ◌≡◌ {A = Answer} (refused r) (relayed status headers body)
    → ⊥
not_relayed h = cc

-- A refusal by the quota is the gateway's answer.
refuse-refused :
    (f : Faults) (c : Call) (db : Db) → (r : Response) × ((refuse_passthrough f c db).1 ≡ refused r)
unfolding refuse_passthrough
refuse-refused f c db = elim (Bool-cases f.label_reads) [
  | inr b ↦ (proxy_error 429 quota_exceeded, rw b refl)
  | inl b ↦ elim (Option-cases (find c.user_id db.quotas)) [
    | inl e ↦ (panicked, rw (b, e) refl)
    | inr (q, e) ↦ (proxy_error 429 (token_label q), rw (b, e) refl)
  ]
]

module _ (env : Environment) (f : Faults) (now : Time) (net : Network) (c : Call) (status : ℕ)
    (headers : Header) (body : Text) where
  relay_sound :
      (db : Db) (request : UpstreamRequest) (s : Sent)
      → net.send request ≡ s
      → (relay env f now c db s).1 ≡ relayed status headers body
      → IsAnswer net (some request) status body
  unfolding relay
  relay_sound db request (transport_error x) p e = absurd (not_relayed e)
  relay_sound db request (answered a) p e = record {
    sent = request;
    built = refl;
    answer = a;
    reply = p;
    same_status = status_of e;
    same_body = body_of e;
  }
    where
      status_of :
          {s : ℕ} {h : Header} {b : Text}
          → ◌≡◌ {A = Answer} (relayed s h b) (relayed status headers body)
          → status ≡ s
      status_of h = cc

      body_of :
          {s : ℕ} {h : Header} {b : Text}
          → ◌≡◌ {A = Answer} (relayed s h b) (relayed status headers body)
          → body ≡ b
      body_of h = cc

  after_charge_sound :
      (request : Option UpstreamRequest) (db : Db) (y : Reply (List Quota × Bool))
      → (after_charge env f now net c request db y).1 ≡ relayed status headers body
      → ((rows : List Quota) × (y ≡ ok (rows, true))) × IsAnswer net request status body
  unfolding after_charge forward
  after_charge_sound request db db_error e = absurd (not_relayed e)
  after_charge_sound request db panic e = absurd (not_relayed e)
  after_charge_sound none db (ok (rows, true)) e = absurd (not_relayed e)
  after_charge_sound (some r) db (ok (rows, true)) e =
      ((rows, refl), relay_sound (record db { quotas = rows }) r (net.send r) refl e)
  after_charge_sound request db (ok (rows, false)) e =
      let (r, p) = refuse-refused f c (record db { quotas = rows }) in
      absurd (not_relayed (sym p ∙ e))

-- What it takes to be answered by an upstream.
pub record IsForwarded (env : Environment) (h : PassthroughHandler) (f : Faults) (now : Time)
    (net : Network) (r : PassthroughRequest) (w : World) (status : ℕ) (body : Text) : Type 0 where
  pub enabled : is_enabled h ≡ true
  pub provider : Provider
  pub resolved : resolve_upstream env h r.client now ≡ go provider
  pub allowed : provider.allow_passthrough ≡ true
  pub sent_body : Option Text
  pub read : read_passthrough_body r ≡ go sent_body
  pub charged :
      (rows : List Quota) × (check_and_deduct env.layout f.gate_reads f.gate_writes r.client.user_id
          (passthrough_call f now r provider w).effective_calls
          now
          w.db.quotas
        ≡ ok (rows, true))
  pub answer : IsAnswer net (upstream_request net r sent_body provider) status body

gated-go : (b : Bool) (q p : Provider) → gated b q ≡ go p → (q ≡ p) × (b ≡ true)
gated-go true q p h = (injective h, refl)
  where
    injective : {x y : Provider} → ◌≡◌ {A = Stage Provider} (go x) (go y) → x ≡ y
    injective h = cc
gated-go false q p h = absurd (clash h)
  where
    clash : {e : Response} → ◌≡◌ {A = Stage Provider} (stop e) (go p) → ⊥
    clash h = cc

-- A stage that goes on had an allowed provider.
allowed_upstream-go :
    (s : Stage Provider) (p : Provider)
    → allowed_upstream s ≡ go p
    → (s ≡ go p) × (p.allow_passthrough ≡ true)
unfolding allowed_upstream
allowed_upstream-go (stop e) p h = absurd (clash h)
  where
    clash : ◌≡◌ {A = Stage Provider} (stop e) (go p) → ⊥
    clash h = cc
allowed_upstream-go (go q) p h =
    let (e, b) = gated-go q.allow_passthrough q p h in
    (ap go e, subst (λ x. x.allow_passthrough ≡ true) e b)

module _ (env : Environment) (h : PassthroughHandler) (f : Faults) (now : Time) (net : Network)
    (r : PassthroughRequest) (w : World) (status : ℕ) (headers : Header) (body : Text) where
  serve_provider_sound :
      (sent : Option Text) (s : Stage Provider)
      → is_enabled h ≡ true
      → read_passthrough_body r ≡ go sent
      → s ≡ allowed_upstream (resolve_upstream env h r.client now)
      → (serve_provider env h f now net r w sent s).1 ≡ relayed status headers body
      → IsForwarded env h f now net r w status body
  unfolding serve_provider charge_passthrough
  serve_provider_sound sent (stop x) on d p e = absurd (not_relayed e)
  serve_provider_sound sent (go q) on d p e =
      elim (Bool-cases (not (h.multiplier_eng && h.quota_checker))) [
        | inl b ↦ absurd (not_relayed (rw (b, serve_provider) at e))
        | inr b ↦
            let (reached, allowed) =
              allowed_upstream-go (resolve_upstream env h r.client now) q (sym p) in
            let (paid, replied) =
              after_charge_sound env f now net (passthrough_call f now r q w) status headers body
                (upstream_request net r sent q) w.db _ (rw (b, serve_provider) at e) in
            record {
              enabled = on;
              provider = q;
              resolved = reached;
              allowed = allowed;
              sent_body = sent;
              read = d;
              charged = paid;
              answer = replied;
            }
      ]

  serve_body_sound :
      (s : Stage (Option Text))
      → is_enabled h ≡ true
      → read_passthrough_body r ≡ s
      → (serve_body env h f now net r w s).1 ≡ relayed status headers body
      → IsForwarded env h f now net r w status body
  unfolding serve_body
  serve_body_sound (stop x) on d e = absurd (not_relayed e)
  serve_body_sound (go sent) on d e = serve_provider_sound sent _ on d refl e

  serve_slot_sound :
      (s : Store × Bool)
      → is_enabled h ≡ true
      → (serve_slot env h f now net r w s).1 ≡ relayed status headers body
      → IsForwarded env h f now net r w status body
  unfolding serve_slot
  serve_slot_sound (s, true) on e = serve_body_sound (read_passthrough_body r) on refl e
  serve_slot_sound (s, false) on e = absurd (not_relayed e)

  -- Who is answered by an upstream has both switches on, the gateway's and that of the provider that
  -- the routing chose, a body within the budget, and calls that the quota's gate let through; the
  -- status and the body are those of the provider's answer to the request built for it.
  pub serve_passthrough-gated :
      (serve_passthrough env h f now net r w).1 ≡ relayed status headers body
      → IsForwarded env h f now net r w status body
  unfolding serve_passthrough
  serve_passthrough-gated e = elim (Bool-cases (r.client.user_id == 0)) [
    | inl z ↦ absurd (not_relayed (rw (z, serve_passthrough) at e))
    | inr z ↦ elim (Bool-cases (is_enabled h)) [
      | inr b ↦ absurd (not_relayed (rw (z, b, serve_passthrough) at e))
      | inl b ↦
          serve_slot_sound (try_acquire r.client.max_concurrency w.store) b
            (rw (z, b, serve_passthrough) at e)
    ]
  ]

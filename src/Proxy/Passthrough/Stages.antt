-- ===== src/Proxy/Passthrough/Stages.antt =====
-- ServeHTTP of internal/proxy/passthrough.go: its stages up to the gate of the quota, and the answer
-- where that refuses.
use shimiaocheng_llm.Prelude.{
  ℕ, Bool, List, [], ◌∷◌, true, false, not, ◌&&◌, any, Option, none, some, Text, text, text_eq, ltb,
  leb, ◌==◌, ◌==ℤ◌, ℤ, pos, if◌then◌else◌, length, max,
}
use shimiaocheng_llm.Float64.{ceil}
use shimiaocheng_llm.GoTime.{Time}
use shimiaocheng_llm.Router.{
  Provider, ProviderTable, ok, err, resolve_provider, get_provider_by_slug,
}
use shimiaocheng_llm.Quota.{Quota, ok, find}
use shimiaocheng_llm.Proxy.Body.{after_prefix}
use shimiaocheng_llm.Proxy.Exchange.{
  Db, Faults, Call, Response, proxy_error, panicked, ErrorType, request_entity_too_large,
  bad_request, no_provider, internal_error, quota_exceeded, token_quota_exceeded,
  passthrough_disabled,
}
use shimiaocheng_llm.Proxy.Handler.{
  HttpRequest, World, Environment, Stage, stop, go, body_budget, multiplier_of,
}
use shimiaocheng_llm.Proxy.Handler.Serve.{refusal}
use shimiaocheng_llm.Proxy.Passthrough.{Header, UpstreamRequest, ReadStep, method_path_model}

-- The handler's fields; an engine that is not set is `false`, a getter that is nil `none`.
pub record PassthroughHandler : Type 0 where
  pub quota_checker : Bool
  pub multiplier_eng : Bool
  pub router : Option ProviderTable
  pub passthrough_enabled : Option Bool

pub record PassthroughRequest : Type 0 where
  pub client : HttpRequest
  pub method : Text
  pub path : Text
  pub raw_query : Text
  pub content_length : ℤ
  pub headers : Header

-- What the upstream does with a request.
pub record UpstreamAnswer : Type 0 where
  pub status : ℕ
  pub headers : Header
  pub content_length : ℤ
  pub steps : List ReadStep

pub data Sent : Type 0 where
  transport_error : Text → Sent
  answered : UpstreamAnswer → Sent

-- The network: whether net/http takes a request, and what becomes of one that is sent.
pub record Network : Type 0 where
  pub builds : Bool
  pub send : UpstreamRequest → Sent

-- What the client gets: an answer of the gateway, or the upstream's.
pub data Answer : Type 0 where
  refused : Response → Answer
  relayed : ℕ → Header → Text → Answer

unfoldable pub is_enabled : PassthroughHandler → Bool
is_enabled h = elim h.passthrough_enabled [ none ↦ false | some b ↦ b ]

-- `strings.TrimPrefix(r.URL.Path, "/v1/passthrough")`.
unfoldable pub sub_path : PassthroughRequest → Text
sub_path r = elim (after_prefix (text "/v1/passthrough") r.path) [ none ↦ r.path | some s ↦ s ]

abbrev bodiless : List Text
bodiless = text "GET" ∷ text "HEAD" ∷ text "DELETE" ∷ text "OPTIONS" ∷ text "TRACE" ∷ []

unfoldable pub has_body : PassthroughRequest → Bool
has_body r = not (r.content_length ==ℤ pos 0) && not (any (text_eq r.method) bodiless)

-- The body, read up to the user's budget, where there is one.
unfoldable pub read_passthrough_body : PassthroughRequest → Stage (Option Text)
unfolding has_body
read_passthrough_body r =
    if has_body r
    then elim r.client.body [
      | none ↦ stop (proxy_error 400 bad_request)
      | some b ↦
          if ltb (max (body_budget r.client) 1) (length b)
          then stop (proxy_error 413 request_entity_too_large)
          else go (some b)
    ]
    else go none

-- The provider of the request.
unfoldable pub resolve_upstream :
    Environment → PassthroughHandler → HttpRequest → Time → Stage Provider
resolve_upstream env h r now = elim h.router [
  | none ↦ stop (proxy_error 500 internal_error)
  | some table ↦
      if text_eq r.route_mode (text "fixed") && not (text_eq r.fixed_provider [])
      then elim (get_provider_by_slug table r.fixed_provider) [
        | none ↦ stop (proxy_error 503 no_provider)
        | some p ↦ go p
      ]
      else elim (resolve_provider env.provider_order table now.nanos) [
        | ok p ↦ go p
        | err e ↦ stop (proxy_error 503 no_provider)
      ]
]

abbrev pub gated : Bool → Provider → Stage Provider
gated true p = go p
gated false p = stop (proxy_error 403 passthrough_disabled)

-- The gate of the provider.
unfoldable pub allowed_upstream : Stage Provider → Stage Provider
allowed_upstream (stop e) = stop e
allowed_upstream (go p) = gated p.allow_passthrough p

abbrev pub passthrough_call : Faults → Time → PassthroughRequest → Provider → World → Call
passthrough_call f now r p w =
    let multiplier = multiplier_of f now r.client.user_id w in
    record {
      user_id = r.client.user_id;
      model = method_path_model r.method (sub_path r);
      request_model = [];
      provider_id = p.id;
      effective_calls = ceil multiplier;
      multiplier = multiplier;
      latency_ms = r.client.latency_ms;
    }

-- The label of a refusal by the quota.
unfoldable pub token_label : Quota → ErrorType
token_label q =
    if not (q.token_total_limit == 0) && leb q.token_total_limit q.token_total_used
    then token_quota_exceeded
    else quota_exceeded

abbrev pub refused_at : Db × Response → Db × Answer
refused_at (db, e) = (db, refused e)

-- The answer where the gate refuses: the row is read for its label. No row is a nil pointer.
unfoldable pub refuse_passthrough : Faults → Call → Db → Db × Answer
unfolding token_label
refuse_passthrough f c db =
    if f.label_reads
    then elim (find c.user_id db.quotas) [
      | none ↦ (db, refused panicked)
      | some q ↦ refused_at (refusal f c db (token_label q))
    ]
    else refused_at (refusal f c db quota_exceeded)

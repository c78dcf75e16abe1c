-- ===== src/Proxy/Handler.antt =====
-- ServeHTTP of internal/proxy/handler.go, with freshWindow, and GetFixedMultiplier of
-- internal/models/quota.go: the path of one request that no other request overlaps.
pub mod Serve
pub mod Path
pub mod Isolation
pub mod Counter
use shimiaocheng_llm.Prelude.{
  ℕ, ◌+◌, ◌*◌, Bool, true, false, not, ◌&&◌, List, [], ◌∷◌, Option, none, some, Text, text, text_eq,
  ltb, leb, ◌==◌, if◌then◌else◌, min, ℤ, pos, ◌<ℤ◌, length,
}
use shimiaocheng_llm.Float64.{Float64, ceil}
use shimiaocheng_llm.GoTime.{Time, Layout, hour, week, since}
use shimiaocheng_llm.Router.{
  Provider, ProviderEntry, ProviderTable, Resolved, ok, err, resolve_provider, get_provider_by_slug,
}
use shimiaocheng_llm.Router.Models.{rewrite_model, Mappings}
use shimiaocheng_llm.Quota.{Quota, Reply, ok, db_error, panic, find, aligned_cycle_start}
use shimiaocheng_llm.Quota.Checker.{check_and_deduct}
use shimiaocheng_llm.Multiplier.{get_effective_multiplier}
use shimiaocheng_llm.Multiplier
use shimiaocheng_llm.Proxy.Concurrency.{Store, increment, decrement}
use shimiaocheng_llm.Proxy.Json.{Json}
use shimiaocheng_llm.Proxy.Body.{
  normalize_content_arrays, compact_messages_to_budget, rewrite_body_model,
}
use shimiaocheng_llm.Proxy.Exchange.{
  Db, Faults, Call, CallLog, Upstream, Response, proxy_error, panicked, ErrorType,
  not_authenticated, concurrency_limit_exceeded, request_entity_too_large, bad_request,
  provider_unavailable, no_provider, internal_error, quota_exceeded, token_5h_quota_exceeded,
  token_week_quota_exceeded, token_quota_exceeded, no_usage, log_row, insert_call_log, log_call,
  handle_sync, handle_stream,
}

-- The handler's fields; a getter that is `none` is nil, and so are the engines that are not set.
pub record Handler : Type 0 where
  pub api_key_getter : Option Text
  pub endpoint_getter : Option Text
  pub quota_checker : Bool
  pub multiplier_eng : Bool
  pub router : Option ProviderTable
  pub compaction_off : Bool

-- The request with what the authentication put in its context. A body that is `none` cannot be
-- read; `latency_ms` is the time that it takes.
pub record HttpRequest : Type 0 where
  pub user_id : ℕ
  pub max_concurrency : ℕ
  pub max_body_size : ℕ
  pub route_mode : Text
  pub fixed_provider : Text
  pub body : Option Text
  pub latency_ms : ℕ

-- What a request works on: the user's counter, the database, and the time multipliers.
pub record World : Type 0 where
  pub store : Store
  pub db : Db
  pub multipliers : Multiplier.Table

-- What the code is given by the libraries and the runtime: JSON, RFC 3339 and the layout of
-- SQLite's datetime, case folding, and the orders in which the two maps are ranged over.
pub record Environment : Type 0 where
  pub json : Json
  pub layout : Layout
  pub parse_datetime : Text → Option Time
  pub fold : ℕ → ℕ
  pub provider_order : List (Text × ProviderEntry) → List (Text × ProviderEntry)
  pub mapping_order : Mappings → Mappings

-- A stage answers the client, or goes on with a value.
pub data Stage {ℓ} (A : Type ℓ) : Type ℓ where
  stop : Response → Stage A
  go : A → Stage A

-- `tryAcquireConcurrency` and `releaseConcurrency` with no step of another request between.
unfoldable pub try_acquire : ℕ → Store → Store × Bool
unfolding increment decrement
try_acquire cap s =
    if cap == 0
    then (s, true)
    else let (s', seen) = increment s in
      if pos cap <ℤ seen then (decrement s.generation s', false) else (s', true)

unfoldable pub release : Store → Store
unfolding decrement
release s = decrement s.generation s

abbrev default_max_body_size : ℕ
default_max_body_size = 1048576

abbrev max_body_size_ceiling : ℕ
max_body_size_ceiling = 33554432

-- The user's budget for a body.
abbrev pub body_budget : HttpRequest → ℕ
body_budget r =
    min (if r.max_body_size == 0 then default_max_body_size else r.max_body_size)
      max_body_size_ceiling

-- The body, read up to the limit.
unfoldable pub read_body : Handler → HttpRequest → Stage Text
read_body h r =
    let limit = if h.compaction_off then body_budget r else max_body_size_ceiling in
    elim r.body [
      | none ↦ stop (proxy_error 400 bad_request)
      | some b ↦
          if ltb limit (length b) then stop (proxy_error 413 request_entity_too_large) else go b
    ]

-- The requested model, with its default, and whether to stream.
unfoldable pub parse_request : Json → Text → Stage (Text × Bool)
parse_request j body = elim (j.request_of body) [
  | none ↦ stop (proxy_error 400 bad_request)
  | some (model, stream) ↦ go (if text_eq model [] then text "glm-5.2" else model, stream)
]

-- The normalized body, compacted where that is on and the body is over the budget.
unfoldable pub prepare_body : Json → Handler → HttpRequest → Text → Text
prepare_body j h r body =
    let normal = normalize_content_arrays j body in
    if not h.compaction_off && ltb (body_budget r) (length normal)
    then compact_messages_to_budget j normal (body_budget r)
    else normal

pub record Upstreams : Type 0 where
  pub provider_id : Text
  pub endpoint : Text
  pub api_key : Text

abbrev route_to : Provider → Upstreams
route_to p = record { provider_id = p.id; endpoint = p.endpoint; api_key = p.api_key }

-- The two getters, or the error where one of them is nil.
legacy_route : Handler → Response → Stage Upstreams
legacy_route h e = elim h.endpoint_getter [
  | none ↦ stop e
  | some endpoint ↦ elim h.api_key_getter [
    | none ↦ stop e
    | some key ↦ go (record { provider_id = text "zhipu"; endpoint = endpoint; api_key = key })
  ]
]

-- The route resolution.
unfoldable pub resolve_route : Environment → Handler → HttpRequest → Time → Stage Upstreams
unfolding legacy_route
resolve_route env h r now = elim h.router [
  | none ↦ legacy_route h (proxy_error 500 internal_error)
  | some table ↦
      if text_eq r.route_mode (text "fixed") && not (text_eq r.fixed_provider [])
      then elim (get_provider_by_slug table r.fixed_provider) [
        | none ↦ stop (proxy_error 503 provider_unavailable)
        | some p ↦ go (route_to p)
      ]
      else elim (resolve_provider env.provider_order table now.nanos) [
        | ok p ↦ go (route_to p)
        | err e ↦ legacy_route h (proxy_error 503 no_provider)
      ]
]

unfoldable pub provider_model : Environment → Handler → Text → Text → Text
provider_model env h model provider_id = elim h.router [
  | none ↦ model
  | some table ↦ rewrite_model env.fold env.mapping_order table model provider_id
]

-- `GetFixedMultiplier`.
unfoldable pub get_fixed_multiplier : Bool → ℕ → List Quota → Reply (Option Float64)
get_fixed_multiplier reads user rows =
    if reads
    then elim (find user rows) [ none ↦ ok none | some q ↦ ok q.fixed_multiplier ]
    else db_error

-- The multiplier of the request; its effective calls are the ceiling.
unfoldable pub multiplier_of : Faults → Time → ℕ → World → Float64
unfolding get_fixed_multiplier
multiplier_of f now user w = elim (get_fixed_multiplier f.fixed_reads user w.db.quotas) [
  | ok (some m) ↦ m
  | _ ↦ get_effective_multiplier f.multiplier_reads w.multipliers now
]

-- `freshWindow`.
unfoldable pub fresh_window : Environment → Time → Text → ℕ → Bool
fresh_window env now [] limit = false
fresh_window env now (c ∷ ts) limit = elim (env.layout.parse (c ∷ ts)) [
  | some t ↦ leb (since now t) limit
  | none ↦ elim (env.parse_datetime (c ∷ ts)) [ some t ↦ leb (since now t) limit | none ↦ false ]
]

-- A week bucket is blamed where the current cycle is fresh.
week_label : Environment → Time → Quota → ErrorType
week_label env now q = elim (env.layout.parse q.week_start) [
  | none ↦ quota_exceeded
  | some ws ↦
      if fresh_window env now (env.layout.format (aligned_cycle_start ws now)) week
      then token_week_quota_exceeded
      else quota_exceeded
]

-- The label of a refusal.
unfoldable pub classify : Environment → Time → Quota → ErrorType
unfolding week_label fresh_window
classify env now q =
    if not (q.token_5h_limit == 0)
      && leb q.token_5h_limit q.token_5h_used
      && fresh_window env now q.window_start (5 * hour)
    then token_5h_quota_exceeded
    else if not (q.token_week_limit == 0)
        && leb q.token_week_limit q.token_week_used
        && not (text_eq q.week_start [])
    then week_label env now q
    else if not (q.token_total_limit == 0) && leb q.token_total_limit q.token_total_used
    then token_quota_exceeded
    else quota_exceeded

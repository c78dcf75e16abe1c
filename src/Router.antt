-- ===== src/Router.antt =====
-- internal/router/selector.go and the snapshot types of internal/provider/store.go: which upstream
-- serves a request. A Go map is an association list; `order` is the order in which the runtime
-- ranges over it.
pub mod Windows
pub mod Precedence
pub mod Selection
pub mod Outcome
pub mod Models
use shimiaocheng_llm.Prelude.{
  ℕ, ◌+◌, ◌-◌, ◌*◌, ◌%◌, Bool, true, false, not, ◌&&◌, List, [], ◌∷◌, Option, none, some, Text,
  text_eq, ℤ, ◌<ℤ◌, ◌==ℤ◌, ltb, leb, ◌==◌, if◌then◌else◌, lookup,
}
use shimiaocheng_llm.TimeUtil.{is_in_range, match_day}

pub record ProviderEntry : Type 0 where
  pub slug : Text
  pub endpoint : Text
  pub api_key : Text
  pub allow_passthrough : Bool
  pub auth_header : Text
  pub auth_scheme : Text
  pub extra_headers : List (Text × Text)

pub record Provider : Type 0 where
  pub id : Text
  pub endpoint : Text
  pub api_key : Text
  pub allow_passthrough : Bool
  pub auth_header : Text
  pub auth_scheme : Text
  pub extra_headers : List (Text × Text)

pub record RoutingRule : Type 0 where
  pub id : ℕ
  pub provider_id : Text
  pub start_time : Text
  pub end_time : Text
  pub days_of_week : Text
  pub timezone : Text
  pub enabled : Bool
  pub priority : ℤ
  pub default_provider_id : Text

pub record ProviderTable : Type 0 where
  pub providers : List (Text × ProviderEntry)
  pub mappings : List (Text × List (Text × Text))
  pub rules : List RoutingRule
  pub default : Text

pub data RouteError : Type 0 where
  rule_unconfigured : ℕ → Text → RouteError
  no_providers : RouteError

pub data Resolved : Type 0 where
  ok : Provider → Resolved
  err : RouteError → Resolved

-- `int(c - '0')` on a byte: the subtraction wraps.
abbrev byte_digit : ℕ → ℕ
byte_digit c = (c + 256 - 48) % 256

clock_minutes : ℕ → ℕ → Option ℕ
clock_minutes h m = if leb h 23 && leb m 59 then some (h * 60 + m) else none

-- `parseHHMM`; `none` is its -1.
unfoldable pub parse_hhmm : Text → Option ℕ
unfolding clock_minutes
parse_hhmm (a ∷ b ∷ c ∷ d ∷ e ∷ []) =
    if c == b':'
    then clock_minutes (byte_digit a * 10 + byte_digit b) (byte_digit d * 10 + byte_digit e)
    else none
parse_hhmm _ = none

window_between : Option ℕ → Option ℕ → ℕ
window_between (some s) (some e) = if leb s e then e - s else 1440 - s + e
window_between _ _ = 1440

-- `windowMinutes`.
unfoldable pub window_minutes : Text → Text → ℕ
unfolding window_between
window_minutes start end = window_between (parse_hhmm start) (parse_hhmm end)

-- The comparison of `sortRoutingRules` on priority, width of the window and id.
unfoldable pub key_before : ℤ → ℕ → ℕ → ℤ → ℕ → ℕ → Bool
key_before pa wa ia pb wb ib =
    if not (pa ==ℤ pb) then pb <ℤ pa else if not (wa == wb) then ltb wa wb else ltb ia ib

abbrev width : RoutingRule → ℕ
width r = window_minutes r.start_time r.end_time

unfoldable pub rule_before : RoutingRule → RoutingRule → Bool
rule_before a b = key_before a.priority (width a) a.id b.priority (width b) b.id

insert_rule : RoutingRule → List RoutingRule → List RoutingRule
insert_rule r [] = r ∷ []
insert_rule r (x ∷ xs) =
    let rest = insert_rule r xs in if rule_before x r then x ∷ rest else r ∷ x ∷ xs

-- `sortRoutingRules`: the stable sort of a copy.
unfoldable pub sort_routing_rules : List RoutingRule → List RoutingRule
unfolding insert_rule
sort_routing_rules [] = []
sort_routing_rules (r ∷ rs) = insert_rule r (sort_routing_rules rs)

-- The struct that every resolution returns for an entry of the snapshot.
unfoldable pub provider_of : ProviderEntry → Provider
provider_of e = record {
  id = e.slug;
  endpoint = e.endpoint;
  api_key = e.api_key;
  allow_passthrough = e.allow_passthrough;
  auth_header = e.auth_header;
  auth_scheme = e.auth_scheme;
  extra_headers = e.extra_headers;
}

first_provider : List (Text × ProviderEntry) → Resolved
unfolding provider_of
first_provider [] = err no_providers
first_provider ((slug, e) ∷ es) = ok (provider_of e)

-- A rule that is enabled and whose window and weekdays hold now.
unfoldable pub is_active : ℕ → RoutingRule → Bool
is_active now r =
    r.enabled && is_in_range r.start_time r.end_time now && match_day r.days_of_week now

-- The outcome of a window hit.
unfoldable pub target : ProviderTable → RoutingRule → Resolved
unfolding provider_of
target table r = elim (lookup text_eq r.provider_id table.providers) [
  | some e ↦ ok (provider_of e)
  | none ↦ err (rule_unconfigured r.id r.provider_id)
]

module _ (order : List (Text × ProviderEntry) → List (Text × ProviderEntry)) where
  -- `defaultProvider`.
  unfoldable pub default_provider : ProviderTable → Resolved
  unfolding provider_of first_provider
  default_provider table = elim table.providers [
    | [] ↦ err no_providers
    | _ ∷ _ ↦ elim (lookup text_eq table.default table.providers) [
      | some e ↦ ok (provider_of e)
      | none ↦ first_provider (order table.providers)
    ]
  ]

  unfoldable pub resolve_rules : ProviderTable → ℕ → List RoutingRule → Resolved
  unfolding is_active target
  resolve_rules table now [] = default_provider table
  resolve_rules table now (r ∷ rs) =
      if is_active now r then target table r else resolve_rules table now rs

  -- `ResolveProvider`.
  unfoldable pub resolve_provider : ProviderTable → ℕ → Resolved
  unfolding resolve_rules sort_routing_rules
  resolve_provider table now = resolve_rules table now (sort_routing_rules table.rules)

-- `GetProviderBySlug`.
unfoldable pub get_provider_by_slug : ProviderTable → Text → Option Provider
unfolding provider_of
get_provider_by_slug table slug = elim (lookup text_eq slug table.providers) [
  | some e ↦ some (provider_of e)
  | none ↦ none
]

-- ===== src/Provider/Rules.antt =====
-- The model mappings, routing rules and audit logs of internal/provider/store.go.
use shimiaocheng_llm.Prelude.{
  ℕ, ◌+◌, Bool, true, false, not, ◌&&◌, ◌||◌, List, [], ◌∷◌, ◌++◌, Option, none, some, Text, text,
  text_eq, ◌==◌, if◌then◌else◌, ℤ, pos_part, keep, any, Result, ok, err, leb_ℤ, neg_part,
}
use shimiaocheng_llm.GoTime.{Time}
use shimiaocheng_llm.Router.{RoutingRule}
use shimiaocheng_llm.Provider.{
  ModelMappingRecord, Tables, Codec, Steps, StoreError, insert_failed, update_failed, delete_failed,
  no_fields, read_failed, write_audit,
}
use shimiaocheng_llm.Provider.Update.{set_or}

-- `ListMappings` and `ListRoutingRules`.
unfoldable pub list_mappings : Bool → Tables → Result StoreError (List ModelMappingRecord)
list_mappings reads t = if reads then ok t.mappings else err read_failed

unfoldable pub list_routing_rules : Bool → Tables → Result StoreError (List RoutingRule)
list_routing_rules reads t = if reads then ok t.rules else err read_failed

abbrev pub has_pair : Text → Text → ModelMappingRecord → Bool
has_pair external provider m = text_eq m.external external && text_eq m.provider_id provider

-- `INSERT INTO model_mappings`: the pair (external, provider_id) is unique, and the provider exists.
unfoldable pub insert_mapping : Tables → ModelMappingRecord → Option Tables
insert_mapping t m =
    if any (has_pair m.external m.provider_id) t.mappings
      || not (any (λ p. text_eq p.slug m.provider_id) t.providers)
    then none
    else some (record t { mappings = t.mappings ++ m ∷ []; next_mapping = t.next_mapping + 1 })

abbrev mapping_detail : Text → Text → Text → Text
mapping_detail external provider model =
    text "{\"external\":\""
    ++ external
    ++ text "\",\"provider_id\":\""
    ++ provider
    ++ text "\",\"real_model\":\""
    ++ model
    ++ text "\"}"

abbrev pub mapping_row : Codec → Time → ℕ → Text → Text → Text → ModelMappingRecord
mapping_row c now n external provider model = record {
  id = n;
  external = external;
  provider_id = provider;
  real_model = model;
  created_at = c.layout.format now;
}

-- `CreateMapping`.
unfoldable pub create_mapping :
    Codec
    → Steps
    → Time
    → (external provider model : Text) → Tables
    → Tables × Result StoreError ModelMappingRecord
unfolding insert_mapping
create_mapping c s now external provider model t =
    let row = mapping_row c now t.next_mapping external provider model in
    elim (if s.writes then insert_mapping t row else none) [
      | none ↦ (t, err insert_failed)
      | some t' ↦ (
        write_audit c s.audits now (text "mapping.create") (text "model_mapping")
            (c.decimal t.next_mapping) (mapping_detail external provider model) t',
        ok row,
      )
    ]

-- `DeleteMapping`.
unfoldable pub delete_mapping : Codec → Steps → Time → ℕ → Tables → Tables × Option StoreError
delete_mapping c s now id t =
    if s.writes
    then (
      write_audit c s.audits now (text "mapping.delete") (text "model_mapping") (c.decimal id) []
          (record t { mappings = keep (λ m. not (m.id == id)) t.mappings }),
      none,
    )
    else (t, some delete_failed)

-- "%d" of an integer that may be negative.
abbrev print_int : Codec → ℤ → Text
print_int c z = if leb_ℤ 0 z then c.decimal (pos_part z) else b'-' ∷ c.decimal (neg_part z)

abbrev rule_detail : Codec → RoutingRule → Text
rule_detail c r =
    text "{\"provider_id\":\""
    ++ r.provider_id
    ++ text "\",\"start_time\":\""
    ++ r.start_time
    ++ text "\",\"end_time\":\""
    ++ r.end_time
    ++ text "\",\"priority\":"
    ++ print_int c r.priority
    ++ text "}"

-- `CreateRoutingRule`: the id of the given rule is replaced, default_provider_id is not inserted.
unfoldable pub create_routing_rule :
    Codec → Steps → Time → RoutingRule → Tables → Tables × Result StoreError RoutingRule
create_routing_rule c s now r t =
    let row = record r { id = t.next_rule } in
    if s.writes
    then (
      write_audit c s.audits now (text "routing_rule.create") (text "routing_rule")
          (c.decimal t.next_rule) (rule_detail c r)
          (record t {
            rules = t.rules ++ record row { default_provider_id = [] } ∷ [];
            next_rule = t.next_rule + 1;
          }),
      ok row,
    )
    else (t, err insert_failed)

-- The keys of UpdateRoutingRule's map, with values of the types that the panel gives them.
pub record RuleUpdates : Type 0 where
  pub provider_id : Option Text
  pub start_time : Option Text
  pub end_time : Option Text
  pub days_of_week : Option Text
  pub priority : Option ℤ
  pub enabled : Option Bool

abbrev pub is_set {ℓ} : {A : Type ℓ} → Option A → Bool
is_set none = false
is_set (some a) = true

-- Whether the UPDATE sets a column.
abbrev pub sets_column : RuleUpdates → Bool
sets_column u =
    is_set u.provider_id
    || is_set u.start_time
    || is_set u.end_time
    || is_set u.days_of_week
    || is_set u.priority
    || is_set u.enabled

abbrev pub apply_rule : RuleUpdates → RoutingRule → RoutingRule
apply_rule u r = record r {
  provider_id = set_or u.provider_id r.provider_id;
  start_time = set_or u.start_time r.start_time;
  end_time = set_or u.end_time r.end_time;
  days_of_week = set_or u.days_of_week r.days_of_week;
  priority = set_or u.priority r.priority;
  enabled = set_or u.enabled r.enabled;
}

unfoldable pub update_id : (RoutingRule → RoutingRule) → ℕ → List RoutingRule → List RoutingRule
update_id f id [] = []
update_id f id (r ∷ rs) = (if r.id == id then f r else r) ∷ update_id f id rs

-- `UpdateRoutingRule`; `printed` is the map as fmt prints it.
unfoldable pub update_routing_rule :
    Codec → Steps → Time → (printed : Text) → ℕ → RuleUpdates → Tables → Tables × Option StoreError
unfolding update_id
update_routing_rule c s now printed id u t =
    if not (sets_column u)
    then (t, some no_fields)
    else if s.writes
    then (
      write_audit c s.audits now (text "routing_rule.update") (text "routing_rule") (c.decimal id)
          printed (record t { rules = update_id (apply_rule u) id t.rules }),
      none,
    )
    else (t, some update_failed)

-- `DeleteRoutingRule`.
unfoldable pub delete_routing_rule : Codec → Steps → Time → ℕ → Tables → Tables × Option StoreError
delete_routing_rule c s now id t =
    if s.writes
    then (
      write_audit c s.audits now (text "routing_rule.delete") (text "routing_rule") (c.decimal id)
          [] (record t { rules = keep (λ r. not (r.id == id)) t.rules }),
      none,
    )
    else (t, some delete_failed)

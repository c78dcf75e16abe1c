-- ===== src/Provider/RulePreservation.antt =====
-- The operations of store.go on mappings and routing rules keep the tables well formed.
use shimiaocheng_llm.Prelude.{
  ℕ, ◌+◌, ◌≡◌, refl, ap, subst, inl, inr, Bool, false, not, ◌||◌, List, [], ◌∷◌, ◌++◌, Option, none,
  some, Option-cases, Text, text_eq, ◌==◌, if◌then◌else◌, map, keep, any, Bool-cases, arith,
  IsDistinct-append, IsDistinct-keep, IsNumbered, IsNumbered-append, IsNumbered-keep,
  IsNumbered-map, All-append, All-keep,
}
use shimiaocheng_llm.GoTime.{Time}
use shimiaocheng_llm.Router.{RoutingRule}
use shimiaocheng_llm.Provider.{ModelMappingRecord, Tables, Codec, Steps}
use shimiaocheng_llm.Provider.Rules.{
  RuleUpdates, create_mapping, delete_mapping, insert_mapping, mapping_row, has_pair,
  create_routing_rule, update_routing_rule, delete_routing_rule, update_id, apply_rule, sets_column,
}
use shimiaocheng_llm.Provider.Rows.{text_eq_symm}
use shimiaocheng_llm.Provider.Invariant.{
  IsWellFormed, IsReferenced, same_pair, write_audit-IsWellFormed,
}

has_pair_symm : (m n : ModelMappingRecord) → same_pair m n ≡ same_pair n m
has_pair_symm m n =
    rw (text_eq_symm n.external m.external, text_eq_symm n.provider_id m.provider_id) refl

pub update_id-map :
    (f : RoutingRule → RoutingRule) (id : ℕ) (rs : List RoutingRule)
    → update_id f id rs ≡ map (λ r. if r.id == id then f r else r) rs
unfolding update_id
update_id-map f id [] = refl
update_id-map f id (r ∷ rs) = ap (λ t. (if r.id == id then f r else r) ∷ t) (update_id-map f id rs)

-- A mapping whose pair is new, to a provider that exists.
pub insert_mapping-IsWellFormed :
    (t t' : Tables) (m : ModelMappingRecord)
    → insert_mapping t m ≡ some t'
    → m.id ≡ t.next_mapping
    → IsWellFormed t
    → IsWellFormed t'
unfolding insert_mapping
insert_mapping-IsWellFormed t t' m e i w =
    elim (Bool-cases (
      any (has_pair m.external m.provider_id) t.mappings
      || not (any (λ p. text_eq p.slug m.provider_id) t.providers))) [
        | inl h ↦ absurd (clash (rw (h, insert_mapping) at e))
        | inr h ↦ subst IsWellFormed (same (rw (h, insert_mapping) at e)) (inserted h)
      ]
  where
    clash : ◌≡◌ {A = Option Tables} none (some t') → ⊥
    clash h = cc

    same : {u v : Tables} → ◌≡◌ {A = Option Tables} (some u) (some v) → u ≡ v
    same h = cc

    inserted :
        (any (has_pair m.external m.provider_id) t.mappings
            || not (any (λ p. text_eq p.slug m.provider_id) t.providers))
          ≡ false
        → IsWellFormed
            (record t { mappings = t.mappings ++ m ∷ []; next_mapping = t.next_mapping + 1 })
    inserted h = record {
      slugs = w.slugs;
      one_default = w.one_default;
      pairs = IsDistinct-append same_pair t.mappings m has_pair_symm (ground (arith, h)) w.pairs;
      references =
          All-append (IsReferenced t.providers) t.mappings m w.references (ground (arith, h));
      provider_ids = w.provider_ids;
      mapping_ids = IsNumbered-append (λ m. m.id) 1 t.next_mapping t.mappings m i w.mapping_ids;
      rule_ids = w.rule_ids;
      audit_ids = w.audit_ids;
    }

module _ (t : Tables) (w : IsWellFormed t) where
  with_rules :
      (rs : List RoutingRule) (n : ℕ)
      → IsNumbered (λ r. r.id) 1 n rs
      → IsWellFormed (record t { rules = rs; next_rule = n })
  with_rules rs n k = record {
    slugs = w.slugs;
    one_default = w.one_default;
    pairs = w.pairs;
    references = w.references;
    provider_ids = w.provider_ids;
    mapping_ids = w.mapping_ids;
    rule_ids = k;
    audit_ids = w.audit_ids;
  }

  unmapped-IsWellFormed :
      (q : ModelMappingRecord → Bool) → IsWellFormed (record t { mappings = keep q t.mappings })
  unmapped-IsWellFormed q = record {
    slugs = w.slugs;
    one_default = w.one_default;
    pairs = IsDistinct-keep same_pair q t.mappings w.pairs;
    references =
        All-keep (IsReferenced t.providers) (IsReferenced t.providers) q t.mappings (λ m e h. h)
          w.references;
    provider_ids = w.provider_ids;
    mapping_ids = IsNumbered-keep (λ m. m.id) 1 t.next_mapping q t.mappings w.mapping_ids;
    rule_ids = w.rule_ids;
    audit_ids = w.audit_ids;
  }

module _ (c : Codec) (s : Steps) (now : Time) (t : Tables) (w : IsWellFormed t) where
  pub create_mapping-IsWellFormed : (e p m : Text) → IsWellFormed (create_mapping c s now e p m t).0
  unfolding create_mapping
  create_mapping-IsWellFormed e p m = elim (Bool-cases s.writes) [
    | inr b ↦ rw b w
    | inl b ↦ elim (Option-cases (insert_mapping t (mapping_row c now t.next_mapping e p m))) [
      | inl k ↦ rw (b, k, create_mapping) w
      | inr (t', k) ↦
          rw (b, k, create_mapping)
            (write_audit-IsWellFormed c s.audits now _ _ _ _ t'
              (insert_mapping-IsWellFormed t t' (mapping_row c now t.next_mapping e p m) k refl w))
    ]
  ]

  pub delete_mapping-IsWellFormed : (id : ℕ) → IsWellFormed (delete_mapping c s now id t).0
  unfolding delete_mapping
  delete_mapping-IsWellFormed id = elim (Bool-cases s.writes) [
    | inl b ↦ rw b (
        write_audit-IsWellFormed c s.audits now _ _ _ _ _
          (unmapped-IsWellFormed t w (λ m. not (m.id == id))))
    | inr b ↦ rw b w
  ]

  pub create_routing_rule-IsWellFormed :
      (r : RoutingRule) → IsWellFormed (create_routing_rule c s now r t).0
  unfolding create_routing_rule
  create_routing_rule-IsWellFormed r = elim (Bool-cases s.writes) [
    | inl b ↦ rw b (
        write_audit-IsWellFormed c s.audits now _ _ _ _ _ (
          with_rules t w _ (t.next_rule + 1)
            (IsNumbered-append (λ r. r.id) 1 t.next_rule t.rules _ refl w.rule_ids)))
    | inr b ↦ rw b w
  ]

  pub update_routing_rule-IsWellFormed :
      (printed : Text) (id : ℕ) (u : RuleUpdates)
      → IsWellFormed (update_routing_rule c s now printed id u t).0
  unfolding update_routing_rule
  update_routing_rule-IsWellFormed printed id u = elim (Bool-cases (not (sets_column u))) [
    | inl k ↦ rw k w
    | inr k ↦ elim (Bool-cases s.writes) [
      | inl b ↦
          rw (k, b)
            (write_audit-IsWellFormed c s.audits now _ _ _ _ _
              (with_rules t w (update_id (apply_rule u) id t.rules) t.next_rule renumbered))
      | inr b ↦ rw (k, b) w
    ]
  ]
    where
      renumbered : IsNumbered (λ r. r.id) 1 t.next_rule (update_id (apply_rule u) id t.rules)
      renumbered =
          rw (update_id-map (apply_rule u) id t.rules)
            (IsNumbered-map (λ r. r.id) 1 t.next_rule _ t.rules (λ r. same r) w.rule_ids)
        where
          same : (r : RoutingRule) → (if r.id == id then apply_rule u r else r).id ≡ r.id
          same r = elim (Bool-cases (r.id == id)) [ inl e ↦ rw e refl | inr e ↦ rw e refl ]

  pub delete_routing_rule-IsWellFormed :
      (id : ℕ) → IsWellFormed (delete_routing_rule c s now id t).0
  unfolding delete_routing_rule
  delete_routing_rule-IsWellFormed id = elim (Bool-cases s.writes) [
    | inl b ↦ rw b (
        write_audit-IsWellFormed c s.audits now _ _ _ _ _ (
          with_rules t w _ t.next_rule
            (IsNumbered-keep (λ r. r.id) 1 t.next_rule _ t.rules w.rule_ids)))
    | inr b ↦ rw b w
  ]

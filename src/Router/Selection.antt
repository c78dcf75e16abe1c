-- ===== src/Router/Selection.antt =====
-- ResolveProvider, defaultProvider and GetProviderBySlug of internal/router/selector.go.
use native.Mathlib.Decide.{ℕ_discrete}
use shimiaocheng_llm.Prelude.{
  ℕ, ◌≡◌, refl, sym, ap, ◌∙◌, ◌⊎◌, inl, inr, true, false, List, [], ◌∷◌, Text, All, In, All-In,
  All-of_In, Bool-cases,
}
use shimiaocheng_llm.Router.{
  RoutingRule, ProviderEntry, ProviderTable, rule_before, sort_routing_rules, default_provider,
  is_active, target, resolve_rules, resolve_provider,
}
use shimiaocheng_llm.Router.Precedence.{
  IsOrdered, sort_routing_rules-IsOrdered, All-sort, In-sort, rule_before_irrefl, rule_before-total,
}

-- The outcome comes from this rule: it is in force, and no rule in force comes before it.
pub record Hit (rules : List RoutingRule) (now : ℕ) : Type 0 where
  pub rule : RoutingRule
  pub member : In rule rules
  pub active : is_active now rule ≡ true
  pub first : (s : RoutingRule) → In s rules → is_active now s ≡ true → rule_before s rule ≡ false

head_hit :
    (x : RoutingRule) (xs : List RoutingRule) (now : ℕ)
    → is_active now x ≡ true
    → All (λ s. rule_before s x ≡ false) xs
    → Hit (x ∷ xs) now
head_hit x xs now a o = record { rule = x; member = inl refl; active = a; first = first }
  where
    first : (s : RoutingRule) → In s (x ∷ xs) → is_active now s ≡ true → rule_before s x ≡ false
    first s (inl e) b = rw e (rule_before_irrefl x)
    first s (inr m) b = All-In (λ s. rule_before s x ≡ false) s xs o m

tail_hit :
    (x : RoutingRule) (xs : List RoutingRule) (now : ℕ)
    → is_active now x ≡ false
    → Hit xs now
    → Hit (x ∷ xs) now
tail_hit x xs now a h = record {
  rule = h.rule;
  member = inr h.member;
  active = h.active;
  first = first;
}
  where
    first :
        (s : RoutingRule) → In s (x ∷ xs) → is_active now s ≡ true → rule_before s h.rule ≡ false
    first s (inl e) b = cc
    first s (inr m) b = h.first s m b

module _ (order : List (Text × ProviderEntry) → List (Text × ProviderEntry)) (table : ProviderTable)
    (now : ℕ) where
  resolve_rules-skip :
      (xs : List RoutingRule)
      → All (λ s. is_active now s ≡ false) xs
      → resolve_rules order table now xs ≡ default_provider order table
  unfolding resolve_rules
  resolve_rules-skip [] h = refl
  resolve_rules-skip (x ∷ xs) h = rw (h.0) (resolve_rules-skip xs h.1)

  -- The first rule in force of an ordered list, or none is in force.
  resolve_rules-cases :
      (xs : List RoutingRule)
      → IsOrdered xs
      → All (λ s. is_active now s ≡ false) xs
        ⊎ ((h : Hit xs now) × (resolve_rules order table now xs ≡ target table h.rule))
  unfolding resolve_rules head_hit tail_hit
  resolve_rules-cases [] o = inl tt
  resolve_rules-cases (x ∷ xs) o = elim (Bool-cases (is_active now x)) [
    | inl e ↦ inr (head_hit x xs now e o.0, rw e)
    | inr e ↦ later e (resolve_rules-cases xs o.1)
  ]
    where
      later :
          is_active now x ≡ false
          → All (λ s. is_active now s ≡ false) xs
            ⊎ ((h : Hit xs now) × (resolve_rules order table now xs ≡ target table h.rule))
          → All (λ s. is_active now s ≡ false) (x ∷ xs)
            ⊎ ((h : Hit (x ∷ xs) now) × (resolve_rules order table now (x ∷ xs)
                  ≡ target table h.rule))
      later e (inl none_active) = inl (e, none_active)
      later e (inr (h, p)) = inr (tail_hit x xs now e h, rw e p)

In-unsort : (a : RoutingRule) (rs : List RoutingRule) → In a (sort_routing_rules rs) → In a rs
In-unsort a rs m =
    All-In (λ x. In x rs) a (sort_routing_rules rs)
      (All-sort (λ x. In x rs) rs (All-of_In (λ x. In x rs) rs (λ b k. k))) m

unsort_hit : (rs : List RoutingRule) (now : ℕ) → Hit (sort_routing_rules rs) now → Hit rs now
unsort_hit rs now h = record {
  rule = h.rule;
  member = In-unsort h.rule rs h.member;
  active = h.active;
  first = λ s m a. h.first s (In-sort s rs m) a;
}

-- No rule is in force and the default is used, or the outcome is the target of a first rule.
abbrev pub RouteCases :
    (List (Text × ProviderEntry) → List (Text × ProviderEntry)) → ProviderTable → ℕ → Type 0
RouteCases order table now =
    (((s : RoutingRule) → In s table.rules → is_active now s ≡ false)
      × (resolve_provider order table now ≡ default_provider order table))
    ⊎ ((h : Hit table.rules now) × (resolve_provider order table now ≡ target table h.rule))

module _ (order : List (Text × ProviderEntry) → List (Text × ProviderEntry)) (table : ProviderTable)
    (now : ℕ) where
  -- Either no rule is in force and the default provider is used, or the outcome is the target of
  -- a rule in force that no other rule in force comes before: a hit never falls back to the
  -- default, also when its provider is not configured.
  pub resolve_provider-cases : RouteCases order table now
  unfolding resolve_provider unsort_hit
  resolve_provider-cases =
      elim (resolve_rules-cases order table now (sort_routing_rules table.rules)
        (sort_routing_rules-IsOrdered table.rules)) [
          | inl off ↦ inl (
            (λ s m.
                All-In (λ s. is_active now s ≡ false) s (sort_routing_rules table.rules) off
                  (In-sort s table.rules m)),
            resolve_rules-skip order table now _ off,
          )
          | inr (h, p) ↦ inr (unsort_hit table.rules now h, p)
        ]

-- Two rules of the list with one id are one rule: `id` is the primary key.
abbrev pub HasDistinctIds : List RoutingRule → Type 0
HasDistinctIds rs = (a b : RoutingRule) → In a rs → In b rs → a.id ≡ b.id → a ≡ b

-- Of the rules in force, the one that nobody comes before is unique.
Hit-unique :
    (rs ss : List RoutingRule) (now : ℕ)
    → HasDistinctIds rs
    → ((a : RoutingRule) → In a rs → In a ss)
    → ((a : RoutingRule) → In a ss → In a rs)
    → (h : Hit rs now) (k : Hit ss now) → h.rule ≡ k.rule
Hit-unique rs ss now d into back h k = elim (ℕ_discrete h.rule.id k.rule.id) [
  | yes e ↦ d h.rule k.rule h.member (back k.rule k.member) e
  | no ne ↦
      clash (rule_before-total h.rule k.rule ne (h.first k.rule (back k.rule k.member) k.active))
        (k.first h.rule (into h.rule h.member) h.active)
]
  where
    clash : rule_before h.rule k.rule ≡ true → rule_before h.rule k.rule ≡ false → h.rule ≡ k.rule
    clash p q = cc

module _ (order : List (Text × ProviderEntry) → List (Text × ProviderEntry)) (table : ProviderTable)
    (rs : List RoutingRule) (now : ℕ) where
  -- Which upstream is chosen depends on the set of rules alone: where ids are distinct, neither
  -- the order of the rows nor a repetition of them changes the outcome.
  pub resolve_provider-order_free :
      HasDistinctIds table.rules
      → ((a : RoutingRule) → In a table.rules → In a rs)
      → ((a : RoutingRule) → In a rs → In a table.rules)
      → resolve_provider order (record table { rules = rs }) now ≡ resolve_provider order table now
  unfolding default_provider target
  resolve_provider-order_free d into back =
      both (resolve_provider-cases order table now)
        (resolve_provider-cases order (record table { rules = rs }) now)
    where
      both :
          RouteCases order table now
          → RouteCases order (record table { rules = rs }) now
          → resolve_provider order (record table { rules = rs }) now
            ≡ resolve_provider order table now
      both (inl (off, p)) (inl (off', q)) = q ∙ sym p
      both (inl (off, p)) (inr (k, q)) = cc (off k.rule (back k.rule k.member), k.active)
      both (inr (h, p)) (inl (off', q)) = cc (off' h.rule (into h.rule h.member), h.active)
      both (inr (h, p)) (inr (k, q)) =
          q ∙ ap (target table) (sym (Hit-unique table.rules rs now d into back h k)) ∙ sym p

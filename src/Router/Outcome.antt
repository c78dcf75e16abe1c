-- ===== src/Router/Outcome.antt =====
-- What ResolveProvider of internal/router/selector.go can return, from any snapshot.
use shimiaocheng_llm.Prelude.{
  ℕ, ◌≡◌, refl, sym, ◌∙◌, ◌⊎◌, inl, inr, false, List, [], ◌∷◌, none, some, Text, text_eq, arith, In,
  Bool-cases, Option-cases, lookup, eq_of_text_eq,
}
use shimiaocheng_llm.Router.{
  RoutingRule, ProviderEntry, ProviderTable, Resolved, ok, err, rule_unconfigured, no_providers,
  provider_of, first_provider, default_provider, is_active, target, resolve_provider,
}
use shimiaocheng_llm.Router.Selection.{Hit, RouteCases, resolve_provider-cases}

abbrev pub Providers : Type 0
Providers = List (Text × ProviderEntry)

-- The runtime ranges over a map in some order of its own entries.
pub record IsRange (order : Providers → Providers) : Type 0 where
  pub from : (m : Providers) (x : Text × ProviderEntry) → In x (order m) → In x m
  pub all : (m : Providers) → order m ≡ [] → m ≡ []

pub lookup-In :
    {Val : Type 0} (k : Text) (v : Val) (m : List (Text × Val))
    → lookup text_eq k m ≡ some v
    → In (k, v) m
lookup-In {Val} k v [] h = cc
lookup-In {Val} k v ((j, w) ∷ m) h = elim (Bool-cases (text_eq j k)) [
  | inl e ↦ inl (pair (eq_of_text_eq j k e) (rw e at h))
  | inr e ↦ inr (lookup-In k v m (rw e at h))
]
  where
    pair : j ≡ k → some w ≡ some v → ◌≡◌ {A = Text × Val} (k, v) (j, w)
    pair p q = cc

-- An entry of the snapshot as a successful outcome.
pub record FromTable (table : ProviderTable) (r : Resolved) : Type 0 where
  pub key : Text
  pub entry : ProviderEntry
  pub member : In (key, entry) table.providers
  pub outcome : r ≡ ok (provider_of entry)

-- A rule in force whose provider the snapshot lacks.
pub record Misconfigured (table : ProviderTable) (now : ℕ) (r : Resolved) : Type 0 where
  pub hit : Hit table.rules now
  pub missing : lookup text_eq hit.rule.provider_id table.providers ≡ none
  pub outcome : r ≡ err (rule_unconfigured hit.rule.id hit.rule.provider_id)

target-cases :
    (table : ProviderTable) (now : ℕ) (h : Hit table.rules now)
    → FromTable table (target table h.rule) ⊎ Misconfigured table now (target table h.rule)
unfolding target
target-cases table now h = elim (Option-cases (lookup text_eq h.rule.provider_id table.providers)) [
  | inl e ↦ inr (record { hit = h; missing = e; outcome = rw (e, target) refl })
  | inr (v, e) ↦ inl (record {
    key = h.rule.provider_id;
    entry = v;
    member = lookup-In h.rule.provider_id v table.providers e;
    outcome = rw (e, target) refl;
  })
]

first_provider-cases :
    (table : ProviderTable) (l : Providers)
    → ((x : Text × ProviderEntry) → In x l → In x table.providers)
    → (l ≡ []) ⊎ FromTable table (first_provider l)
unfolding first_provider
first_provider-cases table [] h = inl refl
first_provider-cases table ((k, e) ∷ l) h =
    inr (record { key = k; entry = e; member = h (k, e) (inl refl); outcome = refl })

default_provider-found :
    (order : Providers → Providers) (table : ProviderTable) (m : Providers) (e : ProviderEntry)
    → table.providers ≡ m
    → lookup text_eq table.default m ≡ some e
    → default_provider order table ≡ ok (provider_of e)
unfolding default_provider
default_provider-found order table [] e p q = cc
default_provider-found order table (x ∷ m) e p q = ground arith

default_provider-missing :
    (order : Providers → Providers) (table : ProviderTable) (x : Text × ProviderEntry)
    (m : Providers)
    → table.providers ≡ x ∷ m
    → lookup text_eq table.default (x ∷ m) ≡ none
    → default_provider order table ≡ first_provider (order table.providers)
unfolding default_provider
default_provider-missing order table x m p q = ground arith

FromTable-along :
    (table : ProviderTable) (r s : Resolved) → r ≡ s → FromTable table s → FromTable table r
FromTable-along table r s p f = record {
  key = f.key;
  entry = f.entry;
  member = f.member;
  outcome = p ∙ f.outcome;
}

-- With a provider in the snapshot the default resolution is an entry of it.
default_provider-FromTable :
    (order : Providers → Providers) (table : ProviderTable) (m : Providers)
    → IsRange order
    → table.providers ≡ m
    → (m ≡ []) ⊎ FromTable table (default_provider order table)
default_provider-FromTable order table [] g p = inl refl
default_provider-FromTable order table (x ∷ m) g p =
    elim (Option-cases (lookup text_eq table.default (x ∷ m))) [
      | inr (e, q) ↦ inr (record {
        key = table.default;
        entry = e;
        member = rw p (lookup-In table.default e (x ∷ m) q);
        outcome = default_provider-found order table (x ∷ m) e p q;
      })
      | inl q ↦
          first (default_provider-missing order table x m p q)
            (first_provider-cases table (order table.providers) (g.from table.providers))
    ]
  where
    first :
        default_provider order table ≡ first_provider (order table.providers)
        → (order table.providers ≡ []) ⊎ FromTable table (first_provider (order table.providers))
        → (x ∷ m ≡ []) ⊎ FromTable table (default_provider order table)
    first q (inl e) = inl (sym p ∙ g.all table.providers e)
    first q (inr f) = inr (FromTable-along table _ _ q f)

default_provider-none :
    (order : Providers → Providers) (table : ProviderTable)
    → table.providers ≡ []
    → default_provider order table ≡ err no_providers
unfolding default_provider
default_provider-none order table p = rw (p, default_provider) refl

-- The three kinds of outcome.
abbrev pub Outcomes : (Providers → Providers) → ProviderTable → ℕ → Type 0
Outcomes order table now =
    FromTable table (resolve_provider order table now)
    ⊎ Misconfigured table now (resolve_provider order table now)
    ⊎ ((table.providers ≡ [])
        × (resolve_provider order table now ≡ err no_providers)
        × ((s : RoutingRule) → In s table.rules → is_active now s ≡ false))

-- Every outcome of a resolution: an entry of the snapshot; a refusal because the first rule in
-- force names a provider that the snapshot lacks; or, with no provider at all and no rule in
-- force, the refusal that says so.
pub resolve_provider-Outcomes :
    (order : Providers → Providers) (table : ProviderTable) (now : ℕ)
    → IsRange order
    → Outcomes order table now
resolve_provider-Outcomes order table now g = outcome (resolve_provider-cases order table now)
  where
    at_target :
        (h : Hit table.rules now)
        → resolve_provider order table now ≡ target table h.rule
        → FromTable table (target table h.rule) ⊎ Misconfigured table now (target table h.rule)
        → Outcomes order table now
    at_target h p (inl f) = inl (FromTable-along table _ _ p f)
    at_target h p (inr f) =
        inr (inl (record { hit = f.hit; missing = f.missing; outcome = p ∙ f.outcome }))

    at_default :
        ((s : RoutingRule) → In s table.rules → is_active now s ≡ false)
        → resolve_provider order table now ≡ default_provider order table
        → (table.providers ≡ []) ⊎ FromTable table (default_provider order table)
        → Outcomes order table now
    at_default off p (inl e) = inr (inr (e, p ∙ default_provider-none order table e, off))
    at_default off p (inr f) = inl (FromTable-along table _ _ p f)

    outcome : RouteCases order table now → Outcomes order table now
    outcome (inl (off, p)) =
        at_default off p (default_provider-FromTable order table table.providers g refl)
    outcome (inr (h, p)) = at_target h p (target-cases table now h)

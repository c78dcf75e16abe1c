-- ===== src/Provider/Invariant.antt =====
-- The tables of store.go under any sequence of its operations, failures included.
use shimiaocheng_llm.Prelude.{
  ◌+◌, ◌≤◌, ◌≡◌, refl, sym, ◌∙◌, subst, inl, inr, Bool, true, false, List, [], ◌∷◌, ◌++◌, Option,
  none, some, Option-cases, Text, map, any, All, Bool-cases, arith, IsDistinct, IsDistinct-append,
  IsDistinct-map, any-map, any-append, ◌⊎◌, IsNumbered, IsNumbered-append, IsNumbered-map,
  All-weaken,
}
use shimiaocheng_llm.GoTime.{Time}
use shimiaocheng_llm.Provider.{
  ProviderRecord, ModelMappingRecord, Tables, Codec, find_slug, write_audit, clear_default,
}
use shimiaocheng_llm.Provider.Create.{insert_row, cleared}
use shimiaocheng_llm.Provider.Rules.{has_pair}
use shimiaocheng_llm.Provider.Rows.{
  has_slug, same_slug, text_eq_symm, find_slug-none, clear_defaults-map, KeepsKey,
  clear_default-KeepsKey, defaults, defaults-append, defaults-clear,
}

abbrev pub same_pair : ModelMappingRecord → ModelMappingRecord → Bool
same_pair m n = has_pair m.external m.provider_id n

-- The mapping's provider is a row of the table.
abbrev pub IsReferenced : List ProviderRecord → ModelMappingRecord → Type 0
IsReferenced ps m = any (has_slug m.provider_id) ps ≡ true

pub record IsWellFormed (t : Tables) : Type 0 where
  pub slugs : IsDistinct same_slug t.providers
  pub one_default : defaults t.providers ≤ 1
  pub pairs : IsDistinct same_pair t.mappings
  pub references : All (IsReferenced t.providers) t.mappings
  pub provider_ids : IsNumbered (λ p. p.id) 1 t.next_provider t.providers
  pub mapping_ids : IsNumbered (λ m. m.id) 1 t.next_mapping t.mappings
  pub rule_ids : IsNumbered (λ r. r.id) 1 t.next_rule t.rules
  pub audit_ids : IsNumbered (λ a. a.id) 1 t.next_audit t.audit_logs

pub write_audit-IsWellFormed :
    (c : Codec) (audits : Bool) (now : Time) (a tt' ti d : Text) (t : Tables)
    → IsWellFormed t
    → IsWellFormed (write_audit c audits now a tt' ti d t)
unfolding write_audit
write_audit-IsWellFormed c false now a tt' ti d t w = w
write_audit-IsWellFormed c true now a tt' ti d t w = record {
  slugs = w.slugs;
  one_default = w.one_default;
  pairs = w.pairs;
  references = w.references;
  provider_ids = w.provider_ids;
  mapping_ids = w.mapping_ids;
  rule_ids = w.rule_ids;
  audit_ids = IsNumbered-append (λ a. a.id) 1 t.next_audit t.audit_logs _ refl w.audit_ids;
}

-- The rows after a change that keeps slugs and ids.
module _ (f : ProviderRecord → ProviderRecord) (k : KeepsKey f) (t : Tables) where
  pub changed-IsWellFormed :
      IsWellFormed t
      → defaults (map f t.providers) ≤ 1
      → IsWellFormed (record t { providers = map f t.providers })
  changed-IsWellFormed w d = record {
    slugs = IsDistinct-map same_slug f t.providers (λ p q. rw (k.slug p, k.slug q) refl) w.slugs;
    one_default = d;
    pairs = w.pairs;
    references =
        All-weaken (IsReferenced t.providers) (IsReferenced (map f t.providers)) t.mappings
          (λ m h. any-map (has_slug m.provider_id) f t.providers (λ p. rw (k.slug p) refl) ∙ h)
          w.references;
    provider_ids = IsNumbered-map (λ p. p.id) 1 t.next_provider f t.providers k.id w.provider_ids;
    mapping_ids = w.mapping_ids;
    rule_ids = w.rule_ids;
    audit_ids = w.audit_ids;
  }

pub cleared-IsWellFormed : (b : Bool) (t : Tables) → IsWellFormed t → IsWellFormed (cleared b t)
cleared-IsWellFormed false t w = w
cleared-IsWellFormed true t w = rw (clear_defaults-map t.providers) (
    changed-IsWellFormed clear_default clear_default-KeepsKey t w (
      subst (λ ps. defaults ps ≤ 1) (clear_defaults-map t.providers)
        (omega (arith, defaults-clear t.providers))))

-- A row whose slug is new, and that is marked only where no other is.
pub insert_row-IsWellFormed :
    (t t' : Tables) (p : ProviderRecord)
    → insert_row t p ≡ some t'
    → p.id ≡ t.next_provider
    → (p.is_default ≡ true → defaults t.providers ≡ 0)
    → IsWellFormed t
    → IsWellFormed t'
unfolding insert_row
insert_row-IsWellFormed t t' p e i d w = elim (Option-cases (find_slug p.slug t.providers)) [
  | inr (q, h) ↦ absurd (clash (rw (h, insert_row) at e))
  | inl h ↦
      subst IsWellFormed (same (rw (h, insert_row) at e))
        (inserted (find_slug-none p.slug t.providers h))
]
  where
    clash : ◌≡◌ {A = Option Tables} none (some t') → ⊥
    clash h = cc

    same : {u v : Tables} → ◌≡◌ {A = Option Tables} (some u) (some v) → u ≡ v
    same h = cc

    inserted :
        any (has_slug p.slug) t.providers ≡ false
        → IsWellFormed
            (record t { providers = t.providers ++ p ∷ []; next_provider = t.next_provider + 1 })
    inserted absent = record {
      slugs =
          IsDistinct-append same_slug t.providers p (λ x y. text_eq_symm y.slug x.slug) absent
            w.slugs;
      one_default = marked (Bool-cases p.is_default);
      pairs = w.pairs;
      references =
          All-weaken (IsReferenced t.providers) (IsReferenced (t.providers ++ p ∷ [])) t.mappings
            (λ m h. any-append (has_slug m.provider_id) t.providers p ∙ rw h refl) w.references;
      provider_ids = IsNumbered-append (λ p. p.id) 1 t.next_provider t.providers p i w.provider_ids;
      mapping_ids = w.mapping_ids;
      rule_ids = w.rule_ids;
      audit_ids = w.audit_ids;
    }
      where
        marked :
            (p.is_default ≡ true) ⊎ (p.is_default ≡ false) → defaults (t.providers ++ p ∷ []) ≤ 1
        marked (inl b) = rw (defaults-append t.providers p, b, d b) omega arith
        marked (inr b) = rw (defaults-append t.providers p, b) omega (arith, w.one_default)

-- The rows after an insertion.
pub insert_row-rows :
    (t t' : Tables) (p : ProviderRecord)
    → insert_row t p ≡ some t'
    → t'.providers ≡ t.providers ++ p ∷ []
unfolding insert_row
insert_row-rows t t' p e = elim (Option-cases (find_slug p.slug t.providers)) [
  | inr (q, h) ↦ absurd (clash (rw (h, insert_row) at e))
  | inl h ↦ sym (same (rw (h, insert_row) at e))
]
  where
    clash : ◌≡◌ {A = Option Tables} none (some t') → ⊥
    clash h = cc

    same : {u v : Tables} → ◌≡◌ {A = Option Tables} (some u) (some v) → u.providers ≡ v.providers
    same h = cc

-- ===== src/Provider/Preservation.antt =====
-- CreateProvider, UpdateProvider and DeleteProvider of store.go keep the tables well formed.
use shimiaocheng_llm.Prelude.{
  ◌≤◌, ◌≡◌, ◌⊎◌, refl, sym, ◌∙◌, subst, inl, inr, Bool, true, false, not, List, [], ◌∷◌, Option,
  none, some, Option-cases, Text, text_eq, keep, any, Bool-cases, arith, eq_of_text_eq,
  text_eq_refl, IsDistinct-keep, IsNumbered-keep, All-keep,
}
use shimiaocheng_llm.GoTime.{Time}
use shimiaocheng_llm.Auth.{User}
use shimiaocheng_llm.Provider.{
  ProviderRecord, ModelMappingRecord, StoreError, Tables, Codec, Steps, clear_defaults,
}
use shimiaocheng_llm.Provider.Create.{NewProvider, create_provider, cleared, provider_row}
use shimiaocheng_llm.Provider.Update.{
  ProviderUpdates, update_provider, update_slug, apply_updates, set_or,
}
use shimiaocheng_llm.Provider.Delete.{delete_provider, drop_slug}
use shimiaocheng_llm.Provider.Rows.{
  has_slug, same_slug, update_row, update_slug-map, KeepsKey, update_row-KeepsKey, defaults,
  defaults-clear, defaults-keep, defaults-update, defaults-update_one,
}
use shimiaocheng_llm.Provider.Outcomes.{
  create_provider-cases, update_provider-cases, delete_provider-cases, DeleteCases, kept, deleted,
}
use shimiaocheng_llm.Provider.Invariant.{
  IsWellFormed, IsReferenced, same_pair, write_audit-IsWellFormed, changed-IsWellFormed,
  cleared-IsWellFormed, insert_row-IsWellFormed,
}

-- A slug other than the one that is dropped stays.
kept_slug :
    (other slug : Text) (ps : List ProviderRecord)
    → not (text_eq other slug) ≡ true
    → any (has_slug other) ps ≡ true
    → any (has_slug other) (keep (λ p. not (text_eq p.slug slug)) ps) ≡ true
kept_slug other slug [] q h = h
kept_slug other slug (p ∷ ps) q h = elim (Bool-cases (text_eq p.slug slug)) [
  | inr e ↦ elim (Bool-cases (text_eq p.slug other)) [
    | inl k ↦ rw (e, k) refl
    | inr k ↦ rw (e, k) (kept_slug other slug ps q (rw k at h))
  ]
  | inl e ↦ elim (Bool-cases (text_eq p.slug other)) [
    | inl k ↦ absurd (clash (eq_of_text_eq p.slug slug e) (eq_of_text_eq p.slug other k))
    | inr k ↦ rw e (kept_slug other slug ps q (rw k at h))
  ]
]
  where
    clash : p.slug ≡ slug → p.slug ≡ other → ⊥
    clash a b = differ (rw (sym b ∙ a) (text_eq_refl slug))
      where
        differ : text_eq other slug ≡ true → ⊥
        differ t = cc

module _ (c : Codec) (s : Steps) (now : Time) (t : Tables) (w : IsWellFormed t) where
  pub create-IsWellFormed :
      (kek : Text) (r : Option Text) (n : NewProvider)
      → IsWellFormed (create_provider c s now n t kek r).0
  create-IsWellFormed kek r n = elim (create_provider-cases c s now n t kek r) [
    | inl f ↦ subst (λ a. IsWellFormed a.0) (sym f.same) w
    | inr (key, e, made) ↦
        subst (λ a. IsWellFormed a.0) (sym made.effect)
          (write_audit-IsWellFormed c s.audits now _ _ _ _ made.rows (
            insert_row-IsWellFormed (cleared n.is_default t) made.rows
              (provider_row c now n t.next_provider key) made.inserted
              (same_id (Bool-cases n.is_default)) unmarked (cleared-IsWellFormed n.is_default t w)))
  ]
    where
      same_id :
          (n.is_default ≡ true) ⊎ (n.is_default ≡ false)
          → t.next_provider ≡ (cleared n.is_default t).next_provider
      same_id (inl b) = rw b refl
      same_id (inr b) = rw b refl

      unmarked : n.is_default ≡ true → defaults (cleared n.is_default t).providers ≡ 0
      unmarked b = rw b (defaults-clear t.providers)

  rewritten :
      (f : ProviderRecord → ProviderRecord) (slug : Text) (v : Tables)
      → KeepsKey f
      → IsWellFormed v
      → defaults (update_slug f slug v.providers) ≤ 1
      → IsWellFormed (record v { providers = update_slug f slug v.providers })
  rewritten f slug v k wv d =
      subst (λ ps. IsWellFormed (record v { providers = ps }))
        (sym (update_slug-map f slug v.providers))
        (changed-IsWellFormed (update_row f slug) (update_row-KeepsKey f slug k) v wv
          (subst (λ ps. defaults ps ≤ 1) (update_slug-map f slug v.providers) d))

  pub update-IsWellFormed :
      (kek : Text) (r : Option Text) (printed slug : Text) (u : ProviderUpdates)
      → IsWellFormed (update_provider c s now printed slug u t kek r).0
  update-IsWellFormed kek r printed slug u =
      elim (update_provider-cases c s now printed slug u t kek r) [
        | inl f ↦ subst (λ a. IsWellFormed a.0) (sym f.same) w
        | inr (key, k, e) ↦ subst IsWellFormed (sym e) (
            write_audit-IsWellFormed c s.audits now _ _ _ _ _
              (changed key (set_or u.is_default false) (bounded key (Option-cases u.is_default))))
      ]
    where
      keeps : (key : Option Text) → KeepsKey (apply_updates c now u key)
      keeps key = record { slug = λ p. refl; id = λ p. refl }

      at_flag :
          (key : Option Text) (b : Bool)
          → set_or u.is_default false ≡ b
          → defaults (update_slug (apply_updates c now u key) slug (cleared b t).providers) ≤ 1
          → defaults (
              update_slug
                (apply_updates c now u key)
                slug
                (cleared (set_or u.is_default false) t).providers)
            ≤ 1
      at_flag key b e h =
          subst
            (λ b.
              defaults (update_slug (apply_updates c now u key) slug (cleared b t).providers) ≤ 1)
            (sym e) h

      bounded :
          (key : Option Text)
          → (u.is_default ≡ none) ⊎ ((b : Bool) × (u.is_default ≡ some b))
          → defaults (
              update_slug
                (apply_updates c now u key)
                slug
                (cleared (set_or u.is_default false) t).providers)
            ≤ 1
      bounded key (inl e) = at_flag key false (rw e refl) (
          omega (
            arith,
            w.one_default,
            defaults-update (apply_updates c now u key) slug t.providers (λ p h. rw e at h),
          ))
      bounded key (inr (true, e)) = at_flag key true (rw e refl) (
          defaults-update_one (apply_updates c now u key) slug (clear_defaults t.providers)
            (cleared-IsWellFormed true t w).slugs (defaults-clear t.providers))
      bounded key (inr (false, e)) = at_flag key false (rw e refl) (
          omega (
            arith,
            w.one_default,
            defaults-update (apply_updates c now u key) slug t.providers
                (λ p h. absurd (clash (rw e at h))),
          ))
        where
          clash : false ≡ true → ⊥
          clash h = cc

      changed :
          (key : Option Text) (b : Bool)
          → defaults (update_slug (apply_updates c now u key) slug (cleared b t).providers) ≤ 1
          → IsWellFormed (record t {
            providers = update_slug (apply_updates c now u key) slug (cleared b t).providers;
          })
      changed key true d =
          rewritten (apply_updates c now u key) slug
            (record t { providers = clear_defaults t.providers }) (keeps key)
            (cleared-IsWellFormed true t w) d
      changed key false d = rewritten (apply_updates c now u key) slug t (keeps key) w d

  pub delete-IsWellFormed :
      (slug : Text) (users : List User) → IsWellFormed (delete_provider c s now slug users t).0
  delete-IsWellFormed slug users = ofc _ (delete_provider-cases c s now slug users t)
    where
      other :
          (m : ModelMappingRecord)
          → not (text_eq m.provider_id slug) ≡ true
          → IsReferenced t.providers m
          → IsReferenced (keep (λ p. not (text_eq p.slug slug)) t.providers) m
      other m q h = kept_slug m.provider_id slug t.providers q h

      dropped : IsWellFormed (drop_slug slug t)
      dropped = record {
        slugs = IsDistinct-keep same_slug (λ p. not (text_eq p.slug slug)) t.providers w.slugs;
        one_default =
            omega
              (arith, w.one_default, defaults-keep (λ p. not (text_eq p.slug slug)) t.providers);
        pairs =
            IsDistinct-keep same_pair (λ m. not (text_eq m.provider_id slug)) t.mappings w.pairs;
        references =
            All-keep (IsReferenced t.providers) (IsReferenced (drop_slug slug t).providers)
              (λ m. not (text_eq m.provider_id slug)) t.mappings other w.references;
        provider_ids = IsNumbered-keep (λ p. p.id) 1 t.next_provider _ t.providers w.provider_ids;
        mapping_ids = IsNumbered-keep (λ m. m.id) 1 t.next_mapping _ t.mappings w.mapping_ids;
        rule_ids = w.rule_ids;
        audit_ids = w.audit_ids;
      }

      ofc :
          (after : Tables × Option StoreError)
          → DeleteCases c s now slug users t after
          → IsWellFormed after.0
      ofc _ (kept e) = w
      ofc _ (deleted h) = write_audit-IsWellFormed c s.audits now _ _ _ _ (drop_slug slug t) dropped

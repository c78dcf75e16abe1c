-- ===== src/Provider/Availability.antt =====
-- That BuildProviderTable of store.go never fails at a key: every row that the operations store opens
-- under the key that they sealed it with.
use shimiaocheng_llm.Prelude.{
  ℕ, ◌≡◌, refl, ap, sym, ◌∙◌, subst, inl, inr, true, false, not, List, [], ◌∷◌, Option, none, some,
  Option-cases, Text, text_eq, any, ◌||◌, All, All-append, All-keep, Bool-cases, ok,
}
use shimiaocheng_llm.GoTime.{Time}
use shimiaocheng_llm.Auth.{User}
use shimiaocheng_llm.Security.{IsAead}
use shimiaocheng_llm.Router.{ProviderEntry, ProviderTable, RoutingRule}
use shimiaocheng_llm.Provider.{
  ProviderRecord, ModelMappingRecord, Tables, Codec, Steps, StoreError, write_audit,
}
use shimiaocheng_llm.Provider.Create.{NewProvider, create_provider, cleared, provider_row}
use shimiaocheng_llm.Provider.Update.{
  ProviderUpdates, update_provider, apply_updates, new_key, set_or,
}
use shimiaocheng_llm.Provider.Delete.{delete_provider}
use shimiaocheng_llm.Provider.Rules.{
  RuleUpdates, create_mapping, delete_mapping, insert_mapping, mapping_row, has_pair,
  create_routing_rule, update_routing_rule, delete_routing_rule, sets_column,
}
use shimiaocheng_llm.Provider.Snapshot.{build_provider_table}
use shimiaocheng_llm.Provider.Rows.{write_audit-providers}
use shimiaocheng_llm.Provider.Outcomes.{
  create_provider-cases, update_provider-cases, delete_provider-cases, DeleteCases, kept, deleted,
}
use shimiaocheng_llm.Provider.Invariant.{insert_row-rows}
use shimiaocheng_llm.Provider.Reachable.{
  Operation, create, update, delete, map_model, unmap, add_rule, change_rule, remove_rule, apply,
  run,
}
use shimiaocheng_llm.Provider.Sealing.{
  HasNonce, Opens, build_provider_table_total, if_cleared-Opens, update_slug-Opens, encrypted_opens,
  new_key_opens,
}

module _ (c : Codec) (kek : Text) where
  module _ (law : IsAead c.aead) (s : Steps) (now : Time) (t : Tables)
      (h : All (Opens c kek) t.providers) where
    create-Opens :
        (random : Option Text) (n : NewProvider)
        → HasNonce random
        → All (Opens c kek) (create_provider c s now n t kek random).0.providers
    create-Opens random n fresh = elim (create_provider-cases c s now n t kek random) [
      | inl f ↦ subst (λ a. All (Opens c kek) a.0.providers) (sym f.same) h
      | inr (key, e, made) ↦
          subst (All (Opens c kek))
            (sym (
              ap (λ a. a.0.providers) made.effect
              ∙ write_audit-providers c s.audits now _ _ _ _ made.rows
              ∙ insert_row-rows (cleared n.is_default t) made.rows
                  (provider_row c now n t.next_provider key) made.inserted))
            (All-append (Opens c kek) (cleared n.is_default t).providers
              (provider_row c now n t.next_provider key) (if_cleared-Opens c kek n.is_default t h)
              (n.api_key, encrypted_opens c kek law random n.api_key key fresh e))
    ]

    update-Opens :
        (random : Option Text) (printed slug : Text) (u : ProviderUpdates)
        → HasNonce random
        → All (Opens c kek) (update_provider c s now printed slug u t kek random).0.providers
    update-Opens random printed slug u fresh =
        elim (update_provider-cases c s now printed slug u t kek random) [
          | inl f ↦ subst (λ a. All (Opens c kek) a.0.providers) (sym f.same) h
          | inr (key, k, e) ↦
              subst (All (Opens c kek))
                (sym (ap (λ a. a.providers) e ∙ write_audit-providers c s.audits now _ _ _ _ _))
                (update_slug-Opens c kek (apply_updates c now u key) slug
                  (cleared (set_or u.is_default false) t).providers (rekeyed key k)
                  (if_cleared-Opens c kek (set_or u.is_default false) t h))
        ]
      where
        rekeyed :
            (key : Option Text)
            → new_key c kek random u.encrypted_key ≡ ok key
            → (p : ProviderRecord) → Opens c kek p
            → Opens c kek (apply_updates c now u key p)
        rekeyed none k p o = o
        rekeyed (some key) k p o = new_key_opens c kek law random u.encrypted_key key fresh k

    delete-Opens :
        (slug : Text) (users : List User)
        → All (Opens c kek) (delete_provider c s now slug users t).0.providers
    delete-Opens slug users = ofc _ (delete_provider-cases c s now slug users t)
      where
        ofc :
            (after : Tables × Option StoreError)
            → DeleteCases c s now slug users t after
            → All (Opens c kek) after.0.providers
        ofc _ (kept e) = h
        ofc _ (deleted d) =
            subst (All (Opens c kek)) (sym (write_audit-providers c s.audits now _ _ _ _ _)) (
              All-keep (Opens c kek) (Opens c kek) (λ p. not (text_eq p.slug slug)) t.providers
                (λ p b o. o) h)

    -- Operations on the other tables.
    audited-Opens :
        (a tt' ti d : Text) (after : Tables)
        → after.providers ≡ t.providers
        → All (Opens c kek) (write_audit c s.audits now a tt' ti d after).providers
    audited-Opens a tt' ti d after e =
        subst (All (Opens c kek)) (sym (write_audit-providers c s.audits now a tt' ti d after ∙ e))
          h

    insert_mapping-providers :
        (t' : Tables) (m : ModelMappingRecord)
        → insert_mapping t m ≡ some t'
        → t'.providers ≡ t.providers
    unfolding insert_mapping
    insert_mapping-providers t' m e =
        elim (Bool-cases (
          any (has_pair m.external m.provider_id) t.mappings
          || not (any (λ p. text_eq p.slug m.provider_id) t.providers))) [
            | inl b ↦ absurd (clash (rw (b, insert_mapping) at e))
            | inr b ↦ sym (same (rw (b, insert_mapping) at e))
          ]
      where
        clash : ◌≡◌ {A = Option Tables} none (some t') → ⊥
        clash h = cc

        same :
            {u v : Tables} → ◌≡◌ {A = Option Tables} (some u) (some v) → u.providers ≡ v.providers
        same h = cc

    create_mapping-Opens :
        (e p m : Text) → All (Opens c kek) (create_mapping c s now e p m t).0.providers
    unfolding create_mapping
    create_mapping-Opens e p m = elim (Bool-cases s.writes) [
      | inr b ↦ rw b h
      | inl b ↦ elim (Option-cases (insert_mapping t (mapping_row c now t.next_mapping e p m))) [
        | inl k ↦ rw (b, k, create_mapping) h
        | inr (t', k) ↦
            rw (b, k, create_mapping)
              (audited-Opens _ _ _ _ t'
                (insert_mapping-providers t' (mapping_row c now t.next_mapping e p m) k))
      ]
    ]

    delete_mapping-Opens : (id : ℕ) → All (Opens c kek) (delete_mapping c s now id t).0.providers
    unfolding delete_mapping
    delete_mapping-Opens id = elim (Bool-cases s.writes) [
      | inl b ↦ rw b (audited-Opens _ _ _ _ _ refl)
      | inr b ↦ rw b h
    ]

    create_routing_rule-Opens :
        (r : RoutingRule) → All (Opens c kek) (create_routing_rule c s now r t).0.providers
    unfolding create_routing_rule
    create_routing_rule-Opens r = elim (Bool-cases s.writes) [
      | inl b ↦ rw b (audited-Opens _ _ _ _ _ refl)
      | inr b ↦ rw b h
    ]

    update_routing_rule-Opens :
        (printed : Text) (id : ℕ) (u : RuleUpdates)
        → All (Opens c kek) (update_routing_rule c s now printed id u t).0.providers
    unfolding update_routing_rule
    update_routing_rule-Opens printed id u = elim (Bool-cases (not (sets_column u))) [
      | inl k ↦ rw k h
      | inr k ↦ elim (Bool-cases s.writes) [
        | inl b ↦ rw (k, b) (audited-Opens _ _ _ _ _ refl)
        | inr b ↦ rw (k, b) h
      ]
    ]

    delete_routing_rule-Opens :
        (id : ℕ) → All (Opens c kek) (delete_routing_rule c s now id t).0.providers
    unfolding delete_routing_rule
    delete_routing_rule-Opens id = elim (Bool-cases s.writes) [
      | inl b ↦ rw b (audited-Opens _ _ _ _ _ refl)
      | inr b ↦ rw b h
    ]

  -- The operation seals keys, if it does, under this one and with a nonce.
  abbrev pub IsSealing : Operation → Type 0
  IsSealing (create k random n) = (k ≡ kek) × HasNonce random
  IsSealing (update k random printed slug u) = (k ≡ kek) × HasNonce random
  IsSealing (delete slug users) = Unit
  IsSealing (map_model e p m) = Unit
  IsSealing (unmap id) = Unit
  IsSealing (add_rule r) = Unit
  IsSealing (change_rule printed id u) = Unit
  IsSealing (remove_rule id) = Unit

  apply-Opens :
      IsAead c.aead
      → (o : Operation) (s : Steps) (now : Time) (t : Tables) → IsSealing o
      → All (Opens c kek) t.providers
      → All (Opens c kek) (apply c o s now t).providers
  unfolding apply
  apply-Opens law (create k random n) s now t (e, fresh) h =
      subst (λ k. All (Opens c kek) (create_provider c s now n t k random).0.providers) (sym e)
        (create-Opens law s now t h random n fresh)
  apply-Opens law (update k random printed slug u) s now t (e, fresh) h =
      subst (λ k. All (Opens c kek) (update_provider c s now printed slug u t k random).0.providers)
        (sym e) (update-Opens law s now t h random printed slug u fresh)
  apply-Opens law (delete slug users) s now t i h = delete-Opens law s now t h slug users
  apply-Opens law (map_model e p m) s now t i h = create_mapping-Opens law s now t h e p m
  apply-Opens law (unmap id) s now t i h = delete_mapping-Opens law s now t h id
  apply-Opens law (add_rule r) s now t i h = create_routing_rule-Opens law s now t h r
  apply-Opens law (change_rule printed id u) s now t i h =
      update_routing_rule-Opens law s now t h printed id u
  apply-Opens law (remove_rule id) s now t i h = delete_routing_rule-Opens law s now t h id

  run-Opens :
      IsAead c.aead
      → (os : List (Operation × Steps × Time)) (t : Tables) → All (λ o. IsSealing o.0) os
      → All (Opens c kek) t.providers
      → All (Opens c kek) (run c os t).providers
  unfolding run
  run-Opens law [] t i h = h
  run-Opens law ((o, s, now) ∷ os) t i h =
      run-Opens law os (apply c o s now t) i.1 (apply-Opens law o s now t i.0 h)

  -- After any operations, each with any of its statements failing, that seal keys under the store's
  -- key and with nonces of 12 bytes, on tables whose keys open under it, a snapshot is built where
  -- the tables can be read: no key that was stored keeps the router from its snapshot.
  pub run_loads :
      IsAead c.aead
      → (order : List (Text × ProviderEntry) → List (Text × ProviderEntry))
        (os : List (Operation × Steps × Time)) (t : Tables)
      → All (λ o. IsSealing o.0) os
      → All (Opens c kek) t.providers
      → (table : ProviderTable) × (build_provider_table c kek order true (run c os t) ≡ ok table)
  run_loads law order os t i h =
      build_provider_table_total c kek order (run c os t) (run-Opens law os t i h)

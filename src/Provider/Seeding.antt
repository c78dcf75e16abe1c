-- ===== src/Provider/Seeding.antt =====
-- SeedFromConfig of store.go on empty tables, failures included.
use shimiaocheng_llm.Prelude.{
  ℕ, ◌+◌, ◌≤◌, ◌≡◌, ◌⊎◌, refl, sym, subst, inl, inr, Bool, true, false, List, [], ◌∷◌, Option, none,
  some, Option-cases, Text, if◌then◌else◌, Bool-cases, arith, Result-cases,
}
use shimiaocheng_llm.GoTime.{Time}
use shimiaocheng_llm.Security.{encrypt}
use shimiaocheng_llm.Provider.{ProviderRecord, Tables, Codec, StoreError, read_failed, count_where}
use shimiaocheng_llm.Provider.Create.{insert_row}
use shimiaocheng_llm.Provider.Rules.{insert_mapping, mapping_row}
use shimiaocheng_llm.Provider.Rows.{defaults, defaults-append}
use shimiaocheng_llm.Provider.Invariant.{IsWellFormed, insert_row-IsWellFormed, insert_row-rows}
use shimiaocheng_llm.Provider.RulePreservation.{insert_mapping-IsWellFormed}
use shimiaocheng_llm.Provider.Seed.{
  ProviderConfig, ModelMapping, Config, SeedRun, env_key, seed_row, seed_providers, seed_mapping,
  seed_models, seed_mappings, then_mappings, seed_rows, seed_from_config,
}

-- How many providers of the configuration are marked as the default.
abbrev pub config_defaults : List ProviderConfig → ℕ
config_defaults = count_where (λ p. p.is_default)

module _ (c : Codec) (kek : Text) (r : SeedRun) (now : Time) where
  seed_providers-IsWellFormed :
      (ps : List ProviderConfig) (t : Tables)
      → defaults t.providers + config_defaults ps ≤ 1
      → IsWellFormed t
      → IsWellFormed (seed_providers c kek r now ps t).0
  unfolding seed_providers
  seed_providers-IsWellFormed [] t d w = w
  seed_providers-IsWellFormed (p ∷ ps) t d w =
      elim (Result-cases (encrypt c.aead (r.random p.id) (env_key r p) kek)) [
        | inr (e, h) ↦ rw (h, seed_providers) w
        | inl (key, h) ↦ elim (Bool-cases (r.writes p.id)) [
          | inr b ↦ rw (h, b, seed_providers) w
          | inl b ↦ elim (Option-cases (insert_row t (seed_row c now p t.next_provider key))) [
            | inl k ↦ rw (h, b, k, seed_providers) w
            | inr (t', k) ↦
                rw (h, b, k, seed_providers)
                  (seed_providers-IsWellFormed ps t' (bounded t' key k) (
                    insert_row-IsWellFormed t t' (seed_row c now p t.next_provider key) k refl
                      (λ m. omega (arith, d, marked m)) w))
          ]
        ]
      ]
    where
      marked : p.is_default ≡ true → 1 ≤ config_defaults (p ∷ ps)
      marked m = rw m (omega arith)

      bounded :
          (t' : Tables) (key : Text)
          → insert_row t (seed_row c now p t.next_provider key) ≡ some t'
          → defaults t'.providers + config_defaults ps ≤ 1
      bounded t' key k =
          rw
            (
              insert_row-rows t t' (seed_row c now p t.next_provider key) k,
              defaults-append t.providers (seed_row c now p t.next_provider key),
            )
            (counted (Bool-cases p.is_default))
        where
          counted :
              (p.is_default ≡ true) ⊎ (p.is_default ≡ false)
              → defaults t.providers + (if p.is_default then 1 else 0) + config_defaults ps ≤ 1
          counted (inl m) = rw m (omega (arith, rw m at d))
          counted (inr m) = rw m (omega (arith, rw m at d))

  seed_mapping-IsWellFormed :
      (external : Text) (m : Text × Text) (t : Tables)
      → IsWellFormed t
      → IsWellFormed (seed_mapping c r now external m t)
  unfolding seed_mapping
  seed_mapping-IsWellFormed external (provider, model) t w =
      elim (Bool-cases (r.writes_mapping external provider)) [
        | inr b ↦ rw (b, seed_mapping) w
        | inl b ↦
            elim (Option-cases
              (insert_mapping t (mapping_row c now t.next_mapping external provider model))) [
                | inl k ↦ rw (b, k, seed_mapping) w
                | inr (t', k) ↦
                    rw (b, k, seed_mapping)
                      (insert_mapping-IsWellFormed t t'
                        (mapping_row c now t.next_mapping external provider model) k refl w)
              ]
      ]

  seed_models-IsWellFormed :
      (external : Text) (ms : List (Text × Text)) (t : Tables)
      → IsWellFormed t
      → IsWellFormed (seed_models c r now external ms t)
  unfolding seed_models
  seed_models-IsWellFormed external [] t w = w
  seed_models-IsWellFormed external (m ∷ ms) t w =
      seed_models-IsWellFormed external ms (seed_mapping c r now external m t)
        (seed_mapping-IsWellFormed external m t w)

  seed_mappings-IsWellFormed :
      (ms : List ModelMapping) (t : Tables)
      → IsWellFormed t
      → IsWellFormed (seed_mappings c r now ms t)
  unfolding seed_mappings
  seed_mappings-IsWellFormed [] t w = w
  seed_mappings-IsWellFormed (m ∷ ms) t w =
      seed_mappings-IsWellFormed ms (seed_models c r now m.external m.per_provider t)
        (seed_models-IsWellFormed m.external m.per_provider t w)

  -- A configuration that marks at most one provider as the default seeds well-formed tables into
  -- well-formed tables, also where the seed fails halfway.
  pub seed_from_config-IsWellFormed :
      (cfg : Config) (t : Tables)
      → config_defaults cfg.providers ≤ 1
      → IsWellFormed t
      → IsWellFormed (seed_from_config c kek r now cfg t).0
  unfolding seed_from_config seed_rows then_mappings
  seed_from_config-IsWellFormed cfg t d w = elim (Bool-cases r.reads) [
    | inr b ↦ rw (b, seed_from_config) w
    | inl b ↦ subst (λ a. IsWellFormed a.0) (sym (read b)) (by_rows t.providers refl)
  ]
    where
      read :
          r.reads ≡ true
          → seed_from_config c kek r now cfg t ≡ seed_rows c kek r now cfg t t.providers
      read b = executed r.reads b
        where
          executed :
              (b : Bool)
              → b ≡ true
              → (if b then seed_rows c kek r now cfg t t.providers else (t, some read_failed))
                ≡ seed_rows c kek r now cfg t t.providers
          executed true e = refl
          executed false e = absurd (clash e)
            where
              clash : false ≡ true → ⊥
              clash h = cc

      mapped :
          (after : Tables × Option StoreError)
          → IsWellFormed after.0
          → IsWellFormed (then_mappings c r now cfg.model_mappings after).0
      mapped (t', some e) w' = w'
      mapped (t', none) w' = seed_mappings-IsWellFormed cfg.model_mappings t' w'

      by_rows :
          (ps : List ProviderRecord)
          → t.providers ≡ ps
          → IsWellFormed (seed_rows c kek r now cfg t ps).0
      by_rows (p ∷ ps) q = w
      by_rows [] q =
          mapped (seed_providers c kek r now cfg.providers t)
            (seed_providers-IsWellFormed cfg.providers t (rw q (omega (arith, d))) w)

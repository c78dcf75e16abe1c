-- ===== src/Provider/Refinement.antt =====
-- BuildProviderTable of store.go: the snapshot stands for the rows.
use shimiaocheng_llm.Prelude.{
  ◌≡◌, ◌≢◌, refl, ap, sym, ◌∙◌, subst, inl, inr, true, List, [], ◌∷◌, Option, none, some, Text,
  text_eq, lookup, keep, In, IsDistinct-keep, Result, ok, err, ok_injective, ok_not_err,
}
use shimiaocheng_llm.Router.{ProviderEntry, ProviderTable, ok}
use shimiaocheng_llm.Provider.{Tables, Codec, StoreError, find_slug}
use shimiaocheng_llm.Provider.Rows.{same_slug}
use shimiaocheng_llm.Provider.Invariant.{IsWellFormed}
use shimiaocheng_llm.Provider.Snapshot.{
  load_providers, load_mappings, first_slug, choose_default, empty_table, build_provider_table,
  finish_table,
}
use shimiaocheng_llm.Provider.Maps.{
  lookup-In, lookup_model, load_mappings-lookup, find_pair, or_else,
}
use shimiaocheng_llm.Provider.Loading.{
  HasDefault, decrypted, find_slug-enabled, if_enabled, load_providers-HasDefault,
  load_providers-lookup,
}

-- What the program relies on of a range over a map: it meets entries of the map, and all of them.
pub record IsOrder (order : List (Text × ProviderEntry) → List (Text × ProviderEntry))
    : Type 0 where
  pub meets : (m : List (Text × ProviderEntry)) (e : Text × ProviderEntry) → In e (order m) → In e m
  pub filled : (m : List (Text × ProviderEntry)) → order m ≡ [] → m ≡ []

-- The snapshot stands for the rows: by slug the entry of the row that is enabled, its key decrypted;
-- by external model and slug the row's model; the rules; and a default that is an entry, if there is
-- any entry.
pub record IsSnapshot (c : Codec) (kek : Text) (t : Tables) (table : ProviderTable) : Type 0 where
  pub providers :
      (slug : Text)
      → lookup text_eq slug table.providers
        ≡ decrypted c kek (if_enabled (find_slug slug t.providers))
  pub mappings :
      (external provider : Text)
      → lookup_model external provider table.mappings ≡ find_pair external provider t.mappings
  pub rules : table.rules ≡ t.rules
  pub default :
      table.providers ≢ []
      → (e : ProviderEntry) × (lookup text_eq table.default table.providers ≡ some e)

module _ (order : List (Text × ProviderEntry) → List (Text × ProviderEntry))
    (law : IsOrder order) where
  choose_default-providers :
      (table : ProviderTable) → (choose_default order table).providers ≡ table.providers
  unfolding choose_default
  choose_default-providers table = by_default table.default refl
    where
      by_default :
          (d : Text) → table.default ≡ d → (choose_default order table).providers ≡ table.providers
      by_default [] e = rw e refl
      by_default (x ∷ d) e = rw e refl

  chosen :
      (m o : List (Text × ProviderEntry))
      → order m ≡ o
      → m ≢ []
      → (e : ProviderEntry) × (lookup text_eq (first_slug o) m ≡ some e)
  chosen m [] h f = absurd (f (law.filled m h))
  chosen m ((k, e) ∷ o) h f =
      lookup-In k e m (law.meets m (k, e) (subst (λ l. In (k, e) l) (sym h) (inl refl)))

  choose_default-entry :
      (table : ProviderTable)
      → HasDefault table
      → table.providers ≢ []
      → (e : ProviderEntry) × (lookup text_eq (choose_default order table).default table.providers
          ≡ some e)
  unfolding choose_default
  choose_default-entry table h f = by_default table.default refl h
    where
      by_default :
          (d : Text)
          → table.default ≡ d
          → HasDefault table
          → (e : ProviderEntry) × (lookup text_eq
                (choose_default order table).default
                table.providers
              ≡ some e)
      by_default [] e h =
          subst (λ k. (e : ProviderEntry) × (lookup text_eq k table.providers ≡ some e))
            (sym (first e)) (chosen table.providers (order table.providers) refl f)
        where
          first :
              table.default ≡ []
              → (choose_default order table).default ≡ first_slug (order table.providers)
          first e = rw e refl
      by_default (x ∷ d) e (inl n) = absurd (clash (sym e ∙ n))
        where
          clash : ◌≡◌ {A = Text} (x ∷ d) [] → ⊥
          clash h = cc
      by_default (x ∷ d) e (inr (y, h)) =
          (y, ap (λ k. lookup text_eq k table.providers) (same e) ∙ h)
        where
          same : table.default ≡ x ∷ d → (choose_default order table).default ≡ table.default
          same e = rw e refl

  -- A snapshot that is built from tables that are well formed stands for their rows: by slug it has
  -- the entry of the row that is enabled, its key decrypted, by external model and slug the row's
  -- model, all rules, and, if there is any entry, a default that is one, whatever the map's order.
  pub build_provider_table-refines :
      (c : Codec) (kek : Text) (t : Tables) (table : ProviderTable)
      → IsWellFormed t
      → build_provider_table c kek order true t ≡ ok table
      → IsSnapshot c kek t table
  unfolding build_provider_table finish_table
  build_provider_table-refines c kek t table w e =
      built (load_providers c kek (keep (λ p. p.enabled) t.providers) empty_table) refl e
    where
      assembled :
          (loaded : ProviderTable)
          → load_providers c kek (keep (λ p. p.enabled) t.providers) empty_table ≡ ok loaded
          → IsSnapshot c kek t (record (choose_default order loaded) {
            mappings = load_mappings t.mappings [];
            rules = t.rules;
          })
      assembled loaded l = record {
        providers = λ slug.
            ap (λ m. lookup text_eq slug m) (choose_default-providers loaded)
            ∙ load_providers-lookup c kek slug (keep (λ p. p.enabled) t.providers) empty_table
                loaded (IsDistinct-keep same_slug (λ p. p.enabled) t.providers w.slugs) l
            ∙ or_else-none (decrypted c kek (find_slug slug (keep (λ p. p.enabled) t.providers)))
            ∙ ap (decrypted c kek) (find_slug-enabled slug t.providers w.slugs);
        mappings = λ external provider.
            load_mappings-lookup external provider t.mappings [] w.pairs
            ∙ or_else-none (find_pair external provider t.mappings);
        rules = refl;
        default = λ f. entry f;
      }
        where
          or_else-none : {A : Type 0} (o : Option A) → or_else o none ≡ o
          or_else-none none = refl
          or_else-none (some a) = refl

          entry :
              (choose_default order loaded).providers ≢ []
              → (e : ProviderEntry) × (lookup text_eq
                    (choose_default order loaded).default
                    (choose_default order loaded).providers
                  ≡ some e)
          entry f =
              subst
                (λ m.
                  (e : ProviderEntry) × (lookup text_eq (choose_default order loaded).default m
                    ≡ some e))
                (sym (choose_default-providers loaded))
                (choose_default-entry loaded
                  (load_providers-HasDefault c kek (keep (λ p. p.enabled) t.providers) empty_table
                    loaded (inl refl) l)
                  (λ n. f (choose_default-providers loaded ∙ n)))

      built :
          (r : Result StoreError ProviderTable)
          → load_providers c kek (keep (λ p. p.enabled) t.providers) empty_table ≡ r
          → finish_table order t r ≡ ok table
          → IsSnapshot c kek t table
      built (err x) l h = absurd (ok_not_err (sym (h)))
      built (ok loaded) l h = subst (IsSnapshot c kek t) (ok_injective (h)) (assembled loaded l)

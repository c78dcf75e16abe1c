-- ===== src/Router/Models/Outcomes.antt =====
-- RewriteModel of internal/router/selector.go: where the model name comes from.
use shimiaocheng_llm.Prelude.{
  ℕ, ◌≡◌, ◌≢◌, refl, ◌⊎◌, inl, inr, true, List, [], ◌∷◌, Option, none, some, Text, text_eq, lookup,
  In, arith, Option-cases, sym, ◌∙◌,
}
use shimiaocheng_llm.Router.{ProviderTable}
use shimiaocheng_llm.Router.Outcome.{lookup-In}
use shimiaocheng_llm.Router.Models.{
  equal_fold, non_empty, real_model, exact_model, scan_models, or_else, get_or, rewrite_model,
  Mappings, ScanCases, scan_models-cases, SameEntries,
}

equal_fold_refl : (fold : ℕ → ℕ) (a : Text) → equal_fold fold a a ≡ true
unfolding equal_fold
equal_fold_refl fold [] = refl
equal_fold_refl fold (x ∷ xs) = ground (arith, equal_fold_refl fold xs)

-- A mapping of the snapshot whose key is the external name up to case, and that gives the
-- provider the model name, which is not empty.
pub record Mapped (fold : ℕ → ℕ) (external provider_id model : Text) (ms : Mappings) : Type 0 where
  pub key : Text
  pub models : List (Text × Text)
  pub member : In (key, models) ms
  pub folds : equal_fold fold key external ≡ true
  pub entry : lookup text_eq provider_id models ≡ some model
  pub filled : model ≢ []

real_model-entry :
    (m : List (Text × Text)) (provider_id model : Text)
    → real_model m provider_id ≡ some model
    → (lookup text_eq provider_id m ≡ some model) × (model ≢ [])
unfolding real_model
real_model-entry m provider_id model h = filled (lookup text_eq provider_id m) h
  where
    filled : (o : Option Text) → non_empty o ≡ some model → (o ≡ some model) × (model ≢ [])
    filled none e = cc
    filled (some []) e = cc
    filled (some (c ∷ s)) e = (e, λ n. cc (e, n))

exact_model-Mapped :
    (fold : ℕ → ℕ) (ms : Mappings) (external provider_id model : Text)
    → exact_model ms external provider_id ≡ some model
    → Mapped fold external provider_id model ms
unfolding exact_model
exact_model-Mapped fold ms external provider_id model h =
    elim (Option-cases (lookup text_eq external ms)) [
      | inl e ↦ absurd (impossible e h)
      | inr (m, e) ↦ mapped m e (real_model-entry m provider_id model (rw (e, exact_model) at h))
    ]
  where
    impossible :
        lookup text_eq external ms ≡ none → exact_model ms external provider_id ≡ some model → ⊥
    impossible e k = ground arith

    mapped :
        (m : List (Text × Text))
        → lookup text_eq external ms ≡ some m
        → (lookup text_eq provider_id m ≡ some model) × (model ≢ [])
        → Mapped fold external provider_id model ms
    mapped m e (entry, filled) = record {
      key = external;
      models = m;
      member = lookup-In external m ms e;
      folds = equal_fold_refl fold external;
      entry = entry;
      filled = filled;
    }

scan_models-Mapped :
    (fold : ℕ → ℕ) (ms : Mappings) (external provider_id model : Text)
    → scan_models fold ms external provider_id ≡ some model
    → Mapped fold external provider_id model ms
scan_models-Mapped fold ms external provider_id model h =
    stop (scan_models-cases fold ms external provider_id)
  where
    stop : ScanCases fold external provider_id ms → Mapped fold external provider_id model ms
    stop (inl (off, p)) = absurd (cc (p, h))
    stop (inr f) =
        let r = real_model-entry f.models provider_id model (sym f.outcome ∙ h) in
        record {
          key = f.key;
          models = f.models;
          member = f.member;
          folds = f.folds;
          entry = r.0;
          filled = r.1;
        }

-- The result is the external name itself, or the non-empty model name that a mapping of the
-- snapshot gives the provider, the key of that mapping being the external name up to case.
pub rewrite_model-outcomes :
    (fold : ℕ → ℕ) (order : Mappings → Mappings) (table : ProviderTable)
    (external provider_id : Text)
    → SameEntries table.mappings (order table.mappings)
    → (rewrite_model fold order table external provider_id ≡ external)
      ⊎ Mapped fold external provider_id
          (rewrite_model fold order table external provider_id)
          table.mappings
unfolding rewrite_model
rewrite_model-outcomes fold order table external provider_id same =
    chosen (exact_model table.mappings external provider_id)
      (scan_models fold (order table.mappings) external provider_id) refl refl
  where
    chosen :
        (a b : Option Text)
        → exact_model table.mappings external provider_id ≡ a
        → scan_models fold (order table.mappings) external provider_id ≡ b
        → (get_or (or_else a b) external ≡ external)
          ⊎ Mapped fold external provider_id (get_or (or_else a b) external) table.mappings
    chosen (some model) b p q =
        inr (exact_model-Mapped fold table.mappings external provider_id model p)
    chosen none (some model) p q =
        inr
          (from_range (scan_models-Mapped fold (order table.mappings) external provider_id model q))
      where
        from_range :
            Mapped fold external provider_id model (order table.mappings)
            → Mapped fold external provider_id model table.mappings
        from_range f = record {
          key = f.key;
          models = f.models;
          member = same.1 _ f.member;
          folds = f.folds;
          entry = f.entry;
          filled = f.filled;
        }
    chosen none none p q = inl refl

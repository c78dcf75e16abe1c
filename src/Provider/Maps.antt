-- ===== src/Provider/Maps.antt =====
-- Go maps by text keys, and the two-level map of model names, as store.go fills them.
use shimiaocheng_llm.Prelude.{
  ◌≡◌, refl, ap, sym, ◌∙◌, subst, inl, inr, Bool, true, false, List, [], ◌∷◌, Option, none, some,
  Text, text_eq, text_eq_refl, eq_of_text_eq, if◌then◌else◌, lookup, any, Bool-cases, and_parts, In,
  IsDistinct,
}
use shimiaocheng_llm.Provider.{ModelMappingRecord}
use shimiaocheng_llm.Provider.Rules.{has_pair}
use shimiaocheng_llm.Provider.Rows.{text_eq_symm}
use shimiaocheng_llm.Provider.Invariant.{same_pair}
use shimiaocheng_llm.Provider.Snapshot.{assign, or_empty, add_mapping, load_mappings}

-- Two keys that equal a third are equal to each other.
pub text_eq_cong : (a b k : Text) → text_eq a b ≡ true → text_eq a k ≡ text_eq b k
text_eq_cong a b k e = subst (λ t. text_eq a k ≡ text_eq t k) (eq_of_text_eq a b e) refl

text_eq_apart : (i j k : Text) → text_eq i j ≡ false → text_eq i k ≡ true → text_eq j k ≡ false
text_eq_apart i j k e h =
    text_eq_symm j k ∙ subst (λ t. text_eq t j ≡ false) (eq_of_text_eq i k h) e

module _ {A : Type 0} where
  pub lookup-assign :
      (k j : Text) (v : A) (m : List (Text × A))
      → lookup text_eq k (assign j v m) ≡ (if text_eq j k then some v else lookup text_eq k m)
  unfolding assign
  lookup-assign k j v [] = refl
  lookup-assign k j v ((i, w) ∷ m) = elim (Bool-cases (text_eq i j)) [
    | inl e ↦ rw (e, text_eq_cong i j k e) (same (text_eq j k) (lookup text_eq k m))
    | inr e ↦ elim (Bool-cases (text_eq i k)) [
      | inl h ↦ rw (e, h, text_eq_apart i j k e h) refl
      | inr h ↦ rw (e, h) (lookup-assign k j v m)
    ]
  ]
    where
      same :
          (b : Bool) (o : Option A)
          → ◌≡◌ {A = Option A}
              (if b then some v else o)
              (if b then some v else (if b then some w else o))
      same true o = refl
      same false o = refl

  -- A key that stands in a map is found.
  pub lookup-In :
      (k : Text) (v : A) (m : List (Text × A))
      → In (k, v) m
      → (w : A) × (lookup text_eq k m ≡ some w)
  lookup-In k v [] i = absurd i
  lookup-In k v ((j, w) ∷ m) (inl e) = (w, rw (sym (ap (λ p. p.0) e), text_eq_refl k) refl)
  lookup-In k v ((j, w) ∷ m) (inr i) = elim (Bool-cases (text_eq j k)) [
    | inl e ↦ (w, rw e refl)
    | inr e ↦ rw e (lookup-In k v m i)
  ]

abbrev pub models_at : Text → Option (List (Text × Text)) → Option Text
models_at provider none = none
models_at provider (some models) = lookup text_eq provider models

abbrev pub lookup_model : Text → Text → List (Text × List (Text × Text)) → Option Text
lookup_model external provider ms = models_at provider (lookup text_eq external ms)

models_at-empty :
    (provider : Text) (o : Option (List (Text × Text)))
    → lookup text_eq provider (or_empty o) ≡ models_at provider o
models_at-empty provider none = refl
models_at-empty provider (some models) = refl

-- One mapping more.
pub lookup_model-add :
    (external provider : Text) (ms : List (Text × List (Text × Text))) (m : ModelMappingRecord)
    → lookup_model external provider (add_mapping ms m) ≡ (
        if has_pair external provider m
        then some m.real_model
        else lookup_model external provider ms)
lookup_model-add external provider ms m = elim (Bool-cases (text_eq m.external external)) [
  | inr h ↦
      rw
        (
          lookup-assign external m.external
              (assign m.provider_id m.real_model (or_empty (lookup text_eq m.external ms))) ms,
          h,
        )
        refl
  | inl h ↦
      rw
        (
          lookup-assign external m.external
              (assign m.provider_id m.real_model (or_empty (lookup text_eq m.external ms))) ms,
          h,
          lookup-assign provider m.provider_id m.real_model
              (or_empty (lookup text_eq m.external ms)),
          models_at-empty provider (lookup text_eq m.external ms),
          eq_of_text_eq m.external external h,
        )
        refl
]

-- The row of a pair.
unfoldable pub find_pair : Text → Text → List ModelMappingRecord → Option Text
find_pair external provider [] = none
find_pair external provider (m ∷ ms) =
    if has_pair external provider m then some m.real_model else find_pair external provider ms

find_pair-absent :
    (external provider : Text) (ms : List ModelMappingRecord)
    → any (has_pair external provider) ms ≡ false
    → find_pair external provider ms ≡ none
unfolding find_pair
find_pair-absent external provider [] h = refl
find_pair-absent external provider (m ∷ ms) h = elim (Bool-cases (has_pair external provider m)) [
  | inl e ↦ cc
  | inr e ↦ rw e (find_pair-absent external provider ms (rw e at h))
]

abbrev pub or_else {ℓ} : {A : Type ℓ} → Option A → Option A → Option A
or_else none b = b
or_else (some a) b = some a

-- The map that the loop fills has, for a pair, the row's model, or what it had before.
pub load_mappings-lookup :
    (external provider : Text) (rows : List ModelMappingRecord)
    (ms : List (Text × List (Text × Text)))
    → IsDistinct same_pair rows
    → lookup_model external provider (load_mappings rows ms)
      ≡ or_else (find_pair external provider rows) (lookup_model external provider ms)
unfolding load_mappings find_pair
load_mappings-lookup external provider [] ms d = refl
load_mappings-lookup external provider (m ∷ rows) ms d =
    load_mappings-lookup external provider rows (add_mapping ms m) d.1
    ∙ elim (Bool-cases (has_pair external provider m)) [
      | inr h ↦ rw (lookup_model-add external provider ms m, h) refl
      | inl h ↦
          rw
            (
              lookup_model-add external provider ms m,
              h,
              find_pair-absent external provider rows (absent h),
            )
            refl
    ]
  where
    absent : has_pair external provider m ≡ true → any (has_pair external provider) rows ≡ false
    absent h =
        subst (λ x. any (has_pair x provider) rows ≡ false)
          (eq_of_text_eq m.external external
            (and_parts (text_eq m.external external) (text_eq m.provider_id provider) h).0)
          (subst (λ y. any (has_pair m.external y) rows ≡ false)
            (eq_of_text_eq m.provider_id provider
              (and_parts (text_eq m.external external) (text_eq m.provider_id provider) h).1)
            d.0)

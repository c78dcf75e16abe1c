-- ===== src/Router/Models.antt =====
-- RewriteModel of internal/router/selector.go: the external model name to the provider's own.
pub mod Outcomes
use shimiaocheng_llm.Prelude.{
  ℕ, ◌≡◌, ◌≢◌, refl, ◌⊎◌, inl, inr, Bool, true, false, ◌&&◌, List, [], ◌∷◌, Option, none, some,
  Text, text_eq, ◌==◌, if◌then◌else◌, lookup, In, arith, Bool-cases, Option-cases, sym, ap, ◌∙◌,
}
use shimiaocheng_llm.Router.{ProviderTable}
use shimiaocheng_llm.Router.Outcome.{lookup-In}

-- `strings.EqualFold`: rune by rune, under the folding of Unicode.
unfoldable pub equal_fold : (ℕ → ℕ) → Text → Text → Bool
equal_fold fold [] [] = true
equal_fold fold [] (y ∷ ys) = false
equal_fold fold (x ∷ xs) [] = false
equal_fold fold (x ∷ xs) (y ∷ ys) = fold x == fold y && equal_fold fold xs ys

non_empty : Option Text → Option Text
non_empty none = none
non_empty (some []) = none
non_empty (some (c ∷ s)) = some (c ∷ s)

-- The entry of a provider in a mapping, if it is there and not empty.
unfoldable pub real_model : List (Text × Text) → Text → Option Text
unfolding non_empty
real_model m provider_id = non_empty (lookup text_eq provider_id m)

exact_model : List (Text × List (Text × Text)) → Text → Text → Option Text
unfolding real_model
exact_model mappings external provider_id = elim (lookup text_eq external mappings) [
  | some m ↦ real_model m provider_id
  | none ↦ none
]

-- The second loop of `RewriteModel`: it ends at the first key that is equal under folding.
scan_models : (ℕ → ℕ) → List (Text × List (Text × Text)) → Text → Text → Option Text
scan_models fold [] external provider_id = none
scan_models fold ((key, m) ∷ ms) external provider_id =
    if equal_fold fold key external
    then real_model m provider_id
    else scan_models fold ms external provider_id

or_else : Option Text → Option Text → Option Text
or_else (some a) b = some a
or_else none b = b

get_or : Option Text → Text → Text
get_or (some a) d = a
get_or none d = d

-- `RewriteModel`; `order` is the order in which the runtime ranges over the mappings.
unfoldable pub rewrite_model :
    (ℕ → ℕ)
    → (List (Text × List (Text × Text)) → List (Text × List (Text × Text)))
    → ProviderTable
    → Text
    → Text
    → Text
unfolding exact_model scan_models or_else get_or
rewrite_model fold order table external provider_id =
    get_or
      (or_else (exact_model table.mappings external provider_id)
        (scan_models fold (order table.mappings) external provider_id))
      external

abbrev pub Mappings : Type 0
Mappings = List (Text × List (Text × Text))

-- The entry at which the folding scan stops.
record Folded (fold : ℕ → ℕ) (external provider_id : Text) (ms : Mappings) (r : Option Text)
    : Type 0 where
  key : Text
  models : List (Text × Text)
  member : In (key, models) ms
  folds : equal_fold fold key external ≡ true
  outcome : r ≡ real_model models provider_id

-- No key is equal under folding, or the scan stops at one that is.
abbrev ScanCases : (ℕ → ℕ) → Text → Text → Mappings → Type 0
ScanCases fold external provider_id ms =
    (((key : Text) (m : List (Text × Text)) → In (key, m) ms → equal_fold fold key external ≡ false)
      × (scan_models fold ms external provider_id ≡ none))
    ⊎ Folded fold external provider_id ms (scan_models fold ms external provider_id)

scan_models-cases :
    (fold : ℕ → ℕ) (ms : Mappings) (external provider_id : Text)
    → ScanCases fold external provider_id ms
unfolding scan_models
scan_models-cases fold [] external provider_id = inl ((λ key m k. absurd k), refl)
scan_models-cases fold ((key, m) ∷ ms) external provider_id =
    elim (Bool-cases (equal_fold fold key external)) [
      | inl e ↦ inr (record {
        key = key;
        models = m;
        member = inl refl;
        folds = e;
        outcome = rw (e, scan_models) refl;
      })
      | inr e ↦ later e (scan_models-cases fold ms external provider_id)
    ]
  where
    here :
        equal_fold fold key external ≡ false
        → ((j : Text) (n : List (Text × Text)) → In (j, n) ms → equal_fold fold j external ≡ false)
        → (j : Text) (n : List (Text × Text)) → In (j, n) ((key, m) ∷ ms)
        → equal_fold fold j external ≡ false
    here e off j n (inl p) = cc (ap (λ (x : Text × List (Text × Text)). x.0) p, e)
    here e off j n (inr k) = off j n k

    later :
        equal_fold fold key external ≡ false
        → ScanCases fold external provider_id ms
        → ScanCases fold external provider_id ((key, m) ∷ ms)
    later e (inl (off, p)) = inl (here e off, rw (e, scan_models) p)
    later e (inr f) = inr (record {
      key = f.key;
      models = f.models;
      member = inr f.member;
      folds = f.folds;
      outcome = rw (e, scan_models) f.outcome;
    })

-- At most one mapping of the snapshot has a key equal to the name under folding.
abbrev pub HasOneFold : (ℕ → ℕ) → Text → Mappings → Type 0
HasOneFold fold external ms =
    (j k : Text) (m n : List (Text × Text))
    → In (j, m) ms
    → In (k, n) ms
    → equal_fold fold j external ≡ true
    → equal_fold fold k external ≡ true
    → m ≡ n

-- The runtime ranges over the entries of the map, all of them and no other.
abbrev pub SameEntries : Mappings → Mappings → Type 0
SameEntries ms ns =
    ((x : Text × List (Text × Text)) → In x ms → In x ns)
    × ((x : Text × List (Text × Text)) → In x ns → In x ms)

scan_models-order_free :
    (fold : ℕ → ℕ) (ms ns : Mappings) (external provider_id : Text)
    → HasOneFold fold external ms
    → SameEntries ms ns
    → scan_models fold ns external provider_id ≡ scan_models fold ms external provider_id
scan_models-order_free fold ms ns external provider_id one same =
    both (scan_models-cases fold ms external provider_id)
      (scan_models-cases fold ns external provider_id)
  where
    both :
        ScanCases fold external provider_id ms
        → ScanCases fold external provider_id ns
        → scan_models fold ns external provider_id ≡ scan_models fold ms external provider_id
    both (inl (off, p)) (inl (off', q)) = q ∙ sym p
    both (inl (off, p)) (inr g) = cc (off g.key g.models (same.1 _ g.member), g.folds)
    both (inr f) (inl (off', q)) = cc (off' f.key f.models (same.0 _ f.member), f.folds)
    both (inr f) (inr g) =
        g.outcome
        ∙ ap (λ m. real_model m provider_id)
            (one g.key f.key g.models f.models (same.1 _ g.member) f.member g.folds f.folds)
        ∙ sym f.outcome

-- The real model name does not depend on the order in which the runtime ranges over the mappings,
-- where at most one of them has a key equal to the external name under folding.
pub rewrite_model-order_free :
    (fold : ℕ → ℕ) (order order' : Mappings → Mappings) (table : ProviderTable)
    (external provider_id : Text)
    → HasOneFold fold external table.mappings
    → SameEntries table.mappings (order table.mappings)
    → SameEntries table.mappings (order' table.mappings)
    → rewrite_model fold order' table external provider_id
      ≡ rewrite_model fold order table external provider_id
unfolding rewrite_model
rewrite_model-order_free fold order order' table external provider_id one s s' =
    ap (λ r. get_or (or_else (exact_model table.mappings external provider_id) r) external)
      (scan_models-order_free fold table.mappings _ external provider_id one s'
        ∙ sym (scan_models-order_free fold table.mappings _ external provider_id one s))

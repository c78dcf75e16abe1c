-- ===== src/Provider/Deletion.antt =====
-- What a provider's deletion guarantees: nothing refers to it, and somebody is left to serve.
use shimiaocheng_llm.Prelude.{
  ◌+◌, ◌≤◌, ◌≡◌, ◌⊎◌, refl, subst, inl, inr, Bool, true, false, not, ◌&&◌, List, [], ◌∷◌, Option,
  none, some, Text, text, text_eq, if◌then◌else◌, keep, any, All, Bool-cases, arith, eq_of_text_eq,
  leb, ltb, length, IsDistinct,
}
use shimiaocheng_llm.GoTime.{Time}
use shimiaocheng_llm.Auth.{User}
use shimiaocheng_llm.Provider.{
  ProviderRecord, Tables, Codec, Steps, StoreError, find_slug, write_audit, count_where,
}
use shimiaocheng_llm.Provider.Delete.{
  delete_provider, drop_slug, reference_error, users_by_fixed_provider, user_error,
}
use shimiaocheng_llm.Provider.Rows.{has_slug, same_slug}
use shimiaocheng_llm.Provider.Outcomes.{delete_provider-cases, DeleteCases, kept, deleted}
use shimiaocheng_llm.Provider.Invariant.{IsWellFormed}

module _ {A : Type 0} (p : A → Bool) where
  count-none : (xs : List A) → ltb 0 (count_where p xs) ≡ false → All (λ x. p x ≡ false) xs
  count-none [] h = tt
  count-none (x ∷ xs) h = elim (Bool-cases (p x)) [
    | inl e ↦ absurd (some_row (rw e at h))
    | inr e ↦ (e, count-none xs (rw e at h))
  ]
    where
      some_row : ltb 0 (count_where p xs + 1) ≡ false → ⊥
      some_row k = ground arith

  keep-All : (xs : List A) → All (λ x. p x ≡ false) xs → keep (λ x. not (p x)) xs ≡ xs
  keep-All [] h = refl
  keep-All (x ∷ xs) h = rw (h.0, keep-All xs h.1) refl

  none-any : (xs : List A) → any p xs ≡ false → All (λ x. p x ≡ false) xs
  none-any [] h = tt
  none-any (x ∷ xs) h = (ground (arith, h), none-any xs (ground (arith, h)))

-- Nobody who is not deleted is fixed to the provider.
abbrev pub IsFree : Text → User → Type 0
IsFree slug u = (text_eq u.fixed_provider slug && not (text_eq u.status (text "deleted"))) ≡ false

nobody_fixed :
    (slug : Text) (users : List User)
    → users_by_fixed_provider slug users ≡ []
    → All (IsFree slug) users
unfolding users_by_fixed_provider
nobody_fixed slug [] h = tt
nobody_fixed slug (u ∷ us) h =
    elim (Bool-cases (text_eq u.fixed_provider slug && not (text_eq u.status (text "deleted")))) [
      | inl e ↦ absurd (filled (rw (e, users_by_fixed_provider) at h))
      | inr e ↦ (e, nobody_fixed slug us (rw (e, users_by_fixed_provider) at h))
    ]
  where
    filled : ◌≡◌ {A = List Text} (u.username ∷ users_by_fixed_provider slug us) [] → ⊥
    filled k = cc

-- The facts that the checks establish.
pub record IsUnreferenced (slug : Text) (users : List User) (t : Tables) : Type 0 where
  pub rules : All (λ r. text_eq r.provider_id slug ≡ false) t.rules
  pub mappings : All (λ m. text_eq m.provider_id slug ≡ false) t.mappings
  pub fixed : All (IsFree slug) users
  pub others : leb (length t.providers) 1 ≡ false

pub reference_error-none :
    (slug : Text) (users : List User) (t : Tables)
    → reference_error slug users t ≡ none
    → IsUnreferenced slug users t
unfolding reference_error user_error
reference_error-none slug users t h =
    elim (Bool-cases (ltb 0 (count_where (λ r. text_eq r.provider_id slug) t.rules))) [
      | inl e ↦ absurd (clash (rw (e, reference_error) at h))
      | inr e ↦
          elim (Bool-cases (ltb 0 (count_where (λ m. text_eq m.provider_id slug) t.mappings))) [
            | inl k ↦ absurd (clash (rw (e, k, reference_error) at h))
            | inr k ↦
                free e k (users_by_fixed_provider slug users) refl (rw (e, k, reference_error) at h)
          ]
    ]
  where
    clash : {e : StoreError} → ◌≡◌ {A = Option StoreError} (some e) none → ⊥
    clash h = cc

    free :
        ltb 0 (count_where (λ r. text_eq r.provider_id slug) t.rules) ≡ false
        → ltb 0 (count_where (λ m. text_eq m.provider_id slug) t.mappings) ≡ false
        → (names : List Text) → users_by_fixed_provider slug users ≡ names
        → user_error names (length t.providers) ≡ none
        → IsUnreferenced slug users t
    free e k (n ∷ ns) u h = absurd (clash h)
    free e k [] u h = record {
      rules = count-none (λ r. text_eq r.provider_id slug) t.rules e;
      mappings = count-none (λ m. text_eq m.provider_id slug) t.mappings k;
      fixed = nobody_fixed slug users u;
      others = several (Bool-cases (leb (length t.providers) 1));
    }
      where
        several :
            (leb (length t.providers) 1 ≡ true) ⊎ (leb (length t.providers) 1 ≡ false)
            → leb (length t.providers) 1 ≡ false
        several (inr f) = f
        several (inl f) = absurd (clash (rw f at h))

-- At most one row leaves with a slug.
length-drop_slug :
    (slug : Text) (ps : List ProviderRecord)
    → IsDistinct same_slug ps
    → length ps ≤ length (keep (λ p. not (text_eq p.slug slug)) ps) + 1
length-drop_slug slug [] d = omega arith
length-drop_slug slug (p ∷ ps) d = elim (Bool-cases (text_eq p.slug slug)) [
  | inr e ↦ rw e (omega (arith, length-drop_slug slug ps d.1))
  | inl e ↦
      rw
        (
          e,
          keep-All (has_slug slug) ps (
              none-any (has_slug slug) ps
                (subst (λ s. any (has_slug s) ps ≡ false) (eq_of_text_eq p.slug slug e) d.0)),
        )
        (omega arith)
]

find_slug-drop :
    (slug other : Text) (ps : List ProviderRecord)
    → find_slug other (keep (λ p. not (text_eq p.slug slug)) ps)
      ≡ (if text_eq other slug then none else find_slug other ps)
unfolding find_slug
find_slug-drop slug other [] = ground arith
find_slug-drop slug other (p ∷ ps) = elim (Bool-cases (text_eq p.slug slug)) [
  | inr e ↦ elim (Bool-cases (text_eq p.slug other)) [
    | inl k ↦
        rw (e, k) (rw (subst (λ s. text_eq s slug ≡ false) (eq_of_text_eq p.slug other k) e) refl)
    | inr k ↦ rw (e, k) (find_slug-drop slug other ps)
  ]
  | inl e ↦ elim (Bool-cases (text_eq p.slug other)) [
    | inl k ↦
        gone (subst (λ s. text_eq s slug ≡ true) (eq_of_text_eq p.slug other k) e) e
          (find_slug-drop slug other ps)
    | inr k ↦ rw (e, k) (find_slug-drop slug other ps)
  ]
]
  where
    gone :
        text_eq other slug ≡ true
        → text_eq p.slug slug ≡ true
        → find_slug other (keep (λ p. not (text_eq p.slug slug)) ps)
          ≡ (if text_eq other slug then none else find_slug other ps)
        → find_slug other (keep (λ p. not (text_eq p.slug slug)) (p ∷ ps))
          ≡ (if text_eq other slug then none else find_slug other (p ∷ ps))
    gone o e h = rw (e, o) (rw o at h)

module _ (slug : Text) (users : List User) (t : Tables) where
  -- What holds after a deletion that succeeds.
  pub record IsSafe (after : Tables) : Type 0 where
    pub unreferenced : IsUnreferenced slug users t
    pub rules : after.rules ≡ t.rules
    pub mappings : after.mappings ≡ t.mappings
    pub rows :
        (other : Text)
        → find_slug other after.providers
          ≡ (if text_eq other slug then none else find_slug other t.providers)
    pub remaining : 1 ≤ length after.providers

  IsSafe-audit :
      (c : Codec) (s : Steps) (now : Time) (after : Tables) (a tt' ti d : Text)
      → IsSafe after
      → IsSafe (write_audit c s.audits now a tt' ti d after)
  unfolding write_audit
  IsSafe-audit c s now after a tt' ti d h = elim (Bool-cases s.audits) [
    | inr b ↦ rw (b, write_audit) h
    | inl b ↦
        rw (b, write_audit)
          record {
            unreferenced = h.unreferenced;
            rules = h.rules;
            mappings = h.mappings;
            rows = h.rows;
            remaining = h.remaining;
          }
  ]

  -- A deletion that succeeds on tables that are well formed: no routing rule, no mapping and no user
  -- who is not deleted referred to the provider, the rules, the mappings and every other provider
  -- stay as they were, and at least one provider remains.
  pub delete_provider-IsSafe :
      (c : Codec) (s : Steps) (now : Time)
      → IsWellFormed t
      → (delete_provider c s now slug users t).1 ≡ none
      → IsSafe (delete_provider c s now slug users t).0
  delete_provider-IsSafe c s now w e = ofc _ (delete_provider-cases c s now slug users t) e
    where
      ofc :
          (after : Tables × Option StoreError)
          → DeleteCases c s now slug users t after
          → after.1 ≡ none
          → IsSafe after.0
      ofc _ (kept e) h = absurd (clash h)
        where
          clash : ◌≡◌ {A = Option StoreError} (some e) none → ⊥
          clash h = cc
      ofc _ (deleted h) k =
          let u = reference_error-none slug users t h in
          IsSafe-audit c s now (drop_slug slug t) _ _ _ _ record {
            unreferenced = u;
            rules = refl;
            mappings = keep-All (λ m. text_eq m.provider_id slug) t.mappings u.mappings;
            rows = λ other. find_slug-drop slug other t.providers;
            remaining = ground (arith, u.others, length-drop_slug slug t.providers w.slugs);
          }

-- ===== src/Provider/Rows.antt =====
-- The statements of store.go on the rows of the table providers.
use shimiaocheng_llm.Prelude.{
  ℕ, ◌+◌, ◌≤◌, ◌≡◌, refl, ap, sym, ◌∙◌, subst, inl, inr, Bool, true, false, List, [], ◌∷◌, ◌++◌,
  none, Text, text_eq, if◌then◌else◌, map, keep, any, Bool-cases, arith, eq_of_text_eq, IsDistinct,
}
use shimiaocheng_llm.GoTime.{Time}
use shimiaocheng_llm.Provider.{
  ProviderRecord, Tables, Codec, find_slug, write_audit, clear_default, clear_defaults, count_where,
}
use shimiaocheng_llm.Provider.Update.{update_slug}

abbrev pub has_slug : Text → ProviderRecord → Bool
has_slug slug p = text_eq p.slug slug

abbrev pub same_slug : ProviderRecord → ProviderRecord → Bool
same_slug p q = text_eq q.slug p.slug

pub text_eq_symm : (a b : Text) → text_eq a b ≡ text_eq b a
text_eq_symm a b = elim (Bool-cases (text_eq a b)) [
  | inl e ↦ subst (λ t. text_eq a t ≡ text_eq t a) (eq_of_text_eq a b e) refl
  | inr e ↦ elim (Bool-cases (text_eq b a)) [
    | inl k ↦ subst (λ t. text_eq t b ≡ text_eq b t) (eq_of_text_eq b a k) refl
    | inr k ↦ e ∙ sym k
  ]
]

-- A slug that is looked up in vain belongs to no row.
pub find_slug-none :
    (slug : Text) (ps : List ProviderRecord)
    → find_slug slug ps ≡ none
    → any (has_slug slug) ps ≡ false
unfolding find_slug
find_slug-none slug [] h = refl
find_slug-none slug (p ∷ ps) h = elim (Bool-cases (text_eq p.slug slug)) [
  | inl e ↦ cc
  | inr e ↦ rw e (find_slug-none slug ps (rw e at h))
]

pub clear_defaults-map : (ps : List ProviderRecord) → clear_defaults ps ≡ map clear_default ps
unfolding clear_defaults
clear_defaults-map [] = refl
clear_defaults-map (p ∷ ps) = ap (λ t. clear_default p ∷ t) (clear_defaults-map ps)

abbrev pub update_row : (ProviderRecord → ProviderRecord) → Text → ProviderRecord → ProviderRecord
update_row f slug p = if text_eq p.slug slug then f p else p

pub update_slug-map :
    (f : ProviderRecord → ProviderRecord) (slug : Text) (ps : List ProviderRecord)
    → update_slug f slug ps ≡ map (update_row f slug) ps
unfolding update_slug
update_slug-map f slug [] = refl
update_slug-map f slug (p ∷ ps) = ap (λ t. update_row f slug p ∷ t) (update_slug-map f slug ps)

-- A change of a column other than the slug, the id and the order of rows.
pub record KeepsKey (f : ProviderRecord → ProviderRecord) : Type 0 where
  pub slug : (p : ProviderRecord) → (f p).slug ≡ p.slug
  pub id : (p : ProviderRecord) → (f p).id ≡ p.id

pub clear_default-KeepsKey : KeepsKey clear_default
clear_default-KeepsKey = record { slug = λ p. s p; id = λ p. i p }
  where
    s : (p : ProviderRecord) → (clear_default p).slug ≡ p.slug
    s p = elim (Bool-cases p.is_default) [ inl e ↦ rw e refl | inr e ↦ rw e refl ]

    i : (p : ProviderRecord) → (clear_default p).id ≡ p.id
    i p = elim (Bool-cases p.is_default) [ inl e ↦ rw e refl | inr e ↦ rw e refl ]

pub update_row-KeepsKey :
    (f : ProviderRecord → ProviderRecord) (slug : Text) → KeepsKey f → KeepsKey (update_row f slug)
update_row-KeepsKey f slug k = record { slug = λ p. s p; id = λ p. i p }
  where
    s : (p : ProviderRecord) → (update_row f slug p).slug ≡ p.slug
    s p = elim (Bool-cases (text_eq p.slug slug)) [ inl e ↦ rw e (k.slug p) | inr e ↦ rw e refl ]

    i : (p : ProviderRecord) → (update_row f slug p).id ≡ p.id
    i p = elim (Bool-cases (text_eq p.slug slug)) [ inl e ↦ rw e (k.id p) | inr e ↦ rw e refl ]

-- How many rows are marked as the default.
abbrev pub defaults : List ProviderRecord → ℕ
defaults = count_where (λ p. p.is_default)

pub defaults-append :
    (ps : List ProviderRecord) (p : ProviderRecord)
    → defaults (ps ++ p ∷ []) ≡ defaults ps + (if p.is_default then 1 else 0)
defaults-append [] p = ground arith
defaults-append (q ∷ ps) p = ground (arith, defaults-append ps p)

pub defaults-clear : (ps : List ProviderRecord) → defaults (clear_defaults ps) ≡ 0
unfolding clear_defaults
defaults-clear [] = refl
defaults-clear (p ∷ ps) = elim (Bool-cases p.is_default) [
  | inl e ↦ rw (e, defaults-clear ps) refl
  | inr e ↦ rw (e, defaults-clear ps) refl
]

pub defaults-keep :
    (q : ProviderRecord → Bool) (ps : List ProviderRecord) → defaults (keep q ps) ≤ defaults ps
defaults-keep q [] = omega arith
defaults-keep q (p ∷ ps) = ground (arith, defaults-keep q ps)

-- A change that marks no row leaves no more of them marked.
pub defaults-update :
    (f : ProviderRecord → ProviderRecord) (slug : Text) (ps : List ProviderRecord)
    → ((p : ProviderRecord) → (f p).is_default ≡ true → p.is_default ≡ true)
    → defaults (update_slug f slug ps) ≤ defaults ps
unfolding update_slug
defaults-update f slug [] k = omega arith
defaults-update f slug (p ∷ ps) k = elim (Bool-cases (text_eq p.slug slug)) [
  | inl e ↦ rw e (ground (arith, k p, defaults-update f slug ps k))
  | inr e ↦ rw e (ground (arith, defaults-update f slug ps k))
]

pub update_slug-absent :
    (f : ProviderRecord → ProviderRecord) (slug : Text) (ps : List ProviderRecord)
    → any (has_slug slug) ps ≡ false
    → update_slug f slug ps ≡ ps
unfolding update_slug
update_slug-absent f slug [] h = refl
update_slug-absent f slug (p ∷ ps) h = elim (Bool-cases (text_eq p.slug slug)) [
  | inl e ↦ cc
  | inr e ↦ rw (e, update_slug-absent f slug ps (rw e at h)) refl
]

-- Where no row is marked and slugs are distinct, an UPDATE of one slug marks one row at most.
pub defaults-update_one :
    (f : ProviderRecord → ProviderRecord) (slug : Text) (ps : List ProviderRecord)
    → IsDistinct same_slug ps
    → defaults ps ≡ 0
    → defaults (update_slug f slug ps) ≤ 1
unfolding update_slug
defaults-update_one f slug [] d z = omega arith
defaults-update_one f slug (p ∷ ps) d z = elim (Bool-cases (text_eq p.slug slug)) [
  | inl e ↦
      rw
        (
          e,
          update_slug-absent f slug ps
              (subst (λ s. any (has_slug s) ps ≡ false) (eq_of_text_eq p.slug slug e) d.0),
        )
        ground (arith, z)
  | inr e ↦ rw e ground (arith, z, defaults-update_one f slug ps d.1)
]

pub write_audit-providers :
    (c : Codec) (audits : Bool) (now : Time) (a tt' ti d : Text) (t : Tables)
    → (write_audit c audits now a tt' ti d t).providers ≡ t.providers
unfolding write_audit
write_audit-providers c true now a tt' ti d t = refl
write_audit-providers c false now a tt' ti d t = refl

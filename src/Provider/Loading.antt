-- ===== src/Provider/Loading.antt =====
-- The loop of BuildProviderTable in store.go over the providers: what the map has after it.
use shimiaocheng_llm.Prelude.{
  ◌≡◌, ◌⊎◌, refl, ap, sym, ◌∙◌, subst, inl, inr, true, false, List, [], ◌∷◌, Option, none, some,
  Text, text_eq, text_eq_refl, eq_of_text_eq, if◌then◌else◌, lookup, any, keep, Bool-cases,
  IsDistinct, Result, ok, err, Result-cases, ok_injective, ok_not_err,
}
use shimiaocheng_llm.Security.{decrypt, CryptoError}
use shimiaocheng_llm.Router.{ProviderEntry, ProviderTable, ok}
use shimiaocheng_llm.Provider.{ProviderRecord, Codec, find_slug}
use shimiaocheng_llm.Provider.Rows.{has_slug, same_slug}
use shimiaocheng_llm.Provider.Snapshot.{entry_of, add_row, load_providers}
use shimiaocheng_llm.Provider.Maps.{lookup-assign, or_else}

-- A slug that no row has is not found.
pub find_slug-absent :
    (slug : Text) (ps : List ProviderRecord)
    → any (has_slug slug) ps ≡ false
    → find_slug slug ps ≡ none
unfolding find_slug
find_slug-absent slug [] h = refl
find_slug-absent slug (p ∷ ps) h = elim (Bool-cases (text_eq p.slug slug)) [
  | inl e ↦ cc
  | inr e ↦ rw e (find_slug-absent slug ps (rw e at h))
]

module _ (c : Codec) (kek : Text) where
  abbrev pub entry_with : ProviderRecord → Result CryptoError Text → Option ProviderEntry
  entry_with p (ok key) = some (entry_of c p key)
  entry_with p (err e) = none

  abbrev pub decrypted : Option ProviderRecord → Option ProviderEntry
  decrypted none = none
  decrypted (some p) = entry_with p (decrypt c.aead p.encrypted_key kek)

  -- The rows that are loaded decide what the map has; another slug keeps what it had.
  pub load_providers-lookup :
      (slug : Text) (ps : List ProviderRecord) (table loaded : ProviderTable)
      → IsDistinct same_slug ps
      → load_providers c kek ps table ≡ ok loaded
      → lookup text_eq slug loaded.providers
        ≡ or_else (decrypted (find_slug slug ps)) (lookup text_eq slug table.providers)
  unfolding load_providers find_slug
  load_providers-lookup slug [] table loaded d e =
      ap (λ t. lookup text_eq slug t.providers) (sym (ok_injective e))
  load_providers-lookup slug (p ∷ ps) table loaded d e =
      elim (Result-cases (decrypt c.aead p.encrypted_key kek)) [
        | inr (x, h) ↦ absurd (ok_not_err (sym (rw (h, load_providers) at e)))
        | inl (key, h) ↦
            load_providers-lookup slug ps (add_row c p key table) loaded d.1
              (rw (h, load_providers) at e)
            ∙ elim (Bool-cases (text_eq p.slug slug)) [
              | inl k ↦
                  rw
                    (
                      lookup-assign slug p.slug (entry_of c p key) table.providers,
                      k,
                      find_slug-absent slug ps (
                          subst (λ s. any (has_slug s) ps ≡ false) (eq_of_text_eq p.slug slug k)
                            d.0),
                      h,
                    )
                    refl
              | inr k ↦ rw (lookup-assign slug p.slug (entry_of c p key) table.providers, k) refl
            ]
      ]

-- A row that is enabled.
abbrev pub if_enabled : Option ProviderRecord → Option ProviderRecord
if_enabled none = none
if_enabled (some p) = if p.enabled then some p else none

pub find_slug-enabled :
    (slug : Text) (ps : List ProviderRecord)
    → IsDistinct same_slug ps
    → find_slug slug (keep (λ p. p.enabled) ps) ≡ if_enabled (find_slug slug ps)
unfolding find_slug
find_slug-enabled slug [] d = refl
find_slug-enabled slug (p ∷ ps) d = elim (Bool-cases p.enabled) [
  | inl b ↦ elim (Bool-cases (text_eq p.slug slug)) [
    | inl k ↦ rw (b, k) refl
    | inr k ↦ rw (b, k) (find_slug-enabled slug ps d.1)
  ]
  | inr b ↦ elim (Bool-cases (text_eq p.slug slug)) [
    | inl k ↦
        rw (b, k)
          (find_slug-enabled slug ps d.1
            ∙ ap if_enabled (
                find_slug-absent slug ps
                  (subst (λ s. any (has_slug s) ps ≡ false) (eq_of_text_eq p.slug slug k) d.0)))
    | inr k ↦ rw (b, k) (find_slug-enabled slug ps d.1)
  ]
]

-- The default is an entry, or none is set.
abbrev pub HasDefault : ProviderTable → Type 0
HasDefault table =
    (table.default ≡ [])
    ⊎ ((e : ProviderEntry) × (lookup text_eq table.default table.providers ≡ some e))

module _ (c : Codec) (kek : Text) where
  add_row-HasDefault :
      (p : ProviderRecord) (key : Text) (table : ProviderTable)
      → HasDefault table
      → HasDefault (add_row c p key table)
  add_row-HasDefault p key table h = elim (Bool-cases p.is_default) [
    | inl b ↦ inr (entry_of c p key, marked b)
    | inr b ↦ unmarked b h
  ]
    where
      marked :
          p.is_default ≡ true
          → lookup text_eq (add_row c p key table).default (add_row c p key table).providers
            ≡ some (entry_of c p key)
      marked b =
          subst (λ k. lookup text_eq k (add_row c p key table).providers ≡ some (entry_of c p key))
            (sym (rw b refl))
            (lookup-assign p.slug p.slug (entry_of c p key) table.providers
              ∙ rw (text_eq_refl p.slug) refl)

      kept : p.is_default ≡ false → (add_row c p key table).default ≡ table.default
      kept b = rw b refl

      found :
          (x : ProviderEntry)
          → lookup text_eq table.default table.providers ≡ some x
          → (e : ProviderEntry) × (lookup text_eq table.default (add_row c p key table).providers
              ≡ some e)
      found x e = elim (Bool-cases (text_eq p.slug table.default)) [
        | inl k ↦ (
          entry_of c p key,
          lookup-assign table.default p.slug (entry_of c p key) table.providers ∙ rw k refl,
        )
        | inr k ↦
            (x, lookup-assign table.default p.slug (entry_of c p key) table.providers ∙ rw k e)
      ]

      unmarked : p.is_default ≡ false → HasDefault table → HasDefault (add_row c p key table)
      unmarked b (inl e) = inl (kept b ∙ e)
      unmarked b (inr (x, e)) = inr (
          subst
            (λ k.
              (e : ProviderEntry) × (lookup text_eq k (add_row c p key table).providers ≡ some e))
            (sym (kept b)) (found x e))

  pub load_providers-HasDefault :
      (ps : List ProviderRecord) (table loaded : ProviderTable)
      → HasDefault table
      → load_providers c kek ps table ≡ ok loaded
      → HasDefault loaded
  unfolding load_providers
  load_providers-HasDefault [] table loaded h e = subst HasDefault (ok_injective e) h
  load_providers-HasDefault (p ∷ ps) table loaded h e =
      elim (Result-cases (decrypt c.aead p.encrypted_key kek)) [
        | inr (x, k) ↦ absurd (ok_not_err (sym (rw (k, load_providers) at e)))
        | inl (key, k) ↦
            load_providers-HasDefault ps (add_row c p key table) loaded
              (add_row-HasDefault p key table h) (rw (k, load_providers) at e)
      ]

-- ===== src/Provider/Sealing.antt =====
-- The keys of the rows in store.go: what the operations seal opens again.
use shimiaocheng_llm.Prelude.{
  ◌≡◌, ◌⊎◌, refl, ap, sym, ◌∙◌, inl, inr, Bool, true, false, not, List, [], ◌∷◌, Option, none, some,
  Text, text_eq, ◌==◌, length, keep, All, All-keep, Bool-cases, ok, Result-cases, ok_injective,
  ok_not_err,
}
use shimiaocheng_llm.Security.{IsAead, encrypt, decrypt}
use shimiaocheng_llm.Security.Sealed.{decrypt-encrypt}
use shimiaocheng_llm.Router.{ProviderEntry, ProviderTable}
use shimiaocheng_llm.Provider.{ProviderRecord, Tables, Codec, clear_default, clear_defaults}
use shimiaocheng_llm.Provider.Create.{cleared}
use shimiaocheng_llm.Provider.Update.{update_slug, new_key}
use shimiaocheng_llm.Provider.Snapshot.{
  add_row, load_providers, load_mappings, choose_default, empty_table, finish_table,
  build_provider_table,
}

-- The random source gives a nonce of 12 bytes, or fails.
abbrev pub HasNonce : Option Text → Type 0
HasNonce none = Unit
HasNonce (some n) = length n ≡ 12

module _ (c : Codec) (kek : Text) where
  -- The row's key opens.
  abbrev pub Opens : ProviderRecord → Type 0
  Opens p = (key : Text) × (decrypt c.aead p.encrypted_key kek ≡ ok key)

  load_providers_total :
      (ps : List ProviderRecord) (table : ProviderTable)
      → All Opens ps
      → (loaded : ProviderTable) × (load_providers c kek ps table ≡ ok loaded)
  unfolding load_providers
  load_providers_total [] table h = (table, refl)
  load_providers_total (p ∷ ps) table h =
      let (key, d) = h.0 in
      let (loaded, e) = load_providers_total ps (add_row c p key table) h.1 in
      (loaded, rw (d, load_providers) e)

  pub build_provider_table_total :
      (order : List (Text × ProviderEntry) → List (Text × ProviderEntry)) (t : Tables)
      → All Opens t.providers
      → (table : ProviderTable) × (build_provider_table c kek order true t ≡ ok table)
  unfolding build_provider_table finish_table
  build_provider_table_total order t h =
      let (loaded, e) =
        load_providers_total (keep (λ p. p.enabled) t.providers) empty_table
          (All-keep Opens Opens (λ p. p.enabled) t.providers (λ p b o. o) h) in
      (
        record (choose_default order loaded) {
          mappings = load_mappings t.mappings [];
          rules = t.rules;
        },
        rw e refl,
      )

  cleared-Opens : (ps : List ProviderRecord) → All Opens ps → All Opens (clear_defaults ps)
  unfolding clear_defaults
  cleared-Opens [] h = tt
  cleared-Opens (p ∷ ps) h = (row (Bool-cases p.is_default), cleared-Opens ps h.1)
    where
      row : (p.is_default ≡ true) ⊎ (p.is_default ≡ false) → Opens (clear_default p)
      row (inl e) = rw e h.0
      row (inr e) = rw e h.0

  pub if_cleared-Opens :
      (b : Bool) (t : Tables) → All Opens t.providers → All Opens (cleared b t).providers
  if_cleared-Opens false t h = h
  if_cleared-Opens true t h = cleared-Opens t.providers h

  pub update_slug-Opens :
      (f : ProviderRecord → ProviderRecord) (slug : Text) (ps : List ProviderRecord)
      → ((p : ProviderRecord) → Opens p → Opens (f p))
      → All Opens ps
      → All Opens (update_slug f slug ps)
  unfolding update_slug
  update_slug-Opens f slug [] k h = tt
  update_slug-Opens f slug (p ∷ ps) k h = elim (Bool-cases (text_eq p.slug slug)) [
    | inl e ↦ rw e (k p h.0, update_slug-Opens f slug ps k h.1)
    | inr e ↦ rw e (h.0, update_slug-Opens f slug ps k h.1)
  ]

  module _ (law : IsAead c.aead) where
    -- What was encrypted opens.
    pub encrypted_opens :
        (random : Option Text) (plain key : Text)
        → HasNonce random
        → encrypt c.aead random plain kek ≡ ok key
        → decrypt c.aead key kek ≡ ok plain
    unfolding encrypt
    encrypted_opens none plain key n e = elim (Bool-cases (not (length kek == 32))) [
      | inl b ↦ absurd (ok_not_err (sym (rw (b, encrypt) at e)))
      | inr b ↦ absurd (ok_not_err (sym (rw (b, encrypt) at e)))
    ]
    encrypted_opens (some nonce) plain key n e = decrypt-encrypt c.aead law nonce plain kek key n e

    -- A key that UpdateProvider stores.
    pub new_key_opens :
        (random : Option Text) (given : Option Text) (key : Text)
        → HasNonce random
        → new_key c kek random given ≡ ok (some key)
        → (plain : Text) × (decrypt c.aead key kek ≡ ok plain)
    unfolding new_key
    new_key_opens random none key n e = absurd (clash (ok_injective e))
      where
        clash : ◌≡◌ {A = Option Text} none (some key) → ⊥
        clash h = cc
    new_key_opens random (some []) key n e = absurd (clash (ok_injective e))
      where
        clash : ◌≡◌ {A = Option Text} none (some key) → ⊥
        clash h = cc
    new_key_opens random (some (k ∷ ks)) key n e =
        elim (Result-cases (encrypt c.aead random (k ∷ ks) kek)) [
          | inr (x, h) ↦ absurd (ok_not_err (sym (rw (h, new_key) at e)))
          | inl (made, h) ↦ (
            k ∷ ks,
            encrypted_opens random (k ∷ ks) key n
                (h ∙ ap ok (same (ok_injective (rw (h, new_key) at e)))),
          )
        ]
      where
        same : {a b : Text} → ◌≡◌ {A = Option Text} (some a) (some b) → a ≡ b
        same h = cc

-- ===== src/Provider/Outcomes.antt =====
-- What the operations of store.go can do: one of the effects named here, or an error that leaves the
-- tables as they were.
use shimiaocheng_llm.Prelude.{
  ◌≡◌, ◌⊎◌, refl, sym, subst, inl, inr, true, false, not, ◌&&◌, List, [], Option, none, some,
  Option-cases, Text, text, if◌then◌else◌, Bool-cases, Result, ok, err, Result-cases,
}
use shimiaocheng_llm.GoTime.{Time}
use shimiaocheng_llm.Security.{encrypt}
use shimiaocheng_llm.Auth.{User}
use shimiaocheng_llm.Provider.{
  ProviderRecord, Tables, Codec, Steps, StoreError, read_failed, delete_failed, crypto,
  begin_failed, clear_failed, insert_failed, update_failed, commit_failed, write_audit,
}
use shimiaocheng_llm.Provider.Create.{
  NewProvider, create_provider, insert_row, cleared, provider_row, create_detail, commit_row,
  store_row,
}
use shimiaocheng_llm.Provider.Update.{
  ProviderUpdates, update_provider, new_key, set_or, updated, store_update,
}
use shimiaocheng_llm.Provider.Delete.{delete_provider, drop_slug, reference_error}

-- An error that leaves the tables.
pub record Failed {A : Type 0} (t : Tables) (after : Tables × Result StoreError A) : Type 0 where
  pub error : StoreError
  pub same : after ≡ (t, err error)

module _ (c : Codec) (s : Steps) (now : Time) (n : NewProvider) (t : Tables) where
  -- A provider that was created: the row with the encrypted key inserted, and what is returned.
  pub record Created (key : Text) (after : Tables × Result StoreError ProviderRecord) : Type 0 where
    pub rows : Tables
    pub inserted :
        insert_row (cleared n.is_default t) (provider_row c now n t.next_provider key) ≡ some rows
    pub effect : after ≡ (
      write_audit c s.audits now
          (text "provider.create")
          (text "provider")
          n.slug
          (create_detail n)
          rows,
      ok (record (provider_row c now n t.next_provider key) { encrypted_key = [] }),
    )

  commit_row-cases :
      (key : Text) (o : Option Tables)
      → o ≡ (
          if s.writes
          then insert_row (cleared n.is_default t) (provider_row c now n t.next_provider key)
          else none)
      → Failed t (commit_row c s now n t (provider_row c now n t.next_provider key) o)
        ⊎ Created key (commit_row c s now n t (provider_row c now n t.next_provider key) o)
  unfolding commit_row
  commit_row-cases key none e = inl (record { error = insert_failed; same = refl })
  commit_row-cases key (some t') e = elim (Bool-cases s.commits) [
    | inr k ↦ inl (record { error = commit_failed; same = rw k refl })
    | inl k ↦
        inr (record { rows = t'; inserted = written (Bool-cases s.writes); effect = rw k refl })
  ]
    where
      written :
          (s.writes ≡ true) ⊎ (s.writes ≡ false)
          → insert_row (cleared n.is_default t) (provider_row c now n t.next_provider key) ≡ some t'
      written (inl w) = sym (rw w at e)
      written (inr w) = absurd (clash (rw w at e))
        where
          clash : ◌≡◌ {A = Option Tables} (some t') none → ⊥
          clash h = cc

  store_row-cases :
      (key : Text) → Failed t (store_row c s now n t key) ⊎ Created key (store_row c s now n t key)
  unfolding store_row
  store_row-cases key = elim (Bool-cases s.begins) [
    | inr b ↦ inl (record { error = begin_failed; same = rw b refl })
    | inl b ↦ elim (Bool-cases (n.is_default && not s.clears)) [
      | inl k ↦ inl (record { error = clear_failed; same = rw (b, k) refl })
      | inr k ↦
          subst (λ r. Failed t r ⊎ Created key r) (sym (rw (b, k) refl))
            (commit_row-cases key _ refl)
    ]
  ]

  abbrev pub CreateCases :
      (kek : Text) → Option Text → Tables × Result StoreError ProviderRecord → Type 0
  CreateCases kek random after =
      Failed t after
      ⊎ ((key : Text) × (encrypt c.aead random n.api_key kek ≡ ok key) × Created key after)

  -- `create_provider` fails and leaves the tables, or creates the provider.
  pub create_provider-cases :
      (kek : Text) (random : Option Text)
      → CreateCases kek random (create_provider c s now n t kek random)
  unfolding create_provider
  create_provider-cases kek random = elim (Result-cases (encrypt c.aead random n.api_key kek)) [
    | inr (e, h) ↦ inl (record { error = crypto e; same = rw (h, create_provider) refl })
    | inl (key, h) ↦
        subst (CreateCases kek random) (sym (rw (h, create_provider) refl))
          (stored key h (store_row-cases key))
  ]
    where
      stored :
          (key : Text)
          → encrypt c.aead random n.api_key kek ≡ ok key
          → Failed t (store_row c s now n t key) ⊎ Created key (store_row c s now n t key)
          → CreateCases kek random (store_row c s now n t key)
      stored key h (inl f) = inl f
      stored key h (inr r) = inr (key, h, r)

module _ (c : Codec) (s : Steps) (now : Time) (printed slug : Text) (u : ProviderUpdates)
    (t : Tables) where
  abbrev pub UpdateCases :
      Result StoreError (Option Text) → Tables × Result StoreError (Option ProviderRecord) → Type 0
  UpdateCases made after =
      Failed t after
      ⊎ ((key : Option Text) × (made ≡ ok key) × (after.0 ≡ updated c s now printed slug u t key))

  -- `update_provider` fails and leaves the tables, or sets the columns.
  pub update_provider-cases :
      (kek : Text) (random : Option Text)
      → UpdateCases
          (new_key c kek random u.encrypted_key)
          (update_provider c s now printed slug u t kek random)
  unfolding update_provider store_update
  update_provider-cases kek random = elim (Bool-cases s.begins) [
    | inr b ↦ inl (record { error = begin_failed; same = rw b refl })
    | inl b ↦ elim (Bool-cases (set_or u.is_default false && not s.clears)) [
      | inl k ↦ inl (record { error = clear_failed; same = rw (b, k) refl })
      | inr k ↦
          subst (UpdateCases (new_key c kek random u.encrypted_key)) (sym (rw (b, k) refl))
            (stored (new_key c kek random u.encrypted_key))
    ]
  ]
    where
      stored :
          (r : Result StoreError (Option Text))
          → UpdateCases r (store_update c s now printed slug u t r)
      stored (err e) = inl (record { error = e; same = refl })
      stored (ok key) = elim (Bool-cases s.writes) [
        | inr b ↦ inl (record { error = update_failed; same = rw b refl })
        | inl b ↦ elim (Bool-cases s.commits) [
          | inr k ↦ inl (record { error = commit_failed; same = rw (b, k) refl })
          | inl k ↦ inr (key, refl, sym (rw (b, k) refl))
        ]
      ]

-- A deletion that is refused or fails leaves the tables; one that is done had no reference.
pub data DeleteCases (c : Codec) (s : Steps) (now : Time) (slug : Text) (users : List User)
    (t : Tables) : Tables × Option StoreError → Type 0 where
  kept : (e : StoreError) → DeleteCases c s now slug users t (t, some e)
  deleted :
      reference_error slug users t ≡ none
      → DeleteCases c s now slug users t (
        write_audit c s.audits now
            (text "provider.delete")
            (text "provider")
            slug
            []
            (drop_slug slug t),
        none,
      )

pub delete_provider-cases :
    (c : Codec) (s : Steps) (now : Time) (slug : Text) (users : List User) (t : Tables)
    → DeleteCases c s now slug users t (delete_provider c s now slug users t)
unfolding delete_provider
delete_provider-cases c s now slug users t = elim (Bool-cases s.reads) [
  | inr b ↦ subst (DeleteCases c s now slug users t) (sym (rw b refl)) (kept read_failed)
  | inl b ↦ elim (Option-cases (reference_error slug users t)) [
    | inr (e, h) ↦ subst (DeleteCases c s now slug users t) (sym (rw (b, h) refl)) (kept e)
    | inl h ↦ elim (Bool-cases s.writes) [
      | inr k ↦
          subst (DeleteCases c s now slug users t) (sym (rw (b, h, k) refl)) (kept delete_failed)
      | inl k ↦ subst (DeleteCases c s now slug users t) (sym (rw (b, h, k) refl)) (deleted h)
    ]
  ]
]

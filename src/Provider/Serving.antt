-- ===== src/Provider/Serving.antt =====
-- From the store to the router: what a request is routed to after CreateProvider, DeleteProvider or
-- UpdateProvider of store.go and a reload.
use shimiaocheng_llm.Prelude.{
  ◌≡◌, ◌≢◌, refl, ap, sym, ◌∙◌, subst, inl, inr, true, false, List, [], ◌∷◌, ◌++◌, Option, none,
  some, Option-cases, Text, text, text_eq, text_eq_refl, if◌then◌else◌, lookup, Bool-cases, length,
  or_default, ok, ok_not_err,
}
use shimiaocheng_llm.GoTime.{Time}
use shimiaocheng_llm.Auth.{User}
use shimiaocheng_llm.Security.{IsAead, decrypt}
use shimiaocheng_llm.Security.Sealed.{decrypt-encrypt}
use shimiaocheng_llm.Router.{
  ProviderEntry, ProviderTable, Provider, ok, provider_of, get_provider_by_slug, default_provider,
}
use shimiaocheng_llm.Provider.{ProviderRecord, Tables, Codec, Steps, find_slug}
use shimiaocheng_llm.Provider.Create.{
  NewProvider, create_provider, insert_row, cleared, provider_row,
}
use shimiaocheng_llm.Provider.Delete.{delete_provider}
use shimiaocheng_llm.Provider.Snapshot.{entry_of, parse_extra_headers, build_provider_table}
use shimiaocheng_llm.Provider.Rows.{write_audit-providers}
use shimiaocheng_llm.Provider.Outcomes.{create_provider-cases}
use shimiaocheng_llm.Provider.Invariant.{IsWellFormed}
use shimiaocheng_llm.Provider.Preservation.{create-IsWellFormed, delete-IsWellFormed}
use shimiaocheng_llm.Provider.Refinement.{IsOrder, IsSnapshot, build_provider_table-refines}
use shimiaocheng_llm.Provider.Loading.{decrypted, if_enabled, entry_with}
use shimiaocheng_llm.Provider.Deletion.{delete_provider-IsSafe}

find_slug-last :
    (ps : List ProviderRecord) (p : ProviderRecord)
    → find_slug p.slug ps ≡ none
    → find_slug p.slug (ps ++ p ∷ []) ≡ some p
unfolding find_slug
find_slug-last [] p h = rw (text_eq_refl p.slug) refl
find_slug-last (q ∷ ps) p h = elim (Bool-cases (text_eq q.slug p.slug)) [
  | inl e ↦ cc
  | inr e ↦ rw e (find_slug-last ps p (rw e at h))
]

-- A row that was inserted is found by its slug.
insert_row-find :
    (t t' : Tables) (p : ProviderRecord)
    → insert_row t p ≡ some t'
    → find_slug p.slug t'.providers ≡ some p
unfolding insert_row
insert_row-find t t' p e = elim (Option-cases (find_slug p.slug t.providers)) [
  | inr (q, h) ↦ absurd (clash (rw (h, insert_row) at e))
  | inl h ↦
      subst (λ u. find_slug p.slug u.providers ≡ some p) (same (rw (h, insert_row) at e))
        (find_slug-last t.providers p h)
]
  where
    clash : ◌≡◌ {A = Option Tables} none (some t') → ⊥
    clash h = cc

    same : {u v : Tables} → ◌≡◌ {A = Option Tables} (some u) (some v) → u ≡ v
    same h = cc

module _ (c : Codec) (kek : Text)
    (order : List (Text × ProviderEntry) → List (Text × ProviderEntry)) (law : IsOrder order)
    (s : Steps) (now : Time) (t : Tables) (table : ProviderTable) (w : IsWellFormed t) where
  -- What a request that is fixed to the new provider is sent with.
  abbrev pub served : NewProvider → Provider
  served n = record {
    id = n.slug;
    endpoint = n.endpoint;
    api_key = n.api_key;
    allow_passthrough = n.allow_passthrough;
    auth_header = or_default n.auth_header (text "Authorization");
    auth_scheme = or_default n.auth_scheme (text "bearer");
    extra_headers = parse_extra_headers c (c.marshal_headers n.extra_headers);
  }

  found_by_slug :
      (slug : Text) (p : ProviderRecord) (u : Tables) (key : Text)
      → IsWellFormed u
      → build_provider_table c kek order true u ≡ ok table
      → find_slug slug u.providers ≡ some p
      → p.enabled ≡ true
      → decrypt c.aead p.encrypted_key kek ≡ ok key
      → get_provider_by_slug table slug ≡ some (provider_of (entry_of c p key))
  unfolding get_provider_by_slug
  found_by_slug slug p u key wu b f on d = rw (entry, get_provider_by_slug) refl
    where
      entry : lookup text_eq slug table.providers ≡ some (entry_of c p key)
      entry =
          (build_provider_table-refines order law c kek u table wu b).providers slug
          ∙ rw f (at_row (rw on refl))
        where
          at_row :
              if_enabled (some p) ≡ some p
              → decrypted c kek (if_enabled (some p)) ≡ some (entry_of c p key)
          at_row e = ap (decrypted c kek) e ∙ ap (entry_with c kek p) d

  -- A provider that was created serves, after a reload that succeeds, the requests that are fixed to
  -- it: with its endpoint, the API key that was given, and the header and scheme that the store chose.
  pub create_provider-serves :
      IsAead c.aead
      → (nonce : Text) → length nonce ≡ 12
      → (n : NewProvider) (row : ProviderRecord)
      → (create_provider c s now n t kek (some nonce)).1 ≡ ok row
      → build_provider_table c kek order true (create_provider c s now n t kek (some nonce)).0
        ≡ ok table
      → get_provider_by_slug table n.slug ≡ some (served n)
  unfolding provider_of
  create_provider-serves sealed nonce twelve n row done built =
      elim (create_provider-cases c s now n t kek (some nonce)) [
        | inl f ↦ absurd (ok_not_err (sym done ∙ ap (λ a. a.1) f.same))
        | inr (key, e, made) ↦
            found_by_slug n.slug (provider_row c now n t.next_provider key)
              (create_provider c s now n t kek (some nonce)).0 n.api_key
              (create-IsWellFormed c s now t w kek (some nonce) n) built
              (ap (λ ps. find_slug n.slug ps)
                  (ap (λ a. a.0.providers) made.effect
                    ∙ write_audit-providers c s.audits now _ _ _ _ made.rows)
                ∙ insert_row-find (cleared n.is_default t) made.rows
                    (provider_row c now n t.next_provider key) made.inserted)
              refl (decrypt-encrypt c.aead sealed nonce n.api_key kek key twelve e)
      ]

  -- After a deletion that succeeds and a reload that does, no request is routed to the provider by
  -- its slug, and every other slug is answered as by a snapshot of the tables before.
  pub delete_provider-unserved :
      (slug : Text) (users : List User) (before : ProviderTable)
      → (delete_provider c s now slug users t).1 ≡ none
      → build_provider_table c kek order true t ≡ ok before
      → build_provider_table c kek order true (delete_provider c s now slug users t).0 ≡ ok table
      → (get_provider_by_slug table slug ≡ none)
        × ((other : Text)
            → text_eq other slug ≡ false
            → get_provider_by_slug table other ≡ get_provider_by_slug before other)
  unfolding get_provider_by_slug
  delete_provider-unserved slug users before done b a = (
    rw (gone, get_provider_by_slug) refl,
    λ other e. rw (kept other e, get_provider_by_slug) refl,
  )
    where
      after : IsSnapshot c kek (delete_provider c s now slug users t).0 table
      after =
          build_provider_table-refines order law c kek (delete_provider c s now slug users t).0
            table (delete-IsWellFormed c s now t w slug users) a

      rows :
          (other : Text)
          → find_slug other (delete_provider c s now slug users t).0.providers
            ≡ (if text_eq other slug then none else find_slug other t.providers)
      rows = (delete_provider-IsSafe slug users t c s now w done).rows

      gone : lookup text_eq slug table.providers ≡ none
      gone = after.providers slug ∙ rw (rows slug, text_eq_refl slug) refl

      kept :
          (other : Text)
          → text_eq other slug ≡ false
          → lookup text_eq other table.providers ≡ lookup text_eq other before.providers
      kept other e =
          after.providers other
          ∙ rw (rows other, e) refl
          ∙ sym ((build_provider_table-refines order law c kek t before w b).providers other)

  -- The default of a snapshot with an entry is an entry, whatever the order of a later range.
  pub build_provider_table-default :
      (again : List (Text × ProviderEntry) → List (Text × ProviderEntry))
      → build_provider_table c kek order true t ≡ ok table
      → table.providers ≢ []
      → (e : ProviderEntry) × (lookup text_eq table.default table.providers ≡ some e)
        × (default_provider again table ≡ ok (provider_of e))
  unfolding default_provider
  build_provider_table-default again b f =
      let (e, h) = (build_provider_table-refines order law c kek t table w b).default f in
      (e, h, by_list e table.providers refl h)
    where
      by_list :
          (e : ProviderEntry) (ps : List (Text × ProviderEntry))
          → table.providers ≡ ps
          → lookup text_eq table.default table.providers ≡ some e
          → default_provider again table ≡ ok (provider_of e)
      by_list e [] q h = absurd (f q)
      by_list e (p ∷ ps) q h = rw (q, default_provider, h) refl

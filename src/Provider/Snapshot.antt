-- ===== src/Provider/Snapshot.antt =====
-- What internal/provider/store.go reads with the keys decrypted: BuildProviderTable, DecryptKey,
-- MaskProviderKey, BuildMaskedProviders and parseExtraHeaders; Reload and NewRouter of
-- internal/router/selector.go.
use shimiaocheng_llm.Prelude.{
  Bool, not, List, [], ◌∷◌, Option, none, some, Text, text, text_eq, if◌then◌else◌, keep, lookup,
  Result, ok, err,
}
use shimiaocheng_llm.Security.{decrypt, mask_key}
use shimiaocheng_llm.Router.{ProviderEntry, ProviderTable}
use shimiaocheng_llm.Provider.{
  ProviderRecord, ModelMappingRecord, Tables, Codec, StoreError, crypto, no_row, read_failed,
  find_slug, list_providers,
}

-- `parseExtraHeaders`.
unfoldable pub parse_extra_headers : Codec → Text → List (Text × Text)
parse_extra_headers c [] = []
parse_extra_headers c (x ∷ s) = elim (c.unmarshal_headers (x ∷ s)) [ none ↦ [] | some h ↦ h ]

-- `m[k] = v`.
unfoldable pub assign {ℓ} : {V : Type ℓ} → Text → V → List (Text × V) → List (Text × V)
assign k v [] = (k, v) ∷ []
assign k v ((j, w) ∷ m) =
    let rest = assign k v m in if text_eq j k then (k, v) ∷ m else (j, w) ∷ rest

abbrev pub entry_of : Codec → ProviderRecord → Text → ProviderEntry
entry_of c p key = record {
  slug = p.slug;
  endpoint = p.endpoint;
  api_key = key;
  allow_passthrough = p.allow_passthrough;
  auth_header = p.auth_header;
  auth_scheme = p.auth_scheme;
  extra_headers = parse_extra_headers c p.extra_headers;
}

-- One row of the query: the entry, and the default where the row is marked.
abbrev pub add_row : Codec → ProviderRecord → Text → ProviderTable → ProviderTable
add_row c p key table = record table {
  providers = assign p.slug (entry_of c p key) table.providers;
  default = if p.is_default then p.slug else table.default;
}

-- The loop over the rows that are enabled; it stops at a key that does not decrypt.
unfoldable pub load_providers :
    Codec → (kek : Text) → List ProviderRecord → ProviderTable → Result StoreError ProviderTable
load_providers c kek [] table = ok table
load_providers c kek (p ∷ ps) table = elim (decrypt c.aead p.encrypted_key kek) [
  | err e ↦ err (crypto e)
  | ok key ↦ load_providers c kek ps (add_row c p key table)
]

abbrev pub or_empty : Option (List (Text × Text)) → List (Text × Text)
or_empty none = []
or_empty (some models) = models

-- The loop over the mappings: the inner map is made where it is missing.
abbrev pub add_mapping :
    List (Text × List (Text × Text)) → ModelMappingRecord → List (Text × List (Text × Text))
add_mapping ms m =
    assign m.external (assign m.provider_id m.real_model (or_empty (lookup text_eq m.external ms)))
      ms

unfoldable pub load_mappings :
    List ModelMappingRecord → List (Text × List (Text × Text)) → List (Text × List (Text × Text))
unfolding assign
load_mappings [] ms = ms
load_mappings (m ∷ rest) ms = load_mappings rest (add_mapping ms m)

-- The first slug of a range over the map.
abbrev pub first_slug : List (Text × ProviderEntry) → Text
first_slug [] = []
first_slug ((slug, e) ∷ es) = slug

-- The default, where no row was marked.
unfoldable pub choose_default :
    (List (Text × ProviderEntry) → List (Text × ProviderEntry)) → ProviderTable → ProviderTable
choose_default order table = elim table.default [
  | [] ↦ record table { default = first_slug (order table.providers) }
  | _ ∷ _ ↦ table
]

abbrev pub empty_table : ProviderTable
empty_table = record { providers = []; mappings = []; rules = []; default = [] }

-- The default, the mappings and the rules, once the providers are loaded.
unfoldable pub finish_table :
    (List (Text × ProviderEntry) → List (Text × ProviderEntry))
    → Tables
    → Result StoreError ProviderTable
    → Result StoreError ProviderTable
unfolding choose_default load_mappings
finish_table order t (err e) = err e
finish_table order t (ok table) = ok (record (choose_default order table) {
  mappings = load_mappings t.mappings [];
  rules = t.rules;
})

-- `BuildProviderTable`.
unfoldable pub build_provider_table :
    Codec
    → (kek : Text) → (List (Text × ProviderEntry) → List (Text × ProviderEntry))
    → (reads : Bool) → Tables
    → Result StoreError ProviderTable
unfolding load_providers finish_table
build_provider_table c kek order reads t =
    if not reads
    then err read_failed
    else finish_table order t (load_providers c kek (keep (λ p. p.enabled) t.providers) empty_table)

-- `DecryptKey`.
unfoldable pub decrypt_key : Codec → (kek : Text) → Bool → Text → Tables → Result StoreError Text
unfolding find_slug
decrypt_key c kek reads slug t =
    if not reads then err read_failed else elim (find_slug slug t.providers) [
      | none ↦ err no_row
      | some p ↦ elim (decrypt c.aead p.encrypted_key kek) [ err e ↦ err (crypto e) | ok k ↦ ok k ]
    ]

-- `MaskProviderKey`.
unfoldable pub mask_provider_key :
    Codec → (kek : Text) → Bool → Text → Tables → Result StoreError Text
unfolding decrypt_key
mask_provider_key c kek reads slug t = elim (decrypt_key c kek reads slug t) [
  | err e ↦ err e
  | ok k ↦ ok (mask_key k)
]

-- The masked key in the panel's list.
unfoldable pub shown_key : Codec → (kek : Text) → ProviderRecord → Text
shown_key c kek p = elim p.encrypted_key [
  | [] ↦ text "****"
  | x ∷ xs ↦ elim (decrypt c.aead (x ∷ xs) kek) [ err e ↦ text "****" | ok k ↦ mask_key k ]
]

-- `models.ProviderWithMaskedKey`: the record without its key, and the masked key.
pub record ProviderWithMaskedKey : Type 0 where
  pub shown : ProviderRecord
  pub masked_key : Text

unfoldable pub masked_rows : Codec → (kek : Text) → List ProviderRecord → List ProviderWithMaskedKey
unfolding shown_key
masked_rows c kek [] = []
masked_rows c kek (p ∷ ps) =
    record { shown = record p { encrypted_key = [] }; masked_key = shown_key c kek p }
    ∷ masked_rows c kek ps

-- `BuildMaskedProviders`.
unfoldable pub build_masked_providers :
    Codec → (kek : Text) → Bool → Tables → Result StoreError (List ProviderWithMaskedKey)
unfolding masked_rows list_providers
build_masked_providers c kek reads t = elim (list_providers reads t) [
  | err e ↦ err e
  | ok ps ↦ ok (masked_rows c kek ps)
]

-- `Reload`: the snapshot afterwards, and the error.
unfoldable pub reload :
    Result StoreError ProviderTable → ProviderTable → ProviderTable × Option StoreError
reload (ok table) old = (table, none)
reload (err e) old = (old, some e)

-- `NewRouter` with a database.
unfoldable pub new_router : Result StoreError ProviderTable → ProviderTable
new_router (ok table) = table
new_router (err e) = empty_table

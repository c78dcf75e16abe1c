-- ===== src/Provider/Create.antt =====
-- CreateProvider of internal/provider/store.go.
use shimiaocheng_llm.Prelude.{
  ℕ, ◌+◌, Bool, true, not, ◌&&◌, List, [], ◌∷◌, ◌++◌, Option, none, some, Text, text, if◌then◌else◌,
  ℤ, or_default, Result, ok, err,
}
use shimiaocheng_llm.Float64.{Float64}
use shimiaocheng_llm.GoTime.{Time}
use shimiaocheng_llm.Security.{encrypt}
use shimiaocheng_llm.Provider.{
  ProviderRecord, Tables, Codec, Steps, StoreError, crypto, begin_failed, clear_failed,
  insert_failed, commit_failed, find_slug, write_audit, clear_defaults,
}

-- The arguments of CreateProvider.
pub record NewProvider : Type 0 where
  pub name : Text
  pub slug : Text
  pub endpoint : Text
  pub api_key : Text
  pub is_default : Bool
  pub allow_passthrough : Bool
  pub auth_header : Text
  pub auth_scheme : Text
  pub extra_headers : Option (List (Text × Text))
  pub monthly_token_limit : ℤ
  pub monthly_call_limit : ℤ
  pub monthly_token_low_ratio : Float64
  pub monthly_call_low_ratio : Float64
  pub cycle_start_date : Text

-- The row that is inserted.
abbrev pub provider_row : Codec → Time → NewProvider → ℕ → Text → ProviderRecord
provider_row c now n id key = record {
  id = id;
  name = n.name;
  slug = n.slug;
  endpoint = n.endpoint;
  encrypted_key = key;
  is_default = n.is_default;
  enabled = true;
  allow_passthrough = n.allow_passthrough;
  auth_header = or_default n.auth_header (text "Authorization");
  auth_scheme = or_default n.auth_scheme (text "bearer");
  extra_headers = c.marshal_headers n.extra_headers;
  monthly_token_limit = n.monthly_token_limit;
  monthly_call_limit = n.monthly_call_limit;
  monthly_token_low_ratio = n.monthly_token_low_ratio;
  monthly_call_low_ratio = n.monthly_call_low_ratio;
  cycle_start_date = or_default n.cycle_start_date (c.shanghai_date now);
  created_at = c.layout.format now;
  updated_at = c.layout.format now;
}

-- `INSERT INTO providers`: `slug` is UNIQUE.
unfoldable pub insert_row : Tables → ProviderRecord → Option Tables
unfolding find_slug
insert_row t p = elim (find_slug p.slug t.providers) [
  | some q ↦ none
  | none ↦
      some (record t { providers = t.providers ++ p ∷ []; next_provider = t.next_provider + 1 })
]

abbrev print_bool : Bool → Text
print_bool b = if b then text "true" else text "false"

-- The detail in the audit log of a provider that is created.
abbrev pub create_detail : NewProvider → Text
create_detail n =
    text "{\"name\":\""
    ++ n.name
    ++ text "\",\"slug\":\""
    ++ n.slug
    ++ text "\",\"endpoint\":\""
    ++ n.endpoint
    ++ text "\",\"is_default\":"
    ++ print_bool n.is_default
    ++ text ",\"allow_passthrough\":"
    ++ print_bool n.allow_passthrough
    ++ text ",\"auth_scheme\":\""
    ++ or_default n.auth_scheme (text "bearer")
    ++ text "\"}"

-- The rows after the defaults have been cleared, if the provider is to be the default.
abbrev pub cleared : Bool → Tables → Tables
cleared is_default t = if is_default then record t { providers = clear_defaults t.providers } else t

module _ (c : Codec) (s : Steps) (now : Time) (n : NewProvider) (t : Tables) where
  -- The end of the transaction, after the INSERT.
  unfoldable pub commit_row :
      ProviderRecord → Option Tables → Tables × Result StoreError ProviderRecord
  commit_row row none = (t, err insert_failed)
  commit_row row (some t') =
      if s.commits
      then (
        write_audit c s.audits now (text "provider.create") (text "provider") n.slug
            (create_detail n) t',
        ok (record row { encrypted_key = [] }),
      )
      else (t, err commit_failed)

  -- The transaction, with the encrypted key.
  unfoldable pub store_row : Text → Tables × Result StoreError ProviderRecord
  unfolding insert_row commit_row
  store_row key =
      let row = provider_row c now n t.next_provider key in
      if not s.begins
      then (t, err begin_failed)
      else if n.is_default && not s.clears
      then (t, err clear_failed)
      else commit_row row (if s.writes then insert_row (cleared n.is_default t) row else none)

  -- `CreateProvider`; the row that it returns has no key. A transaction that fails leaves the tables.
  unfoldable pub create_provider :
      (kek : Text) → Option Text → Tables × Result StoreError ProviderRecord
  unfolding store_row
  create_provider kek random = elim (encrypt c.aead random n.api_key kek) [
    | err e ↦ (t, err (crypto e))
    | ok key ↦ store_row key
  ]

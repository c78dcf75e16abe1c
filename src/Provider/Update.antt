-- ===== src/Provider/Update.antt =====
-- UpdateProvider of internal/provider/store.go.
use shimiaocheng_llm.Prelude.{
  Bool, false, not, ◌&&◌, List, [], ◌∷◌, Option, none, some, Text, text, text_eq, if◌then◌else◌, ℤ,
  Result, ok, err,
}
use shimiaocheng_llm.Float64.{Float64}
use shimiaocheng_llm.GoTime.{Time}
use shimiaocheng_llm.Security.{encrypt}
use shimiaocheng_llm.Provider.{
  ProviderRecord, Tables, Codec, Steps, StoreError, crypto, begin_failed, clear_failed,
  update_failed, commit_failed, get_provider, write_audit,
}
use shimiaocheng_llm.Provider.Create.{cleared}

-- The keys of UpdateProvider's map, with values of the types that the panel gives them.
pub record ProviderUpdates : Type 0 where
  pub name : Option Text
  pub endpoint : Option Text
  pub encrypted_key : Option Text
  pub is_default : Option Bool
  pub enabled : Option Bool
  pub allow_passthrough : Option Bool
  pub auth_header : Option Text
  pub auth_scheme : Option Text
  pub extra_headers : Option (Option (List (Text × Text)))
  pub monthly_token_limit : Option ℤ
  pub monthly_call_limit : Option ℤ
  pub monthly_token_low_ratio : Option Float64
  pub monthly_call_low_ratio : Option Float64
  pub cycle_start_date : Option Text

-- A column that is set where the map has its key.
abbrev pub set_or {ℓ} : {A : Type ℓ} → Option A → A → A
set_or none old = old
set_or (some new) old = new

-- The key column: a new key that is not empty is encrypted, an empty one is dropped.
unfoldable pub new_key :
    Codec → (kek : Text) → Option Text → Option Text → Result StoreError (Option Text)
new_key c kek random none = ok none
new_key c kek random (some []) = ok none
new_key c kek random (some (k ∷ ks)) = elim (encrypt c.aead random (k ∷ ks) kek) [
  | err e ↦ err (crypto e)
  | ok key ↦ ok (some key)
]

-- The columns that the UPDATE sets in a row.
abbrev pub apply_updates :
    Codec → Time → ProviderUpdates → Option Text → ProviderRecord → ProviderRecord
apply_updates c now u key p = record p {
  name = set_or u.name p.name;
  endpoint = set_or u.endpoint p.endpoint;
  encrypted_key = set_or key p.encrypted_key;
  is_default = set_or u.is_default p.is_default;
  enabled = set_or u.enabled p.enabled;
  allow_passthrough = set_or u.allow_passthrough p.allow_passthrough;
  auth_header = set_or u.auth_header p.auth_header;
  auth_scheme = set_or u.auth_scheme p.auth_scheme;
  extra_headers = elim u.extra_headers [ none ↦ p.extra_headers | some h ↦ c.marshal_headers h ];
  monthly_token_limit = set_or u.monthly_token_limit p.monthly_token_limit;
  monthly_call_limit = set_or u.monthly_call_limit p.monthly_call_limit;
  monthly_token_low_ratio = set_or u.monthly_token_low_ratio p.monthly_token_low_ratio;
  monthly_call_low_ratio = set_or u.monthly_call_low_ratio p.monthly_call_low_ratio;
  cycle_start_date = set_or u.cycle_start_date p.cycle_start_date;
  updated_at = c.layout.format now;
}

-- `UPDATE providers SET … WHERE slug = ?`.
unfoldable pub update_slug :
    (ProviderRecord → ProviderRecord) → Text → List ProviderRecord → List ProviderRecord
update_slug f slug [] = []
update_slug f slug (p ∷ ps) = (if text_eq p.slug slug then f p else p) ∷ update_slug f slug ps

module _ (c : Codec) (s : Steps) (now : Time) (printed slug : Text) (u : ProviderUpdates)
    (t : Tables) where
  -- The rows after the UPDATE, with the audit log's.
  abbrev pub updated : Option Text → Tables
  updated key =
      let rows = (cleared (set_or u.is_default false) t).providers in
      write_audit c s.audits now (text "provider.update") (text "provider") slug printed
        (record t { providers = update_slug (apply_updates c now u key) slug rows })

  -- The statements after the key has been encrypted.
  unfoldable pub store_update :
      Result StoreError (Option Text) → Tables × Result StoreError (Option ProviderRecord)
  unfolding update_slug
  store_update (err e) = (t, err e)
  store_update (ok key) =
      if not s.writes
      then (t, err update_failed)
      else if not s.commits
      then (t, err commit_failed)
      else (updated key, get_provider s.reads slug (updated key))

  -- `UpdateProvider`; `printed` is the map as fmt prints it.
  unfoldable pub update_provider :
      (kek : Text) → Option Text → Tables × Result StoreError (Option ProviderRecord)
  unfolding store_update new_key
  update_provider kek random =
      if not s.begins
      then (t, err begin_failed)
      else if set_or u.is_default false && not s.clears
      then (t, err clear_failed)
      else store_update (new_key c kek random u.encrypted_key)

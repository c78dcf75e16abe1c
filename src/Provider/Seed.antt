-- ===== src/Provider/Seed.antt =====
-- SeedFromConfig of internal/provider/store.go, on the types of internal/config/config.go.
use shimiaocheng_llm.Prelude.{
  ℕ, Bool, List, [], ◌∷◌, Option, none, some, Text, if◌then◌else◌, pos, ok, err,
}
use shimiaocheng_llm.GoTime.{Time}
use shimiaocheng_llm.Security.{encrypt}
use shimiaocheng_llm.Provider.{
  ProviderRecord, Tables, Codec, StoreError, crypto, insert_failed, read_failed,
}
use shimiaocheng_llm.Provider.Create.{provider_row, insert_row}
use shimiaocheng_llm.Provider.Rules.{mapping_row, insert_mapping}

pub record ProviderConfig : Type 0 where
  pub id : Text
  pub endpoint : Text
  pub api_key_env : Text
  pub is_default : Bool
  pub allow_passthrough : Bool
  pub auth_header : Text
  pub auth_scheme : Text
  pub extra_headers : Option (List (Text × Text))

-- `per_provider` in the order in which the map is ranged over.
pub record ModelMapping : Type 0 where
  pub external : Text
  pub per_provider : List (Text × Text)

-- The sections of the configuration that are seeded.
pub record Config : Type 0 where
  pub providers : List ProviderConfig
  pub model_mappings : List ModelMapping

-- What a run meets: the environment's variables, and by slug the nonce and whether the INSERT is
-- executed, that of a mapping by its external name and slug.
pub record SeedRun : Type 0 where
  pub getenv : Text → Text
  pub random : Text → Option Text
  pub writes : Text → Bool
  pub writes_mapping : Text → Text → Bool
  pub reads : Bool

-- The environment's key of a provider; it is blank where no variable is named.
abbrev pub env_key : SeedRun → ProviderConfig → Text
env_key r p = elim p.api_key_env [ [] ↦ [] | x ∷ xs ↦ r.getenv (x ∷ xs) ]

-- The row of a provider of the configuration: the columns that CreateProvider would give it, with
-- the id for a name and no limits.
abbrev pub seed_row : Codec → Time → ProviderConfig → ℕ → Text → ProviderRecord
seed_row c now p n key =
    provider_row c now
      (record {
        name = p.id;
        slug = p.id;
        endpoint = p.endpoint;
        api_key = [];
        is_default = p.is_default;
        allow_passthrough = p.allow_passthrough;
        auth_header = p.auth_header;
        auth_scheme = p.auth_scheme;
        extra_headers = p.extra_headers;
        monthly_token_limit = pos 0;
        monthly_call_limit = pos 0;
        monthly_token_low_ratio = record { mantissa = 0; shift = 0 };
        monthly_call_low_ratio = record { mantissa = 0; shift = 0 };
        cycle_start_date = c.shanghai_date now;
      })
      n key

-- The loop over the providers; it stops at the first error, and the rows before it stay.
unfoldable pub seed_providers :
    Codec
    → (kek : Text) → SeedRun
    → Time
    → List ProviderConfig
    → Tables
    → Tables × Option StoreError
seed_providers c kek r now [] t = (t, none)
seed_providers c kek r now (p ∷ ps) t = elim (encrypt c.aead (r.random p.id) (env_key r p) kek) [
  | err e ↦ (t, some (crypto e))
  | ok key ↦
      elim (if r.writes p.id then insert_row t (seed_row c now p t.next_provider key) else none) [
        | none ↦ (t, some insert_failed)
        | some t' ↦ seed_providers c kek r now ps t'
      ]
]

-- One mapping, whose error is only logged.
unfoldable pub seed_mapping : Codec → SeedRun → Time → Text → (Text × Text) → Tables → Tables
seed_mapping c r now external (provider, model) t =
    elim (if r.writes_mapping external provider
      then insert_mapping t (mapping_row c now t.next_mapping external provider model)
      else none) [ none ↦ t | some t' ↦ t' ]

unfoldable pub seed_models : Codec → SeedRun → Time → Text → List (Text × Text) → Tables → Tables
unfolding seed_mapping
seed_models c r now external [] t = t
seed_models c r now external (m ∷ ms) t =
    seed_models c r now external ms (seed_mapping c r now external m t)

unfoldable pub seed_mappings : Codec → SeedRun → Time → List ModelMapping → Tables → Tables
unfolding seed_models
seed_mappings c r now [] t = t
seed_mappings c r now (m ∷ ms) t =
    seed_mappings c r now ms (seed_models c r now m.external m.per_provider t)

-- The mappings follow where every provider was inserted.
unfoldable pub then_mappings :
    Codec
    → SeedRun
    → Time
    → List ModelMapping
    → Tables × Option StoreError
    → Tables × Option StoreError
unfolding seed_mappings
then_mappings c r now ms (t, some e) = (t, some e)
then_mappings c r now ms (t, none) = (seed_mappings c r now ms t, none)

-- The seed, with the rows that the table has already.
unfoldable pub seed_rows :
    Codec
    → (kek : Text) → SeedRun
    → Time
    → Config
    → Tables
    → List ProviderRecord
    → Tables × Option StoreError
unfolding seed_providers then_mappings
seed_rows c kek r now cfg t (p ∷ ps) = (t, none)
seed_rows c kek r now cfg t [] =
    then_mappings c r now cfg.model_mappings (seed_providers c kek r now cfg.providers t)

-- `SeedFromConfig`.
unfoldable pub seed_from_config :
    Codec → (kek : Text) → SeedRun → Time → Config → Tables → Tables × Option StoreError
unfolding seed_rows
seed_from_config c kek r now cfg t =
    if r.reads then seed_rows c kek r now cfg t t.providers else (t, some read_failed)

-- ===== src/Examples/Stores.antt =====
-- Providers: a sealed key, and tables with one provider and with two.
use shimiaocheng_llm.Prelude.{
  ◌≡◌, refl, true, false, List, [], ◌∷◌, ◌++◌, none, some, Text, text, text_eq, arith, drop, pos,
  ok,
}
use shimiaocheng_llm.GoTime.{Time}
use shimiaocheng_llm.Security.{Aead, IsAead, encrypt, decrypt}
use shimiaocheng_llm.Security.Sealed.{decrypt-encrypt}
use shimiaocheng_llm.Router.{ProviderEntry, ProviderTable, get_provider_by_slug, provider_of, ok}
use shimiaocheng_llm.Provider.{
  ProviderRecord, Tables, Codec, Steps, find_slug, write_audit, clear_defaults,
}
use shimiaocheng_llm.Provider.Create.{
  NewProvider, provider_row, create_provider, store_row, commit_row, insert_row,
}
use shimiaocheng_llm.Provider.Delete.{
  delete_provider, reference_error, users_by_fixed_provider, user_error,
}
use shimiaocheng_llm.Provider.Snapshot.{
  build_provider_table, load_providers, finish_table, choose_default, load_mappings, assign,
  parse_extra_headers,
}
use shimiaocheng_llm.Provider.Seed.{Config, SeedRun, seed_from_config}
use shimiaocheng_llm.Provider.Invariant.{IsWellFormed}
use shimiaocheng_llm.Provider.Reachable.{
  Operation, create, map_model, delete, run, run-IsWellFormed,
}
use shimiaocheng_llm.Provider.Deletion.{IsSafe, delete_provider-IsSafe}
use shimiaocheng_llm.Provider.Refinement.{IsOrder, IsSnapshot, build_provider_table-refines}
use shimiaocheng_llm.Provider.Serving.{create_provider-serves, delete_provider-unserved}
use shimiaocheng_llm.Provider.Availability.{run_loads}
use shimiaocheng_llm.Provider.Seeding.{seed_from_config-IsWellFormed}
use shimiaocheng_llm.Examples.Data.{layout, now}

abbrev tag : Text
tag = 0 ∷ 0 ∷ 0 ∷ 0 ∷ 0 ∷ 0 ∷ 0 ∷ 0 ∷ 0 ∷ 0 ∷ 0 ∷ 0 ∷ 0 ∷ 0 ∷ 0 ∷ 0 ∷ []

-- A cipher that only adds the tag, before the plaintext.
abbrev aead : Aead
aead = record {
  seal = λ key nonce plain. tag ++ plain;
  unseal = λ key nonce sealed. some (drop 16 sealed);
}

aead-IsAead : IsAead aead
aead-IsAead = record {
  unseal_seal = λ key nonce plain. refl;
  seal_length = λ key nonce plain. omega arith;
}

abbrev nonce : Text
nonce = text "0123456789ab"

abbrev kek : Text
kek = text "0123456789abcdef0123456789abcdef"

key_sealed : encrypt aead (some nonce) (text "sk-live") kek ≡ ok (nonce ++ (tag ++ text "sk-live"))
unfolding encrypt
key_sealed = refl

decrypt-encrypt_example : decrypt aead (nonce ++ (tag ++ text "sk-live")) kek ≡ ok (text "sk-live")
decrypt-encrypt_example =
    decrypt-encrypt aead aead-IsAead nonce (text "sk-live") kek (nonce ++ (tag ++ text "sk-live"))
      refl key_sealed

abbrev codec : Codec
codec = record {
  layout = layout;
  shanghai_date = λ t. text "2026-03-04";
  aead = aead;
  marshal_headers = λ h. text "{}";
  unmarshal_headers = λ t. some [];
  decimal = λ n. n ∷ [];
}

abbrev all_execute : Steps
all_execute = record {
  reads = true;
  begins = true;
  clears = true;
  writes = true;
  commits = true;
  audits = true;
}

abbrev no_tables : Tables
no_tables = record {
  providers = [];
  mappings = [];
  rules = [];
  audit_logs = [];
  next_provider = 1;
  next_mapping = 1;
  next_rule = 1;
  next_audit = 1;
}

no_tables-IsWellFormed : IsWellFormed no_tables
no_tables-IsWellFormed = record {
  slugs = tt;
  one_default = omega arith;
  pairs = tt;
  references = tt;
  provider_ids = omega arith;
  mapping_ids = omega arith;
  rule_ids = omega arith;
  audit_ids = omega arith;
}

abbrev new : NewProvider
new = record {
  name = text "Z";
  slug = text "z";
  endpoint = text "https://z.example";
  api_key = text "sk-live";
  is_default = true;
  allow_passthrough = true;
  auth_header = [];
  auth_scheme = [];
  extra_headers = none;
  monthly_token_limit = pos 0;
  monthly_call_limit = pos 0;
  monthly_token_low_ratio = record { mantissa = 0; shift = 0 };
  monthly_call_low_ratio = record { mantissa = 0; shift = 0 };
  cycle_start_date = [];
}

-- Two providers are created, a model is mapped, and the second provider is deleted.
abbrev operations : List (Operation × Steps × Time)
operations =
    (create kek (some nonce) new, all_execute, now)
    ∷ (create kek (some nonce) (record new { slug = text "y" }), all_execute, now)
    ∷ (map_model (text "glm") (text "z") (text "glm-5"), all_execute, now)
    ∷ (delete (text "y") [], all_execute, now)
    ∷ []

run-IsWellFormed_example : IsWellFormed (run codec operations no_tables)
run-IsWellFormed_example = run-IsWellFormed codec operations no_tables no_tables-IsWellFormed

abbrev row : ProviderRecord
row = provider_row codec now new 1 (nonce ++ (tag ++ text "sk-live"))

abbrev second_row : ProviderRecord
second_row = record row { id = 2; slug = text "y"; is_default = false }

abbrev two_providers : Tables
two_providers = record no_tables { providers = row ∷ second_row ∷ []; next_provider = 3 }

two_providers-IsWellFormed : IsWellFormed two_providers
unfolding text_eq
two_providers-IsWellFormed = record {
  slugs = (refl, (refl, tt));
  one_default = omega arith;
  pairs = tt;
  references = tt;
  provider_ids = (omega arith, (omega arith, omega arith));
  mapping_ids = omega arith;
  rule_ids = omega arith;
  audit_ids = omega arith;
}

abbrev same_order : List (Text × ProviderEntry) → List (Text × ProviderEntry)
same_order m = m

same_order-IsOrder : IsOrder same_order
same_order-IsOrder = record { meets = λ m e i. i; filled = λ m h. h }

abbrev entry : ProviderEntry
entry = record {
  slug = text "z";
  endpoint = text "https://z.example";
  api_key = text "sk-live";
  allow_passthrough = true;
  auth_header = text "Authorization";
  auth_scheme = text "bearer";
  extra_headers = [];
}

abbrev two_entries : ProviderTable
two_entries = record {
  providers = (text "z", entry) ∷ (text "y", record entry { slug = text "y" }) ∷ [];
  mappings = [];
  rules = [];
  default = text "z";
}

abbrev one_entry : ProviderTable
one_entry = record two_entries { providers = (text "z", entry) ∷ [] }

two_built : build_provider_table codec kek same_order true two_providers ≡ ok two_entries
unfolding build_provider_table load_providers finish_table choose_default load_mappings assign
    decrypt parse_extra_headers text_eq
two_built = refl

build_provider_table-refines_example : IsSnapshot codec kek two_providers two_entries
build_provider_table-refines_example =
    build_provider_table-refines same_order same_order-IsOrder codec kek two_providers two_entries
      two_providers-IsWellFormed two_built

one_deleted : (delete_provider codec all_execute now (text "y") [] two_providers).1 ≡ none
unfolding delete_provider reference_error users_by_fixed_provider user_error text_eq
one_deleted = refl

delete_provider-IsSafe_example :
    IsSafe
      (text "y")
      []
      two_providers
      (delete_provider codec all_execute now (text "y") [] two_providers).0
delete_provider-IsSafe_example =
    delete_provider-IsSafe (text "y") [] two_providers codec all_execute now
      two_providers-IsWellFormed one_deleted

one_built :
    build_provider_table codec kek same_order true
      (delete_provider codec all_execute now (text "y") [] two_providers).0
    ≡ ok one_entry
unfolding build_provider_table load_providers finish_table choose_default load_mappings assign
    decrypt parse_extra_headers text_eq delete_provider reference_error users_by_fixed_provider
    user_error write_audit
one_built = refl

delete_provider-unserved_example :
    (get_provider_by_slug one_entry (text "y") ≡ none)
    × ((other : Text)
        → text_eq other (text "y") ≡ false
        → get_provider_by_slug one_entry other ≡ get_provider_by_slug two_entries other)
delete_provider-unserved_example =
    delete_provider-unserved codec kek same_order same_order-IsOrder all_execute now two_providers
      one_entry two_providers-IsWellFormed (text "y") [] two_entries one_deleted two_built one_built

one_created :
    (create_provider codec all_execute now new no_tables kek (some nonce)).1
    ≡ ok (record row { encrypted_key = [] })
unfolding create_provider store_row commit_row insert_row clear_defaults encrypt text_eq find_slug
one_created = refl

created_built :
    build_provider_table codec kek same_order true
      (create_provider codec all_execute now new no_tables kek (some nonce)).0
    ≡ ok one_entry
unfolding build_provider_table load_providers finish_table choose_default load_mappings assign
    decrypt parse_extra_headers text_eq create_provider store_row commit_row insert_row
    clear_defaults encrypt write_audit find_slug
created_built = refl

create_provider-serves_example :
    get_provider_by_slug one_entry (text "z") ≡ some (provider_of entry)
unfolding provider_of parse_extra_headers
create_provider-serves_example =
    create_provider-serves codec kek same_order same_order-IsOrder all_execute now no_tables
      one_entry no_tables-IsWellFormed aead-IsAead nonce refl new
      (record row { encrypted_key = [] }) one_created created_built

abbrev config : Config
config = record {
  providers =
      record {
        id = text "z";
        endpoint = text "https://z.example";
        api_key_env = text "Z_KEY";
        is_default = true;
        allow_passthrough = false;
        auth_header = [];
        auth_scheme = [];
        extra_headers = none;
      }
      ∷ [];
  model_mappings =
      record { external = text "glm"; per_provider = (text "z", text "glm-5") ∷ [] } ∷ [];
}

abbrev seed_run : SeedRun
seed_run = record {
  getenv = λ name. text "sk-live";
  random = λ slug. some nonce;
  writes = λ slug. true;
  writes_mapping = λ external slug. true;
  reads = true;
}

seed_from_config-IsWellFormed_example :
    IsWellFormed (seed_from_config codec kek seed_run now config no_tables).0
seed_from_config-IsWellFormed_example =
    seed_from_config-IsWellFormed codec kek seed_run now config no_tables (omega arith)
      no_tables-IsWellFormed

run_loads_example :
    (table : ProviderTable) × (build_provider_table codec kek same_order true
        (run codec operations no_tables)
      ≡ ok table)
run_loads_example =
    run_loads codec kek aead-IsAead same_order operations no_tables
      ((refl, refl), ((refl, refl), (tt, (tt, tt)))) tt

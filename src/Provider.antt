-- ===== src/Provider.antt =====
-- internal/provider/store.go and the records of internal/models/provider.go: the tables of providers,
-- model mappings, routing rules and audit logs. A table is its rows in the order of their ids, with
-- the next id that AUTOINCREMENT gives. Each operation takes a record of flags that says which of its
-- statements the database executes.
pub mod Create
pub mod Update
pub mod Delete
pub mod Rules
pub mod Snapshot
pub mod Seed
pub mod Rows
pub mod Outcomes
pub mod Invariant
pub mod Preservation
pub mod RulePreservation
pub mod Reachable
pub mod Deletion
pub mod Maps
pub mod Loading
pub mod Refinement
pub mod Sealing
pub mod Availability
pub mod Serving
pub mod Seeding
pub mod Audit
use shimiaocheng_llm.Prelude.{
  ℕ, ◌+◌, Bool, true, false, not, ◌&&◌, List, [], ◌∷◌, ◌++◌, Option, none, some, Text, text,
  text_eq, ltb, ◌==◌, if◌then◌else◌, ℤ, map, keep, any, Result, ok, err,
}
use shimiaocheng_llm.Float64.{Float64}
use shimiaocheng_llm.GoTime.{Time, Layout}
use shimiaocheng_llm.Router.{RoutingRule}
use shimiaocheng_llm.Security.{Aead, CryptoError}

pub record ProviderRecord : Type 0 where
  pub id : ℕ
  pub name : Text
  pub slug : Text
  pub endpoint : Text
  pub encrypted_key : Text
  pub is_default : Bool
  pub enabled : Bool
  pub allow_passthrough : Bool
  pub auth_header : Text
  pub auth_scheme : Text
  pub extra_headers : Text
  pub monthly_token_limit : ℤ
  pub monthly_call_limit : ℤ
  pub monthly_token_low_ratio : Float64
  pub monthly_call_low_ratio : Float64
  pub cycle_start_date : Text
  pub created_at : Text
  pub updated_at : Text

pub record ModelMappingRecord : Type 0 where
  pub id : ℕ
  pub external : Text
  pub provider_id : Text
  pub real_model : Text
  pub created_at : Text

pub record AuditLogRecord : Type 0 where
  pub id : ℕ
  pub action : Text
  pub target_type : Text
  pub target_id : Text
  pub detail : Text
  pub created_at : Text

pub record Tables : Type 0 where
  pub providers : List ProviderRecord
  pub mappings : List ModelMappingRecord
  pub rules : List RoutingRule
  pub audit_logs : List AuditLogRecord
  pub next_provider : ℕ
  pub next_mapping : ℕ
  pub next_rule : ℕ
  pub next_audit : ℕ

-- What the store uses of the libraries: time.RFC3339, the date of an instant in Shanghai as
-- YYYY-MM-DD, AES-GCM, encoding/json on a map of headers, where `none` is the nil map, and "%d".
pub record Codec : Type 0 where
  pub layout : Layout
  pub shanghai_date : Time → Text
  pub aead : Aead
  pub marshal_headers : Option (List (Text × Text)) → Text
  pub unmarshal_headers : Text → Option (List (Text × Text))
  pub decimal : ℕ → Text

-- Which steps of an operation succeed: the queries, Begin, the UPDATE of old defaults, the main
-- statement, Commit, and the row of the audit log.
pub record Steps : Type 0 where
  pub reads : Bool
  pub begins : Bool
  pub clears : Bool
  pub writes : Bool
  pub commits : Bool
  pub audits : Bool

pub data StoreError : Type 0 where
  crypto : CryptoError → StoreError
  begin_failed clear_failed insert_failed update_failed delete_failed commit_failed : StoreError
  rule_references : ℕ → StoreError
  mapping_references : ℕ → StoreError
  user_references : List Text → StoreError
  last_provider no_fields no_row : StoreError
  read_failed : StoreError

-- `ListProviders`; the other lists read as this one does.
unfoldable pub list_providers : Bool → Tables → Result StoreError (List ProviderRecord)
list_providers reads t = if reads then ok t.providers else err read_failed

-- `SELECT … FROM providers WHERE slug = ?`.
unfoldable pub find_slug : Text → List ProviderRecord → Option ProviderRecord
find_slug slug [] = none
find_slug slug (p ∷ ps) = if text_eq p.slug slug then some p else find_slug slug ps

-- `GetProvider`.
unfoldable pub get_provider : Bool → Text → Tables → Result StoreError (Option ProviderRecord)
unfolding find_slug
get_provider reads slug t = if reads then ok (find_slug slug t.providers) else err read_failed

-- `WriteAudit`, whose error is only logged.
unfoldable pub write_audit : Codec → Bool → Time → Text → Text → Text → Text → Tables → Tables
write_audit c audits now action target_type target_id detail t =
    if audits
    then record t {
      audit_logs =
          t.audit_logs
          ++ record {
            id = t.next_audit;
            action = action;
            target_type = target_type;
            target_id = target_id;
            detail = detail;
            created_at = c.layout.format now;
          }
            ∷ [];
      next_audit = t.next_audit + 1;
    }
    else t

-- `UPDATE providers SET is_default = 0 WHERE is_default = 1`.
abbrev pub clear_default : ProviderRecord → ProviderRecord
clear_default p = if p.is_default then record p { is_default = false } else p

unfoldable pub clear_defaults : List ProviderRecord → List ProviderRecord
clear_defaults [] = []
clear_defaults (p ∷ ps) = clear_default p ∷ clear_defaults ps

-- `count(*)`.
abbrev pub count_where {ℓ} : {A : Type ℓ} → (A → Bool) → List A → ℕ
count_where p [] = 0
count_where p (x ∷ xs) = let n = count_where p xs in if p x then n + 1 else n

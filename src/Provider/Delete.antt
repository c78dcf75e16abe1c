-- ===== src/Provider/Delete.antt =====
-- DeleteProvider of internal/provider/store.go, with GetUsersByFixedProvider of
-- internal/models/user.go.
use shimiaocheng_llm.Prelude.{
  ℕ, not, ◌&&◌, List, [], ◌∷◌, Option, none, some, Text, text, text_eq, leb, ltb, if◌then◌else◌,
  keep, length,
}
use shimiaocheng_llm.GoTime.{Time}
use shimiaocheng_llm.Auth.{User}
use shimiaocheng_llm.Provider.{
  Tables, Codec, Steps, StoreError, delete_failed, rule_references, mapping_references,
  user_references, last_provider, read_failed, write_audit, count_where,
}

-- `GetUsersByFixedProvider`.
unfoldable pub users_by_fixed_provider : Text → List User → List Text
users_by_fixed_provider slug [] = []
users_by_fixed_provider slug (u ∷ us) =
    let rest = users_by_fixed_provider slug us in
    if text_eq u.fixed_provider slug && not (text_eq u.status (text "deleted"))
    then u.username ∷ rest
    else rest

-- The last two checks: users who are fixed to the provider, and the number of providers.
unfoldable pub user_error : List Text → ℕ → Option StoreError
user_error (u ∷ us) n = some (user_references (u ∷ us))
user_error [] n = if leb n 1 then some last_provider else none

-- The references that stop a deletion, in the order of the checks.
unfoldable pub reference_error : Text → List User → Tables → Option StoreError
unfolding users_by_fixed_provider user_error
reference_error slug users t =
    let rules = count_where (λ r. text_eq r.provider_id slug) t.rules in
    let mappings = count_where (λ m. text_eq m.provider_id slug) t.mappings in
    if ltb 0 rules
    then some (rule_references rules)
    else if ltb 0 mappings
    then some (mapping_references mappings)
    else user_error (users_by_fixed_provider slug users) (length t.providers)

-- `DELETE FROM providers WHERE slug = ?`, which cascades to the mappings of the provider.
abbrev pub drop_slug : Text → Tables → Tables
drop_slug slug t = record t {
  providers = keep (λ p. not (text_eq p.slug slug)) t.providers;
  mappings = keep (λ m. not (text_eq m.provider_id slug)) t.mappings;
}

-- `DeleteProvider`; the answer is the error, if there is one.
unfoldable pub delete_provider :
    Codec → Steps → Time → Text → List User → Tables → Tables × Option StoreError
unfolding reference_error
delete_provider c s now slug users t =
    if not s.reads then (t, some read_failed) else elim (reference_error slug users t) [
      | some e ↦ (t, some e)
      | none ↦
          if s.writes
          then (
            write_audit c s.audits now (text "provider.delete") (text "provider") slug []
                (drop_slug slug t),
            none,
          )
          else (t, some delete_failed)
    ]

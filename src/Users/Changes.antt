-- ===== src/Users/Changes.antt =====
-- Lookups and changes of single users: internal/models/user.go, and DeleteUser of
-- internal/admin/users.go.
use shimiaocheng_llm.Prelude.{
  ℕ, Bool, not, ◌&&◌, List, [], ◌∷◌, Option, none, some, Text, text, text_eq, ◌==◌, if◌then◌else◌,
  ℤ, pos, negsuc, any, keep, Result, ok, err,
}
use shimiaocheng_llm.GoTime.{Time, Layout}
use shimiaocheng_llm.Auth.{User}
use shimiaocheng_llm.Users.{
  UserTables, UserError, query_failed, update_failed, negative_concurrency,
}

-- `GetUserByID` and `GetUserByUsername`; deleted users are found too.
unfoldable pub find_id : ℕ → List User → Option User
find_id id [] = none
find_id id (u ∷ us) = if u.id == id then some u else find_id id us

unfoldable pub find_username : Text → List User → Option User
find_username name [] = none
find_username name (u ∷ us) = if text_eq u.username name then some u else find_username name us

abbrev pub get_user_by_id : Bool → ℕ → UserTables → Result UserError (Option User)
get_user_by_id reads id t = if reads then ok (find_id id t.users) else err query_failed

abbrev pub get_user_by_username : Bool → Text → UserTables → Result UserError (Option User)
get_user_by_username reads name t =
    if reads then ok (find_username name t.users) else err query_failed

-- `UPDATE users SET … WHERE id = ?`.
unfoldable pub update_user : (User → User) → ℕ → List User → List User
update_user f id [] = []
update_user f id (u ∷ us) = (if u.id == id then f u else u) ∷ update_user f id us

abbrev pub exec_user : Bool → (User → User) → ℕ → UserTables → UserTables × Option UserError
exec_user writes f id t =
    if writes
    then (record t { users = update_user f id t.users }, none)
    else (t, some update_failed)

-- `UpdateUserStatus`.
unfoldable pub update_user_status :
    Layout → Bool → Time → ℕ → Text → UserTables → UserTables × Option UserError
unfolding update_user
update_user_status l writes now id status t =
    exec_user writes (λ u. record u { status = status; updated_at = l.format now }) id t

-- `RegenerateUserKey`: the statement fails where another user has the hash.
unfoldable pub regenerate_user_key :
    Layout → Bool → Time → ℕ → (hash preview : Text) → UserTables → UserTables × Option UserError
unfolding update_user
regenerate_user_key l writes now id hash preview t =
    exec_user
      (writes
        && not (
            any (λ u. not (u.id == id) && text_eq u.sub_key_hash hash) t.users
            && any (λ u. u.id == id) t.users))
      (λ u. record u { sub_key_hash = hash; sub_key_preview = preview; updated_at = l.format now })
      id t

-- `ExtendUserExpiry`.
unfoldable pub extend_user_expiry :
    Layout → Bool → Time → ℕ → Text → UserTables → UserTables × Option UserError
unfolding update_user
extend_user_expiry l writes now id expires_at t =
    exec_user writes
      (λ u. record u { expires_at = expires_at; status = text "active"; updated_at = l.format now })
      id t

-- `UpdateUserRoute`.
unfoldable pub update_user_route :
    Layout
    → Bool
    → Time
    → ℕ
    → (route_mode fixed_provider : Text) → UserTables
    → UserTables × Option UserError
unfolding update_user
update_user_route l writes now id route_mode fixed_provider t =
    exec_user writes
      (λ u. record u {
        route_mode = route_mode;
        fixed_provider = fixed_provider;
        updated_at = l.format now;
      })
      id t

-- `UpdateUserMaxBodySize`.
unfoldable pub update_user_max_body_size :
    Layout → Bool → Time → ℕ → ℕ → UserTables → UserTables × Option UserError
unfolding update_user
update_user_max_body_size l writes now id size t =
    exec_user writes (λ u. record u { max_body_size = size; updated_at = l.format now }) id t

-- `UpdateUserMaxConcurrency`.
unfoldable pub update_user_max_concurrency :
    Layout → Bool → Time → ℕ → ℤ → UserTables → UserTables × Option UserError
unfolding update_user
update_user_max_concurrency l writes now id (negsuc n) t = (t, some negative_concurrency)
update_user_max_concurrency l writes now id (pos n) t =
    exec_user writes (λ u. record u { max_concurrency = n; updated_at = l.format now }) id t

-- `DELETE FROM users WHERE id = ?`, which cascades to the quotas, and to call logs, which are not in
-- these tables.
abbrev pub drop_user : ℕ → UserTables → UserTables
drop_user id t = record t {
  users = keep (λ u. not (u.id == id)) t.users;
  quotas = keep (λ q. not (q.user_id == id)) t.quotas;
}

-- `DeleteUser` of internal/admin/users.go from the id on: the tables and the status of the answer. The
-- counter that it forgets is the one of Proxy/Concurrency.
unfoldable pub delete_user : (reads writes : Bool) → ℕ → UserTables → UserTables × ℕ
unfolding find_id
delete_user reads writes id t = if not reads then (t, 404) else elim (find_id id t.users) [
  | none ↦ (t, 404)
  | some u ↦
      if text_eq u.role (text "admin")
      then (t, 403)
      else if writes
      then (drop_user id t, 200)
      else (t, 500)
]

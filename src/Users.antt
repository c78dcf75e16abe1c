-- ===== src/Users.antt =====
-- internal/models/user.go: the table users, with a row of quotas for each. A table is its rows in the
-- order of their ids, with the next id that AUTOINCREMENT gives; `username` and `sub_key_hash` are
-- UNIQUE. Each operation takes flags that say which of its statements the database executes.
pub mod Changes
pub mod Query
pub mod Rows
pub mod Invariant
pub mod Hashes
pub mod Reachable
pub mod Keys
pub mod Listing
use shimiaocheng_llm.Prelude.{
  ℕ, ◌+◌, Bool, true, false, not, ◌&&◌, ◌||◌, List, [], ◌∷◌, ◌++◌, Option, none, some, Text, text,
  text_eq, ◌==◌, if◌then◌else◌, ℤ, pos, negsuc, map, any, keep, or_default, Result, ok, err, zero,
  suc,
}
use shimiaocheng_llm.Float64.{Float64}
use shimiaocheng_llm.GoTime.{Time, Layout, utc}
use shimiaocheng_llm.Quota.{Quota, find}
use shimiaocheng_llm.Quota.Resets.{window_start}
use shimiaocheng_llm.Auth.{User}
use shimiaocheng_llm.Proxy.Exchange.{CallLog}

pub record UserTables : Type 0 where
  pub users : List User
  pub quotas : List Quota
  pub next_user : ℕ

-- Which statements succeed: Begin or a query, the two INSERTs or an UPDATE, and Commit.
pub record UserSteps : Type 0 where
  pub begins : Bool
  pub writes : Bool
  pub writes_quota : Bool
  pub commits : Bool

pub data UserError : Type 0 where
  begin_failed insert_user_failed insert_quota_failed commit_failed : UserError
  query_failed scan_failed update_failed negative_concurrency : UserError

-- A user with the columns of the quota row; a list leaves the hashes out.
pub record UserWithQuota : Type 0 where
  pub user : User
  pub quota_5h_limit : ℕ
  pub quota_5h_used : ℕ
  pub quota_total_limit : ℕ
  pub quota_total_used : ℕ
  pub quota_token_total_limit : ℕ
  pub quota_token_total_used : ℕ
  pub quota_token_5h_limit : ℕ
  pub quota_token_5h_used : ℕ
  pub quota_token_week_limit : ℕ
  pub quota_token_week_used : ℕ
  pub week_start : Text
  pub total_tokens : ℤ
  pub fixed_multiplier : Option Float64

-- The arguments of CreateUser.
pub record NewUser : Type 0 where
  pub username : Text
  pub password_hash : Text
  pub sub_key_hash : Text
  pub sub_key_preview : Text
  pub role : Text
  pub status : Text
  pub expires_at : Text
  pub route_mode : Text
  pub fixed_provider : Text
  pub quota_5h_limit : ℕ
  pub quota_total_limit : ℕ
  pub fixed_multiplier : Option Float64
  pub max_body_size : ℤ
  pub max_concurrency : ℕ

-- The cap on bodies: 1 MB where none is given.
abbrev pub body_cap : ℤ → ℕ
body_cap (pos zero) = 1048576
body_cap (pos (suc n)) = suc n
body_cap (negsuc n) = 1048576

abbrev pub is_admin : NewUser → Bool
is_admin n = text_eq n.role (text "admin")

-- The row of users: an administrator has no expiry and no fixed provider.
abbrev pub user_row : Layout → Time → NewUser → ℕ → User
user_row l now n id = record {
  id = id;
  username = n.username;
  password_hash = n.password_hash;
  sub_key_hash = n.sub_key_hash;
  sub_key_preview = n.sub_key_preview;
  role = n.role;
  status = n.status;
  created_at = l.format now;
  updated_at = l.format now;
  expires_at = if is_admin n then [] else n.expires_at;
  route_mode = if is_admin n then text "auto" else or_default n.route_mode (text "auto");
  fixed_provider = if is_admin n then [] else n.fixed_provider;
  max_body_size = body_cap n.max_body_size;
  max_concurrency = n.max_concurrency;
}

-- `calculateWindowStart(5)`.
unfoldable pub calculate_window_start : Layout → Time → Text
unfolding window_start
calculate_window_start l now = elim (window_start 5 now) [ none ↦ [] | some w ↦ l.format w ]

-- The row of quotas; the columns that are not named have the default 0.
abbrev pub quota_row : Layout → Time → NewUser → ℕ → Quota
quota_row l now n id = record {
  user_id = id;
  quota_5h_limit = n.quota_5h_limit;
  quota_5h_used = 0;
  quota_total_limit = n.quota_total_limit;
  quota_total_used = 0;
  token_total_limit = 0;
  token_total_used = 0;
  token_5h_limit = 0;
  token_5h_used = 0;
  token_week_limit = 0;
  token_week_used = 0;
  week_start = l.format (utc now);
  week_cycle_start = l.format (utc now);
  month_start = l.format (utc now);
  window_start = calculate_window_start l now;
  updated_at = l.format now;
  fixed_multiplier = n.fixed_multiplier;
}

abbrev pub clashes : User → User → Bool
clashes u v = text_eq v.username u.username || text_eq v.sub_key_hash u.sub_key_hash

-- The two INSERTs: `none` where a column is not unique.
unfoldable pub insert_user : User → UserTables → Option UserTables
insert_user u t =
    if any (clashes u) t.users
    then none
    else some (record t { users = t.users ++ u ∷ []; next_user = t.next_user + 1 })

unfoldable pub insert_quota : Quota → UserTables → Option UserTables
insert_quota q t = elim (find q.user_id t.quotas) [
  | some r ↦ none
  | none ↦ some (record t { quotas = t.quotas ++ q ∷ [] })
]

-- What CreateUser returns.
abbrev pub created_user : Layout → Time → NewUser → ℕ → UserWithQuota
created_user l now n id = record {
  user = user_row l now n id;
  quota_5h_limit = n.quota_5h_limit;
  quota_5h_used = 0;
  quota_total_limit = n.quota_total_limit;
  quota_total_used = 0;
  quota_token_total_limit = 0;
  quota_token_total_used = 0;
  quota_token_5h_limit = 0;
  quota_token_5h_used = 0;
  quota_token_week_limit = 0;
  quota_token_week_used = 0;
  week_start = [];
  total_tokens = pos 0;
  fixed_multiplier = none;
}

module _ (l : Layout) (s : UserSteps) (now : Time) (n : NewUser) (t : UserTables) where
  -- The end of the transaction.
  unfoldable pub commit_user : Option UserTables → UserTables × Result UserError UserWithQuota
  commit_user none = (t, err insert_quota_failed)
  commit_user (some t') =
      if s.commits then (t', ok (created_user l now n t.next_user)) else (t, err commit_failed)

  unfoldable pub with_quota : Option UserTables → UserTables × Result UserError UserWithQuota
  unfolding commit_user insert_quota
  with_quota none = (t, err insert_user_failed)
  with_quota (some t') =
      commit_user (if s.writes_quota then insert_quota (quota_row l now n t.next_user) t' else none)

  -- `CreateUser`: both rows, or the tables as they were.
  unfoldable pub create_user : UserTables × Result UserError UserWithQuota
  unfolding with_quota insert_user
  create_user =
      if s.begins
      then with_quota (if s.writes then insert_user (user_row l now n t.next_user) t else none)
      else (t, err begin_failed)

-- ===== src/Users/Query.antt =====
-- The list of users that the panel shows: ListUsers of internal/models/user.go.
use shimiaocheng_llm.Prelude.{
  ℕ, Bool, List, [], ◌∷◌, ◌++◌, Option, none, some, text, text_eq, ◌==◌, if◌then◌else◌, Result, ok,
  err, ℤ, pos, ◌+ℤ◌,
}
use shimiaocheng_llm.Quota.{Quota, find}
use shimiaocheng_llm.Auth.{User}
use shimiaocheng_llm.Proxy.Exchange.{CallLog}
use shimiaocheng_llm.Users.{UserTables, UserError, UserWithQuota, scan_failed, query_failed}

-- The Tokens that a user's calls are logged with.
unfoldable pub sum_tokens : ℕ → List CallLog → ℤ
sum_tokens id [] = pos 0
sum_tokens id (c ∷ cs) =
    let rest = sum_tokens id cs in if c.user_id == id then c.total_tokens +ℤ rest else rest

abbrev pub listed : User → Quota → ℤ → UserWithQuota
listed u q tokens = record {
  user = record u { password_hash = []; sub_key_hash = [] };
  quota_5h_limit = q.quota_5h_limit;
  quota_5h_used = q.quota_5h_used;
  quota_total_limit = q.quota_total_limit;
  quota_total_used = q.quota_total_used;
  quota_token_total_limit = q.token_total_limit;
  quota_token_total_used = q.token_total_used;
  quota_token_5h_limit = q.token_5h_limit;
  quota_token_5h_used = q.token_5h_used;
  quota_token_week_limit = q.token_week_limit;
  quota_token_week_used = q.token_week_used;
  week_start = q.week_start;
  total_tokens = tokens;
  fixed_multiplier = q.fixed_multiplier;
}

-- A row of the query before the rows of older users. A user without a quota row has NULL columns,
-- which do not scan.
unfoldable pub join_row :
    User
    → ℤ
    → Option Quota
    → Result UserError (List UserWithQuota)
    → Result UserError (List UserWithQuota)
join_row u tokens none rest = err scan_failed
join_row u tokens (some q) (err e) = err e
join_row u tokens (some q) (ok rows) = ok (rows ++ listed u q tokens ∷ [])

-- The rows of the query, the newest user first.
unfoldable pub joined_rows :
    List Quota → List CallLog → List User → Result UserError (List UserWithQuota)
unfolding sum_tokens join_row
joined_rows quotas logs [] = ok []
joined_rows quotas logs (u ∷ us) =
    let rest = joined_rows quotas logs us in
    if text_eq u.status (text "deleted")
    then rest
    else join_row u (sum_tokens u.id logs) (find u.id quotas) rest

-- `ListUsers`: by id, the newest first.
unfoldable pub list_users : Bool → List CallLog → UserTables → Result UserError (List UserWithQuota)
unfolding joined_rows
list_users reads logs t = if reads then joined_rows t.quotas logs t.users else err query_failed

-- ===== src/Quota/Usage.antt =====
-- UpdateQuotaLimits, RefundQuotaUsage, AddTokenUsage, the Token limits and the fixed multiplier of
-- internal/models/quota.go.
use shimiaocheng_llm.Prelude.{
  ℕ, ◌+◌, ◌-◌, Bool, List, Option, none, some, Text, ◌==◌, if◌then◌else◌, ℤ, pos, pos_part, ◌<ℤ◌,
}
use shimiaocheng_llm.Float64.{Float64}
use shimiaocheng_llm.GoTime.{Time, Layout}
use shimiaocheng_llm.Quota.{Quota, Reply, ok, exec, update_where, of_user}

-- `UpdateQuotaLimits`: a limit that is `none` stays; with no limit given nothing is executed.
unfoldable pub update_quota_limits :
    Layout → Bool → ℕ → Option ℕ → Option ℕ → Time → List Quota → Reply (List Quota)
update_quota_limits l writes user (some h) (some t) now rows = exec writes (
    update_where (of_user user)
      (λ q. record q { quota_5h_limit = h; quota_total_limit = t; updated_at = l.format now }) rows)
update_quota_limits l writes user (some h) none now rows = exec writes (
    update_where (of_user user) (λ q. record q { quota_5h_limit = h; updated_at = l.format now })
      rows)
update_quota_limits l writes user none (some t) now rows = exec writes (
    update_where (of_user user) (λ q. record q { quota_total_limit = t; updated_at = l.format now })
      rows)
update_quota_limits l writes user none none now rows = ok rows

-- The SET clause of a refund; subtraction on ℕ is MAX(0, …).
abbrev pub refund : Text → ℕ → Quota → Quota
refund now calls q = record q {
  quota_5h_used = q.quota_5h_used - calls;
  quota_total_used = q.quota_total_used - calls;
  updated_at = now;
}

-- `RefundQuotaUsage`.
unfoldable pub refund_quota_usage : Layout → Bool → ℕ → ℕ → Time → List Quota → Reply (List Quota)
refund_quota_usage l writes user calls now rows =
    if calls == 0
    then ok rows
    else exec writes (update_where (of_user user) (refund (l.format now) calls) rows)

abbrev pub add_tokens : ℕ → Quota → Quota
add_tokens delta q = record q {
  token_total_used = q.token_total_used + delta;
  token_5h_used = q.token_5h_used + delta;
  token_week_used = q.token_week_used + delta;
}

-- `AddTokenUsage`.
unfoldable pub add_token_usage : Bool → ℕ → ℤ → List Quota → Reply (List Quota)
add_token_usage writes user delta rows =
    if delta <ℤ pos 1
    then ok rows
    else exec writes (update_where (of_user user) (add_tokens (pos_part delta)) rows)

-- `UpdateQuotaTokenTotalLimit`.
unfoldable pub update_quota_token_total_limit :
    Layout → Bool → ℕ → ℕ → Time → List Quota → Reply (List Quota)
update_quota_token_total_limit l writes user limit now rows = exec writes (
    update_where (of_user user)
      (λ q. record q { token_total_limit = limit; updated_at = l.format now }) rows)

-- `UpdateQuotaTokenWindowLimits`.
unfoldable pub update_quota_token_window_limits :
    Layout → Bool → ℕ → (limit_5h limit_week : ℕ) → Time → List Quota → Reply (List Quota)
update_quota_token_window_limits l writes user limit_5h limit_week now rows = exec writes (
    update_where (of_user user)
      (λ q. record q {
        token_5h_limit = limit_5h;
        token_week_limit = limit_week;
        updated_at = l.format now;
      })
      rows)

-- `UpdateFixedMultiplier`; `none` clears the override.
unfoldable pub update_fixed_multiplier :
    Layout → Bool → ℕ → Option Float64 → Time → List Quota → Reply (List Quota)
update_fixed_multiplier l writes user multiplier now rows = exec writes (
    update_where (of_user user)
      (λ q. record q { fixed_multiplier = multiplier; updated_at = l.format now }) rows)

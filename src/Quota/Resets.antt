-- ===== src/Quota/Resets.antt =====
-- Reset5hQuota, CompensateQuotaReset, ResetCallCount, ResetTokenStats and ResetQuotaUsage of
-- internal/models/quota.go, and calculateWindowStart of internal/models/user.go.
use native.Mathlib.Nat.{div-mul-le_self}
use shimiaocheng_llm.Prelude.{
  ℕ, ◌+◌, ◌-◌, ◌*◌, ◌/◌, ◌%◌, ◌≤◌, ◌≡◌, refl, ap, sym, ◌∙◌, inl, inr, Bool, true, false, List, [],
  Option, none, some, Text, text_eq, text_lt, arith, ◌==◌, if◌then◌else◌, Bool-cases,
}
use shimiaocheng_llm.GoTime.{
  Time, Layout, IsLayout, HasFourDigits, second, hour_of, date_at_hour, wall_seconds,
}
use shimiaocheng_llm.Quota.{
  Quota, Reply, ok, db_error, panic, exec, find, update_where, of_user, atomic_deduct_quota,
}
use shimiaocheng_llm.Quota.Table.{IsUnique, update-settled, update-IsUnique}
use shimiaocheng_llm.Quota.Accounting.{gate_passes}
use shimiaocheng_llm.Quota.Gate.{roll, HasRoom, Within, rolled, OnlyRow, update-OnlyRow}

-- The start of the window of `interval` hours that holds `now`; a division by 0 panics.
unfoldable pub window_start : ℕ → Time → Option Time
window_start interval now =
    if interval == 0 then none else some (date_at_hour now (hour_of now / interval * interval))

abbrev every : Quota → Bool
every q = true

-- `Reset5hQuota`.
unfoldable pub reset_5h_quota : Layout → Bool → ℕ → Time → List Quota → Reply (List Quota)
unfolding window_start
reset_5h_quota l writes interval now rows = elim (window_start interval now) [
  | none ↦ panic
  | some w ↦ exec writes (
      update_where every
        (λ q. record q {
          quota_5h_used = 0;
          token_5h_used = 0;
          window_start = l.format w;
          updated_at = l.format now;
        })
        rows)
]

-- The row of a window that has been missed starts over now.
abbrev start_over : Text → Quota → Quota
start_over now q = record q {
  quota_5h_used = 0;
  token_5h_used = 0;
  window_start = now;
  updated_at = now;
}

-- `CompensateQuotaReset`.
unfoldable pub compensate_quota_reset : Layout → Bool → ℕ → Time → List Quota → Reply (List Quota)
unfolding window_start
compensate_quota_reset l writes interval now rows = elim (window_start interval now) [
  | none ↦ panic
  | some w ↦
      exec writes
        (update_where (λ q. text_lt q.window_start (l.format w)) (start_over (l.format now)) rows)
]

-- An empty time text stands for now.
abbrev or_now : Layout → Text → Time → Text
or_now l at now = if text_eq at [] then l.format now else at

abbrev clear_calls : Text → Quota → Quota
clear_calls at q = record q {
  quota_5h_used = 0;
  quota_total_used = 0;
  window_start = at;
  updated_at = at;
}

abbrev clear_tokens : Text → Quota → Quota
clear_tokens at q = record q {
  token_5h_used = 0;
  token_week_used = 0;
  token_total_used = 0;
  week_start = at;
  week_cycle_start = at;
  month_start = at;
  updated_at = at;
}

-- `ResetCallCount`.
unfoldable pub reset_call_count : Layout → Bool → ℕ → Text → Time → List Quota → Reply (List Quota)
reset_call_count l writes user at now rows =
    exec writes (update_where (of_user user) (clear_calls (or_now l at now)) rows)

-- `ResetTokenStats`.
unfoldable pub reset_token_stats : Layout → Bool → ℕ → Text → Time → List Quota → Reply (List Quota)
reset_token_stats l writes user at now rows =
    exec writes (update_where (of_user user) (clear_tokens (or_now l at now)) rows)

-- `ResetQuotaUsage`: two statements, the second only after the first.
unfoldable pub reset_quota_usage :
    Layout → (first second : Bool) → ℕ → Text → Time → List Quota → Reply (List Quota)
unfolding reset_call_count reset_token_stats
reset_quota_usage l first second user at now rows =
    elim (reset_call_count l first user (or_now l at now) now rows) [
      | ok rows' ↦ reset_token_stats l second user (or_now l at now) now rows'
      | db_error ↦ db_error
      | panic ↦ panic
    ]

-- A clock that shows a day that has begun: the zone does not reach back before the year 1.
abbrev pub IsSane : Time → Type 0
IsSane t = wall_seconds t % 86400 ≤ t.nanos / second

-- The window of an instant starts at or before it.
pub window_start-le :
    (interval : ℕ) (now w : Time)
    → IsSane now
    → window_start interval now ≡ some w
    → (w.nanos / second ≤ now.nanos / second) × (w.zone ≡ now.zone)
unfolding window_start
window_start-le interval now w sane h = elim (Bool-cases (interval == 0)) [
  | inl e ↦ absurd (nothing e h)
  | inr e ↦ at_hour (rw e at h)
]
  where
    nothing : (interval == 0) ≡ true → window_start interval now ≡ some w → ⊥
    nothing e k = ground arith

    of_day : (h s : ℕ) → h ≤ s / 3600 % 24 → h ≤ s % 86400 / 3600
    of_day h s k = omega arith

    begun : (h n d : ℕ) → h ≤ d / 3600 → d ≤ n → (n - d + h * 3600) * second / second ≤ n
    begun h n d k l = omega arith

    at_hour :
        some (date_at_hour now (hour_of now / interval * interval)) ≡ some w
        → (w.nanos / second ≤ now.nanos / second) × (w.zone ≡ now.zone)
    at_hour p =
        let same : date_at_hour now (hour_of now / interval * interval) ≡ w = cc in
        let low : hour_of now / interval * interval ≤ hour_of now = div-mul-le_self _ _ in
        let early : hour_of now / interval * interval ≤ wall_seconds now % 86400 / 3600 =
          of_day _ (wall_seconds now) low in
        rw (← same) (begun _ _ _ early sane, refl)

start_over-settled :
    (l : Layout)
    → IsLayout l
    → (now w : Time) → w.nanos / second ≤ now.nanos / second
    → w.zone ≡ now.zone
    → HasFourDigits now
    → HasFourDigits w
    → text_lt (l.format now) (l.format w) ≡ false
start_over-settled l laws now w h z y y' = rw (laws.format_lt now w (sym z) y y') (ground arith)

-- A compensation is made once for a window: where its statement is executed, repeated at any
-- later instant of the same window it leaves the table as the first one made it. It takes a clock
-- whose day has begun after the year 1 in its zone, and instants before the year 10000.
pub compensate_quota_reset-once :
    (l : Layout)
    → IsLayout l
    → (interval : ℕ) (now later w : Time) (rows : List Quota) → IsSane now
    → HasFourDigits now
    → HasFourDigits w
    → window_start interval now ≡ some w
    → window_start interval later ≡ some w
    → (rows' : List Quota) × (compensate_quota_reset l true interval now rows ≡ ok rows')
      × (compensate_quota_reset l true interval later rows' ≡ ok rows')
unfolding compensate_quota_reset
compensate_quota_reset-once l laws interval now later w rows sane y y' h k =
    let early = window_start-le interval now w sane h in
    let late = start_over-settled l laws now w early.0 early.1 y y' in
    (
      update_where (λ q. text_lt q.window_start (l.format w)) (start_over (l.format now)) rows,
      rw (h, compensate_quota_reset) refl,
      rw (k, compensate_quota_reset)
          (ap ok (
            update-settled (λ q. text_lt q.window_start (l.format w)) (start_over (l.format now))
              (start_over (l.format later)) (λ q. late) rows)),
    )

-- The table after a full reset of a user.
cleared : Layout → Text → Time → Quota → Quota
cleared l at now q =
    clear_tokens (or_now l (or_now l at now) now) (clear_calls (or_now l (or_now l at now) now) q)

reset_quota_usage-rows :
    (l : Layout) (user : ℕ) (at : Text) (now : Time) (rows : List Quota) (q : Quota)
    → IsUnique rows
    → find user rows ≡ some q
    → (rows' : List Quota) × (reset_quota_usage l true true user at now rows ≡ ok rows')
      × IsUnique rows'
      × OnlyRow user (cleared l at now q) rows rows'
unfolding reset_quota_usage cleared
reset_quota_usage-rows l user at now rows q u e =
    let t = or_now l (or_now l at now) now in
    let rows' = update_where (of_user user) (clear_calls t) rows in
    let first = update-OnlyRow (clear_calls t) user rows q (λ r. refl) e in
    let second = update-OnlyRow (clear_tokens t) user rows' (clear_calls t q) (λ r. refl) first.0 in
    (
      update_where (of_user user) (clear_tokens t) rows',
      refl,
      update-IsUnique (of_user user) (clear_tokens t) (λ r. refl) rows'
          (update-IsUnique (of_user user) (clear_calls t) (λ r. refl) rows u),
      (second.0, λ v ne. second.1 v ne ∙ first.1 v ne),
    )

cleared-HasRoom :
    (l : Layout) (at : Text) (now later : Time) (calls : ℕ) (q : Quota)
    → Within q.quota_5h_limit calls
    → Within q.quota_total_limit calls
    → HasRoom calls (rolled l later (cleared l at now q))
unfolding cleared roll
cleared-HasRoom l at now later calls q h k = ground arith

-- A full reset revives a user who has one row, no statement failing: whatever was used before, at
-- any other instant the gate lets a request of that user through whose calls fit the two call
-- limits taken alone.
pub reset_quota_usage-revives :
    (l : Layout) (user calls : ℕ) (at : Text) (now later : Time) (rows : List Quota) (q : Quota)
    → IsUnique rows
    → find user rows ≡ some q
    → Within q.quota_5h_limit calls
    → Within q.quota_total_limit calls
    → (rows' rows'' : List Quota) × (reset_quota_usage l true true user at now rows ≡ ok rows')
      × (atomic_deduct_quota l true true user calls later rows' ≡ ok (rows'', true))
reset_quota_usage-revives l user calls at now later rows q u e h k =
    let (rows', p, u', o) = reset_quota_usage-rows l user at now rows q u e in
    let (rows'', p', _) =
      gate_passes l user calls later rows' (cleared l at now q) u' o.0
        (cleared-HasRoom l at now later calls q h k) in
    (rows', rows'', p, p')

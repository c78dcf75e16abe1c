-- ===== src/Quota.antt =====
-- internal/models/quota.go: the rows of the table quotas and the statements on them. Counters and
-- limits are not negative, and a limit of 0 means unlimited. Each function takes the time as an
-- argument, and a flag for each statement that says whether the database executes it.
pub mod Table
pub mod Cycle
pub mod Gate
pub mod Usage
pub mod Accounting
pub mod Resets
pub mod WeekStart
pub mod Checker
pub mod Legacy
pub mod Scheduler
use shimiaocheng_llm.Prelude.{
  ℕ, ◌+◌, ◌-◌, ◌*◌, ◌/◌, Bool, true, false, not, ◌&&◌, ◌||◌, List, [], ◌∷◌, Option, none, some,
  Text, text_eq, text_lt, ltb, leb, ◌==◌, if◌then◌else◌, map, suc,
}
use shimiaocheng_llm.Float64.{Float64}
use shimiaocheng_llm.GoTime.{Time, Layout, utc, add, sub, before, since, week, day}

pub record Quota : Type 0 where
  pub user_id : ℕ
  pub quota_5h_limit : ℕ
  pub quota_5h_used : ℕ
  pub quota_total_limit : ℕ
  pub quota_total_used : ℕ
  pub token_total_limit : ℕ
  pub token_total_used : ℕ
  pub token_5h_limit : ℕ
  pub token_5h_used : ℕ
  pub token_week_limit : ℕ
  pub token_week_used : ℕ
  pub week_start : Text
  pub week_cycle_start : Text
  pub month_start : Text
  pub window_start : Text
  pub updated_at : Text
  pub fixed_multiplier : Option Float64

-- The outcome of a function that returns an error when a statement fails; `panic` is a division by
-- an interval of zero hours.
pub data Reply {ℓ} (A : Type ℓ) : Type ℓ where
  ok : A → Reply A
  db_error panic : Reply A

-- `SELECT … WHERE user_id = ?`.
unfoldable pub find : ℕ → List Quota → Option Quota
find user [] = none
find user (q ∷ qs) = if q.user_id == user then some q else find user qs

-- `UPDATE … WHERE …`, and the number of rows that it affects.
unfoldable pub update_where : (Quota → Bool) → (Quota → Quota) → List Quota → List Quota
update_where p f [] = []
update_where p f (q ∷ qs) = (if p q then f q else q) ∷ update_where p f qs

unfoldable pub rows_affected : (Quota → Bool) → List Quota → ℕ
rows_affected p [] = 0
rows_affected p (q ∷ qs) = let rest = rows_affected p qs in if p q then suc rest else rest

-- A function that only executes one UPDATE.
abbrev pub exec : Bool → List Quota → Reply (List Quota)
exec writes rows = if writes then ok rows else db_error

abbrev pub of_user : ℕ → Quota → Bool
of_user user q = q.user_id == user

-- `AlignedCycleStartUTC`.
unfoldable pub aligned_cycle_start : Time → Time → Time
aligned_cycle_start week_start now =
    if before now week_start
    then week_start
    else add week_start (since now week_start / week * week)

-- `time.Parse` of the anchor, where the zero time and a text that is no RFC 3339 mean now.
unfoldable pub anchor : Layout → Text → Time → Time
anchor l week_start now = elim (l.parse week_start) [
  | none ↦ utc now
  | some t ↦ if t.nanos == 0 then utc now else t
]

-- The text of the start of the current 7-day cycle.
unfoldable pub new_cycle : Layout → Text → Time → Text
unfolding anchor
new_cycle l week_start now = l.format (aligned_cycle_start (anchor l week_start now) (utc now))

-- The WHERE clause of the gate, without the user: new cycle, month cutoff, calls.
unfoldable pub gate_open : Text → Text → ℕ → Quota → Bool
gate_open cycle cutoff calls q =
    (q.quota_5h_limit == 0 || leb (q.quota_5h_used + calls) q.quota_5h_limit)
    && (q.quota_total_limit == 0 || leb (q.quota_total_used + calls) q.quota_total_limit)
    && (q.token_total_limit == 0
        || ltb (if text_lt q.month_start cutoff then 0 else q.token_total_used) q.token_total_limit)
    && (q.token_5h_limit == 0 || ltb q.token_5h_used q.token_5h_limit)
    && (q.token_week_limit == 0
        || ltb (if not (text_eq q.week_cycle_start cycle) then 0 else q.token_week_used)
            q.token_week_limit)

-- The SET clause of the gate: new cycle, month cutoff, now, calls.
unfoldable pub deduct : Text → Text → Text → ℕ → Quota → Quota
deduct cycle cutoff now calls q = record q {
  quota_5h_used = q.quota_5h_used + calls;
  quota_total_used = q.quota_total_used + calls;
  token_week_used = if not (text_eq q.week_cycle_start cycle) then 0 else q.token_week_used;
  week_cycle_start = if not (text_eq q.week_cycle_start cycle) then cycle else q.week_cycle_start;
  token_total_used = if text_lt q.month_start cutoff then 0 else q.token_total_used;
  month_start = if text_lt q.month_start cutoff then now else q.month_start;
  updated_at = now;
}

-- `AtomicDeductQuota`: the new table and whether the deduction succeeded.
unfoldable pub atomic_deduct_quota :
    Layout → (reads writes : Bool) → ℕ → ℕ → Time → List Quota → Reply (List Quota × Bool)
unfolding gate_open deduct update_where rows_affected
atomic_deduct_quota l reads writes user calls now rows =
    if not reads then db_error else elim (find user rows) [
      | none ↦ ok (rows, false)
      | some q ↦
          let cycle = new_cycle l q.week_start now in
          let cutoff = l.format (sub now (30 * day)) in
          let p = λ (r : Quota). of_user user r && gate_open cycle cutoff calls r in
          if not writes
          then db_error
          else ok (
            update_where p (deduct cycle cutoff (l.format now) calls) rows,
            rows_affected p rows == 1,
          )
    ]

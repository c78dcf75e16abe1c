-- ===== src/Quota/Checker.antt =====
-- internal/quota/checker.go and internal/quota/manager.go: the checks in front of the gate.
use shimiaocheng_llm.Prelude.{
  ℕ, ◌+◌, ◌*◌, ◌≡◌, refl, Bool, true, false, ◌&&◌, ◌||◌, List, none, some, text_eq, text_lt, arith,
  ltb, ◌==◌, if◌then◌else◌, ℤ, pos, sub_ℕ, leb_ℤ,
}
use shimiaocheng_llm.GoTime.{Time, Layout, sub, day}
use shimiaocheng_llm.Quota.{Quota, Reply, ok, db_error, find, new_cycle, atomic_deduct_quota}
use shimiaocheng_llm.Quota.Table.{IsUnique}
use shimiaocheng_llm.Quota.Gate.{HasRoom, Within, Below, rolled, roll}
use shimiaocheng_llm.Quota.Accounting.{gate_passes}

-- `CheckAndDeduct` and `PreReserve`, and `ConfirmStream`, which does nothing.
abbrev pub check_and_deduct :
    Layout → (reads writes : Bool) → ℕ → ℕ → Time → List Quota → Reply (List Quota × Bool)
check_and_deduct = atomic_deduct_quota

abbrev pub pre_reserve :
    Layout → (reads writes : Bool) → ℕ → ℕ → Time → List Quota → Reply (List Quota × Bool)
pre_reserve = check_and_deduct

unfoldable pub confirm_stream : ℕ → ℤ → List Quota → List Quota
confirm_stream user total_tokens rows = rows

remaining_5h : Quota → ℤ
remaining_5h q = sub_ℕ q.quota_5h_limit q.quota_5h_used

remaining_total : Quota → ℤ
remaining_total q = sub_ℕ q.quota_total_limit q.quota_total_used

count_ok : ℕ → Quota → Bool
unfolding remaining_5h remaining_total
count_ok calls q =
    (q.quota_5h_limit == 0 || leb_ℤ calls (remaining_5h q))
    && (q.quota_total_limit == 0 || leb_ℤ calls (remaining_total q))

token_ok : Quota → Bool
token_ok q =
    (q.token_total_limit == 0 || ltb q.token_total_used q.token_total_limit)
    && (q.token_5h_limit == 0 || ltb q.token_5h_used q.token_5h_limit)
    && (q.token_week_limit == 0 || ltb q.token_week_used q.token_week_limit)

-- `CheckAvailability`: whether the user can call, and what remains of the two call limits.
unfoldable pub check_availability : Bool → ℕ → ℕ → List Quota → Reply (Bool × ℤ × ℤ)
unfolding count_ok token_ok
check_availability reads user calls rows =
    if reads
    then elim (find user rows) [
      | none ↦ ok (false, pos 0, pos 0)
      | some q ↦ ok (count_ok calls q && token_ok q, remaining_5h q, remaining_total q)
    ]
    else db_error

available→room :
    (l : Layout) (now : Time) (calls : ℕ) (q : Quota)
    → (count_ok calls q && token_ok q) ≡ true
    → HasRoom calls (rolled l now q)
unfolding count_ok token_ok roll
available→room l now calls q h = ground arith

-- No bucket of the row is due for a roll-over.
abbrev pub IsCurrent : Layout → Time → Quota → Type 0
IsCurrent l now q =
    (text_eq q.week_cycle_start (new_cycle l q.week_start now) ≡ true)
    × (text_lt q.month_start (l.format (sub now (30 * day))) ≡ false)

rolled-current : (l : Layout) (now : Time) (q : Quota) → IsCurrent l now q → rolled l now q ≡ q
unfolding roll
rolled-current l now q c = rw (c.0, c.1) refl

Within-test :
    (limit used calls : ℕ)
    → Within limit (used + calls)
    → (limit == 0 || leb_ℤ calls (sub_ℕ limit used)) ≡ true
Within-test limit used calls h = ground arith

Below-test : (limit used : ℕ) → Below limit used → (limit == 0 || ltb used limit) ≡ true
Below-test limit used h = ground arith

room→available : (calls : ℕ) (q : Quota) → HasRoom calls q → (count_ok calls q && token_ok q) ≡ true
unfolding count_ok token_ok
room→available calls q h =
    rw
      (
        Within-test q.quota_5h_limit q.quota_5h_used calls h.count_5h,
        Within-test q.quota_total_limit q.quota_total_used calls h.count_total,
        Below-test q.token_total_limit q.token_total_used h.tokens_total,
        Below-test q.token_5h_limit q.token_5h_used h.tokens_5h,
        Below-test q.token_week_limit q.token_week_used h.tokens_week,
      )
      refl

available-parts :
    (user calls : ℕ) (rows : List Quota) (q : Quota) (r t : ℤ)
    → find user rows ≡ some q
    → check_availability true user calls rows ≡ ok (true, r, t)
    → (count_ok calls q && token_ok q) ≡ true
unfolding check_availability
available-parts user calls rows q r t e h = first (rw (e, check_availability) at h)
  where
    first :
        ◌≡◌ {A = Reply (Bool × ℤ × ℤ)}
          (ok (count_ok calls q && token_ok q, remaining_5h q, remaining_total q))
          (ok (true, r, t))
        → (count_ok calls q && token_ok q) ≡ true
    first p = cc

-- The check is sound for the gate: whenever it reports a user who has one row as available, the
-- gate lets the same number of calls through, at any instant while the table stays as it is and
-- no statement fails.
pub check_availability_sound :
    (l : Layout) (user calls : ℕ) (now : Time) (rows : List Quota) (q : Quota) (r t : ℤ)
    → IsUnique rows
    → find user rows ≡ some q
    → check_availability true user calls rows ≡ ok (true, r, t)
    → (rows' : List Quota) × (atomic_deduct_quota l true true user calls now rows
        ≡ ok (rows', true))
check_availability_sound l user calls now rows q r t u e h =
    let (rows', p, _) =
      gate_passes l user calls now rows q u e
        (available→room l now calls q (available-parts user calls rows q r t e h)) in
    (rows', p)

-- Where no bucket of the user's row is due for a roll-over, the check is exact: it reports the
-- user as available, with what remains of the two call limits, whenever the limits leave room.
pub check_availability_complete :
    (l : Layout) (user calls : ℕ) (now : Time) (rows : List Quota) (q : Quota)
    → find user rows ≡ some q
    → IsCurrent l now q
    → HasRoom calls (rolled l now q)
    → check_availability true user calls rows
      ≡ ok (
        true,
        sub_ℕ q.quota_5h_limit q.quota_5h_used,
        sub_ℕ q.quota_total_limit q.quota_total_used,
      )
unfolding check_availability remaining_5h remaining_total
check_availability_complete l user calls now rows q e c room =
    rw (e, check_availability)
      (rw (room→available calls q (rw (rolled-current l now q c) at room)) refl)

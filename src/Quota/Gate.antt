-- ===== src/Quota/Gate.antt =====
-- AtomicDeductQuota of internal/models/quota.go against its specification: roll the buckets over
-- that are due, then check every limit, then charge.
use shimiaocheng_llm.Prelude.{
  ℕ, ◌+◌, ◌*◌, ◌≤◌, ◌<◌, ◌≡◌, ◌≢◌, refl, ◌∙◌, ◌⊎◌, inl, inr, true, false, List, some, Text, text_eq,
  text_lt, arith, if◌then◌else◌, Bool-cases, ==_refl,
}
use shimiaocheng_llm.GoTime.{Time, Layout, sub, day}
use shimiaocheng_llm.Quota.{
  Quota, ok, find, update_where, of_user, new_cycle, gate_open, deduct, atomic_deduct_quota,
}
use shimiaocheng_llm.Quota.Table.{IsUnique, KeepsUser, find-update, guarded_update}

-- The row after the roll-overs that are due: a new weekly cycle starts at 0, and so does the
-- 30-day bucket whose start is before the cutoff.
unfoldable pub roll : Text → Text → Text → Quota → Quota
roll cycle cutoff now q = roll_month (roll_week q)
  where
    roll_week : Quota → Quota
    roll_week r =
        if text_eq r.week_cycle_start cycle
        then r
        else record r { token_week_used = 0; week_cycle_start = cycle }

    roll_month : Quota → Quota
    roll_month r =
        if text_lt r.month_start cutoff
        then record r { token_total_used = 0; month_start = now }
        else r

-- A limit is off, or the use stays within it.
abbrev pub Within : ℕ → ℕ → Type 0
Within limit used = (limit ≡ 0) ⊎ (used ≤ limit)

-- A soft limit is off, or has not been reached.
abbrev pub Below : ℕ → ℕ → Type 0
Below limit used = (limit ≡ 0) ⊎ (used < limit)

-- The five conditions under which a request of `calls` effective calls may go ahead.
pub record HasRoom (calls : ℕ) (q : Quota) : Type 0 where
  pub count_5h : Within q.quota_5h_limit (q.quota_5h_used + calls)
  pub count_total : Within q.quota_total_limit (q.quota_total_used + calls)
  pub tokens_total : Below q.token_total_limit q.token_total_used
  pub tokens_5h : Below q.token_5h_limit q.token_5h_used
  pub tokens_week : Below q.token_week_limit q.token_week_used

-- What a request costs before it is sent: calls, never tokens.
abbrev pub charge : Text → ℕ → Quota → Quota
charge now calls q = record q {
  quota_5h_used = q.quota_5h_used + calls;
  quota_total_used = q.quota_total_used + calls;
  updated_at = now;
}

room→open :
    (cycle cutoff now : Text) (calls : ℕ) (q : Quota)
    → HasRoom calls (roll cycle cutoff now q)
    → gate_open cycle cutoff calls q ≡ true
unfolding roll gate_open
room→open cycle cutoff now calls q h = ground arith

open→room :
    (cycle cutoff now : Text) (calls : ℕ) (q : Quota)
    → gate_open cycle cutoff calls q ≡ true
    → HasRoom calls (roll cycle cutoff now q)
unfolding roll gate_open
open→room cycle cutoff now calls q h = ground arith

deduct-eq-charge :
    (cycle cutoff now : Text) (calls : ℕ) (q : Quota)
    → deduct cycle cutoff now calls q ≡ charge now calls (roll cycle cutoff now q)
unfolding roll deduct
deduct-eq-charge cycle cutoff now calls q = ground arith

deduct-KeepsUser : (cycle cutoff now : Text) (calls : ℕ) → KeepsUser (deduct cycle cutoff now calls)
unfolding deduct
deduct-KeepsUser cycle cutoff now calls q = refl

-- The row of a user as the gate sees it at an instant.
abbrev pub rolled : Layout → Time → Quota → Quota
rolled l now q =
    roll (new_cycle l q.week_start now) (l.format (sub now (30 * day))) (l.format now) q

-- The table afterwards holds this row for the user and the old rows for everybody else.
abbrev pub OnlyRow : ℕ → Quota → List Quota → List Quota → Type 0
OnlyRow user r rows rows' =
    (find user rows' ≡ some r) × ((v : ℕ) → v ≢ user → find v rows' ≡ find v rows)

-- What the gate promises of a user's row.
abbrev pub GateSpec : Layout → ℕ → ℕ → Time → List Quota → Quota → Type 0
GateSpec l user calls now rows q =
    (HasRoom calls (rolled l now q)
      × ((rows' : List Quota) × (atomic_deduct_quota l true true user calls now rows
            ≡ ok (rows', true))
          × OnlyRow user (charge (l.format now) calls (rolled l now q)) rows rows'))
    ⊎ ((¬ HasRoom calls (rolled l now q))
        × (atomic_deduct_quota l true true user calls now rows ≡ ok (rows, false)))

pub update-OnlyRow :
    (f : Quota → Quota) (user : ℕ) (rows : List Quota) (q : Quota)
    → KeepsUser f
    → find user rows ≡ some q
    → OnlyRow user (f q) rows (update_where (of_user user) f rows)
update-OnlyRow f user rows q keep e = (own, other)
  where
    own : find user (update_where (of_user user) f rows) ≡ some (f q)
    own = rw (find-update f keep user user rows, ==_refl user, e) refl

    other : (v : ℕ) → v ≢ user → find v (update_where (of_user user) f rows) ≡ find v rows
    other v ne = rw (find-update f keep user v rows) (ground arith)

-- The gate by the user's row alone.
pub atomic_deduct_quota-row :
    (l : Layout) (user calls : ℕ) (now : Time) (rows : List Quota) (q : Quota)
    → IsUnique rows
    → find user rows ≡ some q
    → let cycle = new_cycle l q.week_start now in
      let cutoff = l.format (sub now (30 * day)) in
      atomic_deduct_quota l true true user calls now rows ≡ (
        if gate_open cycle cutoff calls q
        then ok (update_where (of_user user) (deduct cycle cutoff (l.format now) calls) rows, true)
        else ok (rows, false))
unfolding atomic_deduct_quota
atomic_deduct_quota-row l user calls now rows q u e =
    let cycle = new_cycle l q.week_start now in
    let cutoff = l.format (sub now (30 * day)) in
    let g =
      guarded_update (deduct cycle cutoff (l.format now) calls) (gate_open cycle cutoff calls) user
        rows q u e in
    rw (e, atomic_deduct_quota)
      (rw (g.0, g.1)
        (elim (Bool-cases (gate_open cycle cutoff calls q)) [
          | inl room ↦ rw room refl
          | inr full ↦ rw full refl
        ]))

-- The gate is the specification: with one row for the user and no failing statement, it succeeds
-- exactly when every limit has room in the row as rolled over now. It then charges the calls to
-- that row, tokens untouched, and no other user's row changes; otherwise the table stays.
pub atomic_deduct_quota-refines :
    (l : Layout) (user calls : ℕ) (now : Time) (rows : List Quota) (q : Quota)
    → IsUnique rows
    → find user rows ≡ some q
    → GateSpec l user calls now rows q
atomic_deduct_quota-refines l user calls now rows q u e =
    elim (Bool-cases (gate_open cycle cutoff calls q)) [
      | inl room ↦ inl (
        open→room cycle cutoff (l.format now) calls q room,
        (
          update_where (of_user user) (deduct cycle cutoff (l.format now) calls) rows,
          atomic_deduct_quota-row l user calls now rows q u e ∙ rw room refl,
          rw (← deduct-eq-charge cycle cutoff (l.format now) calls q) (
              update-OnlyRow (deduct cycle cutoff (l.format now) calls) user rows q
                (deduct-KeepsUser cycle cutoff (l.format now) calls) e),
        ),
      )
      | inr full ↦ inr (
        (λ h. cc (room→open cycle cutoff (l.format now) calls q h, full)),
        atomic_deduct_quota-row l user calls now rows q u e ∙ rw full refl,
      )
    ]
  where
    cycle : Text
    cycle = new_cycle l q.week_start now

    cutoff : Text
    cutoff = l.format (sub now (30 * day))

-- ===== src/Quota/Legacy.antt =====
-- Rows whose weekly anchor is no RFC 3339 text, such as those that the migration of
-- internal/db/migrations.go fills with SQLite's datetime('now').
use shimiaocheng_llm.Prelude.{
  ℕ, ◌≡◌, refl, ap, ◌∙◌, ◌*◌, true, false, List, none, some, Text, text_eq, arith,
}
use shimiaocheng_llm.GoTime.{Time, Layout, utc, sub, day}
use shimiaocheng_llm.Quota.{
  Quota, ok, find, anchor, new_cycle, aligned_cycle_start, atomic_deduct_quota,
}
use shimiaocheng_llm.Quota.Table.{IsUnique}
use shimiaocheng_llm.Quota.Accounting.{gate_passes}
use shimiaocheng_llm.Quota.Gate.{HasRoom, rolled, roll, charge}

anchor-none :
    (l : Layout) (now : Time) (start : Text) → l.parse start ≡ none → anchor l start now ≡ utc now
unfolding anchor
anchor-none l now start h = rw (h, anchor) refl

aligned_self : (t : Time) → aligned_cycle_start t t ≡ t
unfolding aligned_cycle_start
aligned_self t = ground arith

legacy_cycle :
    (l : Layout) (now : Time) (start : Text)
    → l.parse start ≡ none
    → new_cycle l start now ≡ l.format (utc now)
unfolding new_cycle
legacy_cycle l now start h =
    ap (λ a. l.format (aligned_cycle_start a (utc now))) (anchor-none l now start h)
    ∙ ap l.format (aligned_self (utc now))

roll_forgets :
    (cycle cutoff now : Text) (q : Quota) (n : ℕ)
    → text_eq q.week_cycle_start cycle ≡ false
    → (roll cycle cutoff now (record q { token_week_used = n }) ≡ roll cycle cutoff now q)
      × ((roll cycle cutoff now q).token_week_used ≡ 0)
      × ((roll cycle cutoff now q).week_start ≡ q.week_start)
unfolding roll
roll_forgets cycle cutoff now q n e = ground arith

-- For a row whose weekly anchor does not parse, the weekly limit is without effect: at every instant
-- whose UTC text is not the stored start of the cycle, the gate lets through whatever the other
-- limits and a weekly use of 0 allow, however many Tokens the week has used, and sets that use
-- to 0 while the anchor stays as it is.
pub legacy_week_uncapped :
    (l : Layout) (user calls : ℕ) (now : Time) (rows : List Quota) (q : Quota)
    → IsUnique rows
    → find user rows ≡ some q
    → l.parse q.week_start ≡ none
    → text_eq q.week_cycle_start (l.format (utc now)) ≡ false
    → HasRoom calls (rolled l now (record q { token_week_used = 0 }))
    → (rows' : List Quota) × (r : Quota) × (atomic_deduct_quota l true true user calls now rows
        ≡ ok (rows', true))
      × (find user rows' ≡ some r)
      × (r.token_week_used ≡ 0)
      × (r.week_start ≡ q.week_start)
legacy_week_uncapped l user calls now rows q u f h e room =
    let (rows', p, o) = gate_passes l user calls now rows q u f (rw forgets.0 at room) in
    (rows', charge (l.format now) calls (rolled l now q), p, o.0, forgets.1, forgets.2)
  where
    moved : text_eq q.week_cycle_start (new_cycle l q.week_start now) ≡ false
    moved = rw (legacy_cycle l now q.week_start h) e

    forgets :
        (rolled l now (record q { token_week_used = 0 }) ≡ rolled l now q)
        × ((rolled l now q).token_week_used ≡ 0)
        × ((rolled l now q).week_start ≡ q.week_start)
    forgets =
        roll_forgets (new_cycle l q.week_start now) (l.format (sub now (30 * day))) (l.format now) q
          0 moved

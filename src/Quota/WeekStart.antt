-- ===== src/Quota/WeekStart.antt =====
-- SetQuotaWeekStart of internal/models/quota.go: the administrator moves the weekly anchor.
use shimiaocheng_llm.Prelude.{
  ℕ, ◌*◌, ◌/◌, ◌%◌, ◌≡◌, ◌≢◌, refl, ap, sym, ◌∙◌, inl, inr, Bool, true, false, List, [], Option,
  none, some, Text, text_eq, text_eq_refl, eq_of_text_eq, arith, ◌==◌, if◌then◌else◌, Bool-cases,
  Option-cases, subst,
}
use shimiaocheng_llm.GoTime.{Time, Layout, IsLayout, HasFourDigits, IsMinuteZone, utc, second}
use shimiaocheng_llm.Quota.{
  Quota, find, update_where, of_user, aligned_cycle_start, anchor, new_cycle,
}
use shimiaocheng_llm.Quota.Gate.{OnlyRow, update-OnlyRow}

-- The table, or the error of a text that is no time, or that of the database.
pub data SetReply : Type 0 where
  set : List Quota → SetReply
  invalid_week_start db_failed : SetReply

abbrev run : Bool → List Quota → SetReply
run writes rows = if writes then set rows else db_failed

abbrev move_anchor : Text → Text → Quota → Quota
move_anchor start now q = record q { week_start = start; updated_at = now }

abbrev open_cycle : Text → Text → Text → Quota → Quota
open_cycle start cycle now q = record q {
  week_start = start;
  week_cycle_start = cycle;
  token_week_used = 0;
  updated_at = now;
}

-- The anchor that the text stands for; empty means now.
unfoldable pub chosen_anchor : Layout → Text → Time → Option Time
chosen_anchor l start now =
    if text_eq start []
    then some (utc now)
    else elim (l.parse start) [ none ↦ none | some t ↦ some (utc t) ]

-- The statements at a given anchor. Where the row cannot be read, the last UPDATE is executed.
unfoldable pub set_anchor : Layout → (reads writes : Bool) → ℕ → Time → Time → List Quota → SetReply
set_anchor l reads writes user t now rows =
    let start = l.format t in
    let cycle = l.format (aligned_cycle_start t (utc now)) in
    let stamp = l.format (utc now) in
    let reopen = run writes (update_where (of_user user) (open_cycle start cycle stamp) rows) in
    if reads
    then elim (find user rows) [
      | none ↦ reopen
      | some q ↦
          if text_eq cycle q.week_cycle_start
          then if text_eq start q.week_start
            then set rows
            else run writes (update_where (of_user user) (move_anchor start stamp) rows)
          else reopen
    ]
    else reopen

-- `SetQuotaWeekStart`.
unfoldable pub set_quota_week_start :
    Layout → (reads writes : Bool) → ℕ → Text → Time → List Quota → SetReply
unfolding chosen_anchor set_anchor
set_quota_week_start l reads writes user start now rows = elim (chosen_anchor l start now) [
  | none ↦ invalid_week_start
  | some t ↦ set_anchor l reads writes user t now rows
]

-- The row of the user once the anchor is `t`: the use of the week is kept exactly when the current
-- cycle stays the one that it was counted in.
abbrev pub Anchored : Layout → Time → Time → Quota → Quota → Type 0
Anchored l t now q r =
    let cycle = l.format (aligned_cycle_start t (utc now)) in
    (r.week_start ≡ l.format t)
    × (r.week_cycle_start ≡ cycle)
    × (r.token_week_used ≡ (if text_eq cycle q.week_cycle_start then q.token_week_used else 0))
    × (r.token_week_limit ≡ q.token_week_limit)
    × (r.token_5h_used ≡ q.token_5h_used)
    × (r.token_total_used ≡ q.token_total_used)
    × (r.quota_5h_used ≡ q.quota_5h_used)
    × (r.quota_total_used ≡ q.quota_total_used)

set_anchor-row :
    (l : Layout) (user : ℕ) (t now : Time) (rows : List Quota) (q : Quota)
    → find user rows ≡ some q
    → (rows' : List Quota) × (r : Quota) × (set_anchor l true true user t now rows ≡ set rows')
      × OnlyRow user r rows rows'
      × Anchored l t now q r
unfolding set_anchor
set_anchor-row l user t now rows q e =
    let start = l.format t in
    let cycle = l.format (aligned_cycle_start t (utc now)) in
    let stamp = l.format (utc now) in
    elim (Bool-cases (text_eq cycle q.week_cycle_start)) [
      | inr moved ↦ (
        update_where (of_user user) (open_cycle start cycle stamp) rows,
        open_cycle start cycle stamp q,
        rw (e, set_anchor) (rw moved refl),
        update-OnlyRow (open_cycle start cycle stamp) user rows q (λ r. refl) e,
        (refl, refl, rw moved refl, refl, refl, refl, refl, refl),
      )
      | inl same ↦ elim (Bool-cases (text_eq start q.week_start)) [
        | inr other ↦ (
          update_where (of_user user) (move_anchor start stamp) rows,
          move_anchor start stamp q,
          rw (e, set_anchor) (rw (same, other) refl),
          update-OnlyRow (move_anchor start stamp) user rows q (λ r. refl) e,
          (refl, sym (eq_of_text_eq _ _ same), rw same refl, refl, refl, refl, refl, refl),
        )
        | inl equal ↦ (
          rows,
          q,
          rw (e, set_anchor) (rw (same, equal) refl),
          (e, λ v ne. refl),
          (
            sym (eq_of_text_eq _ _ equal),
            sym (eq_of_text_eq _ _ same),
            rw same refl,
            refl,
            refl,
            refl,
            refl,
            refl,
          ),
        )
      ]
    ]

-- Setting an anchor that parses, for a user with a row and with no failing statement, stores it
-- with the start of its current cycle, keeps the Token use of the week exactly when that cycle is
-- the one it was counted in and otherwise sets it to 0, and changes no limit of the week, no
-- other counter and no other user's row.
pub set_quota_week_start-Anchored :
    (l : Layout) (user : ℕ) (start : Text) (t now : Time) (rows : List Quota) (q : Quota)
    → chosen_anchor l start now ≡ some t
    → find user rows ≡ some q
    → (rows' : List Quota) × (r : Quota) × (set_quota_week_start l true true user start now rows
        ≡ set rows')
      × OnlyRow user r rows rows'
      × Anchored l t now q r
unfolding set_quota_week_start
set_quota_week_start-Anchored l user start t now rows q c e =
    let (rows', r, p, o, a) = set_anchor-row l user t now rows q e in
    (rows', r, rw (c, set_quota_week_start) p, o, a)

-- Saving the same anchor once more in the same cycle, for a user with a row and with no failing
-- statement, succeeds and leaves a table that a further saving does not change.
pub set_quota_week_start-again :
    (l : Layout) (user : ℕ) (start : Text) (t now later : Time) (rows : List Quota) (q : Quota)
    → chosen_anchor l start now ≡ some t
    → chosen_anchor l start later ≡ some t
    → aligned_cycle_start t (utc later) ≡ aligned_cycle_start t (utc now)
    → find user rows ≡ some q
    → (rows' : List Quota) × (set_quota_week_start l true true user start now rows ≡ set rows')
      × (set_quota_week_start l true true user start later rows' ≡ set rows')
unfolding set_quota_week_start
set_quota_week_start-again l user start t now later rows q c c' same e =
    let (rows', r, p, o, a) = set_anchor-row l user t now rows q e in
    (
      rows',
      rw (c, set_quota_week_start) p,
      rw (c', set_quota_week_start) (unchanged rows' r o.0 a.0 (a.1 ∙ sym (ap l.format same))),
    )
  where
    unchanged :
        (rows' : List Quota) (r : Quota)
        → find user rows' ≡ some r
        → r.week_start ≡ l.format t
        → r.week_cycle_start ≡ l.format (aligned_cycle_start t (utc later))
        → set_anchor l true true user t later rows' ≡ set rows'
    unchanged rows' r f s k =
        rw (f, set_anchor)
          (rw (s, k)
            (rw
              (
                text_eq_refl (l.format (aligned_cycle_start t (utc later))),
                text_eq_refl (l.format t),
              )
              refl))

-- A time on the second, other than the zero time.
abbrev pub IsWhole : Time → Type 0
IsWhole t = (t.nanos % second ≡ 0) × (t.nanos ≢ 0)

anchor-format :
    (l : Layout)
    → IsLayout l
    → (t now : Time) → utc t ≡ t
    → HasFourDigits t
    → IsWhole t
    → anchor l (l.format t) now ≡ t
unfolding anchor
anchor-format l laws t now u y (w, nz) =
    let e : t.nanos / second * second ≡ t.nanos = omega arith in
    let z : (t.nanos == 0) ≡ false = ground arith in
    let m : IsMinuteZone t.zone =
      subst (λ x. IsMinuteZone x.zone) u (refl, refl, omega arith, omega arith) in
    rw (laws.parse_format t y m, anchor) (rw e (rw z refl))

new_cycle-format :
    (l : Layout)
    → IsLayout l
    → (t now : Time) → utc t ≡ t
    → HasFourDigits t
    → IsWhole t
    → new_cycle l (l.format t) now ≡ l.format (aligned_cycle_start t (utc now))
unfolding new_cycle
new_cycle-format l laws t now u y w =
    ap (λ a. l.format (aligned_cycle_start a (utc now))) (anchor-format l laws t now u y w)

chosen_anchor-utc :
    (l : Layout) (start : Text) (now t : Time) → chosen_anchor l start now ≡ some t → utc t ≡ t
unfolding chosen_anchor
chosen_anchor-utc l start now t c = elim (Bool-cases (text_eq start [])) [
  | inl b ↦ let k = rw (b, chosen_anchor) at c in cc
  | inr b ↦ elim (Option-cases (l.parse start)) [
    | inl p ↦ let k = rw (b, p, chosen_anchor) at c in cc
    | inr (s, p) ↦ let k = rw (b, p, chosen_anchor) at c in cc
  ]
]

-- The gate agrees with the setter: after an anchor of whole seconds, in UTC before the year 10000
-- and other than the zero time, has been set for a user with a row and with no failing statement, the cycle that the gate
-- computes is the stored one at every instant of that cycle, so that it does not roll the weekly
-- bucket over.
pub set_quota_week_start-gate :
    (l : Layout)
    → IsLayout l
    → (user : ℕ) (start : Text) (t now later : Time) (rows : List Quota) (q : Quota)
    → chosen_anchor l start now ≡ some t
    → HasFourDigits t
    → IsWhole t
    → aligned_cycle_start t (utc later) ≡ aligned_cycle_start t (utc now)
    → find user rows ≡ some q
    → (rows' : List Quota) × (r : Quota) × (set_quota_week_start l true true user start now rows
        ≡ set rows')
      × (find user rows' ≡ some r)
      × (new_cycle l r.week_start later ≡ r.week_cycle_start)
set_quota_week_start-gate l laws user start t now later rows q c y w same e =
    let (rows', r, p, o, a) = set_quota_week_start-Anchored l user start t now rows q c e in
    let u = chosen_anchor-utc l start now t c in
    (rows', r, p, o.0, rw (a.0, a.1) (new_cycle-format l laws t later u y w ∙ ap l.format same))

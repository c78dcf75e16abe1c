-- ===== src/Quota/Scheduler.antt =====
-- internal/quota/scheduler.go: the ticks that start a new window of the 5-hour counters.
use native.Mathlib.Nat.{div-add-mod'}
use shimiaocheng_llm.Prelude.{
  ◌*◌, ◌/◌, ℕ, ◌%◌, ◌≡◌, ◌≢◌, refl, ◌⊎◌, inl, inr, Bool, true, false, not, ◌||◌, List, [], ◌∷◌,
  Option, none, some, arith, ◌==◌, if◌then◌else◌, Bool-cases, Option-cases, ap,
}
use shimiaocheng_llm.GoTime.{Time, Layout, hour_of, minute_of, date_at_hour}
use shimiaocheng_llm.Quota.{Quota, Reply, ok, db_error, panic, find, update_where}
use shimiaocheng_llm.Quota.Table.{map_option, find-update_all}
use shimiaocheng_llm.Quota.Resets.{window_start, reset_5h_quota, compensate_quota_reset}

-- The table after a statement whose error is only logged; a panic ends the process.
logged : List Quota → Reply (List Quota) → Option (List Quota)
logged rows (ok rows') = some rows'
logged rows db_error = some rows
logged rows panic = none

-- `tryReset`, at every tick; `none` is a panic.
unfoldable pub try_reset : Layout → Bool → ℕ → Time → List Quota → Option (List Quota)
unfolding logged
try_reset l writes interval now rows =
    if interval == 0
    then none
    else if not (hour_of now % interval == 0) || not (minute_of now == 0)
    then some rows
    else logged rows (reset_5h_quota l writes interval now rows)

-- `compensate`, once when the scheduler starts.
unfoldable pub compensate : Layout → Bool → ℕ → Time → List Quota → Option (List Quota)
unfolding logged
compensate l writes interval now rows =
    logged rows (compensate_quota_reset l writes interval now rows)

-- The ticks of a run, each with its instant and whether the database executes its statement.
unfoldable pub run_ticks : Layout → ℕ → List (Time × Bool) → List Quota → Option (List Quota)
run_ticks l interval [] rows = some rows
run_ticks l interval ((now, writes) ∷ ticks) rows = elim (try_reset l writes interval now rows) [
  | none ↦ none
  | some rows' ↦ run_ticks l interval ticks rows'
]

-- The row of a window that starts at `w`.
abbrev pub in_window : Layout → Time → Time → Quota → Quota
in_window l w now q = record q {
  quota_5h_used = 0;
  token_5h_used = 0;
  window_start = l.format w;
  updated_at = l.format now;
}

-- The first minute of a window.
abbrev pub IsBoundary : ℕ → Time → Type 0
IsBoundary interval now = (hour_of now % interval ≡ 0) × (minute_of now ≡ 0)

whole_windows : (h i : ℕ) → h % i ≡ 0 → h / i * i ≡ h
whole_windows h i e = omega (arith, div-add-mod' h i)

window_start-boundary :
    (interval : ℕ) (now : Time)
    → interval ≢ 0
    → hour_of now % interval ≡ 0
    → window_start interval now ≡ some (date_at_hour now (hour_of now))
unfolding window_start
window_start-boundary interval now nz e =
    let z : (interval == 0) ≡ false = ground arith in
    rw z (ap (λ h. some (date_at_hour now h)) (whole_windows (hour_of now) interval e))

reset_5h_quota-rows :
    (l : Layout) (interval : ℕ) (now : Time) (rows : List Quota) (v : ℕ)
    → interval ≢ 0
    → hour_of now % interval ≡ 0
    → (rows' : List Quota) × (reset_5h_quota l true interval now rows ≡ ok rows')
      × (find v rows' ≡ map_option (in_window l (date_at_hour now (hour_of now)) now) (find v rows))
unfolding reset_5h_quota
reset_5h_quota-rows l interval now rows v nz e =
    let w = date_at_hour now (hour_of now) in
    (
      update_where (λ q. true) (in_window l w now) rows,
      rw (window_start-boundary interval now nz e, reset_5h_quota) refl,
      find-update_all (in_window l w now) (λ q. refl) v rows,
    )

-- What a tick does to the row of a user.
abbrev pub TickSpec : Layout → ℕ → Time → List Quota → ℕ → Type 0
TickSpec l interval now rows v =
    (IsBoundary interval now
      × ((rows' : List Quota) × (try_reset l true interval now rows ≡ some rows')
          × (find v rows'
              ≡ map_option (in_window l (date_at_hour now (hour_of now)) now) (find v rows))))
    ⊎ ((¬ IsBoundary interval now) × (try_reset l true interval now rows ≡ some rows))

-- With an interval of at least an hour and an executed statement: a tick in the first minute of a
-- window starts the window over in every row, whatever has been used in it before, so that the
-- 5-hour counters become 0 and the window starts at the current full hour. A tick at any other
-- instant changes nothing.
pub try_reset-rows :
    (l : Layout) (interval : ℕ) (now : Time) (rows : List Quota) (v : ℕ)
    → interval ≢ 0
    → TickSpec l interval now rows v
unfolding try_reset
try_reset-rows l interval now rows v nz =
    elim (Bool-cases (not (hour_of now % interval == 0) || not (minute_of now == 0))) [
      | inl off ↦ inr (outside off, rw (zero, off) refl)
      | inr on ↦
          inl (inside on, reset on (reset_5h_quota-rows l interval now rows v nz (ground arith)))
    ]
  where
    zero : (interval == 0) ≡ false
    zero = ground arith

    outside :
        (not (hour_of now % interval == 0) || not (minute_of now == 0)) ≡ true
        → ¬ IsBoundary interval now
    outside off b = ground arith

    inside :
        (not (hour_of now % interval == 0) || not (minute_of now == 0)) ≡ false
        → IsBoundary interval now
    inside on = ground arith

    reset :
        (not (hour_of now % interval == 0) || not (minute_of now == 0)) ≡ false
        → (rows' : List Quota) × (reset_5h_quota l true interval now rows ≡ ok rows')
          × (find v rows'
              ≡ map_option (in_window l (date_at_hour now (hour_of now)) now) (find v rows))
        → (rows' : List Quota) × (try_reset l true interval now rows ≡ some rows')
          × (find v rows'
              ≡ map_option (in_window l (date_at_hour now (hour_of now)) now) (find v rows))
    reset on (rows', p, f) = (rows', rw (zero, on, p) refl, f)

try_reset-ne_none :
    (l : Layout) (writes : Bool) (interval : ℕ) (now : Time) (rows : List Quota)
    → interval ≢ 0
    → try_reset l writes interval now rows ≢ none
unfolding try_reset reset_5h_quota
try_reset-ne_none l writes interval now rows nz = ground arith

-- With an interval of at least an hour no run of ticks panics, failing statements included.
pub run_ticks-total :
    (l : Layout) (interval : ℕ) (ticks : List (Time × Bool)) (rows : List Quota)
    → interval ≢ 0
    → (rows' : List Quota) × (run_ticks l interval ticks rows ≡ some rows')
unfolding run_ticks
run_ticks-total l interval [] rows nz = (rows, refl)
run_ticks-total l interval ((now, writes) ∷ ticks) rows nz =
    elim (Option-cases (try_reset l writes interval now rows)) [
      | inl e ↦ absurd (try_reset-ne_none l writes interval now rows nz e)
      | inr (rows', e) ↦
          let (r, p) = run_ticks-total l interval ticks rows' nz in (r, rw (e, run_ticks) p)
    ]

-- ===== src/TimeUtil/Windows.antt =====
-- IsInRange of internal/timeutil/timeutil.go against minutes of the day.
use shimiaocheng_llm.Prelude.{
  ℕ, ◌+◌, ◌-◌, ◌%◌, ◌<◌, ◌≡◌, ◌≢◌, ◌&&◌, ◌||◌, not, Text, text_lt, ltb, if◌then◌else◌, arith,
  text_lt_asymm, text_lt_connected,
}
use shimiaocheng_llm.TimeUtil.{shanghai_minute, format_hhmm, is_in_range}

-- Clock texts are ordered as their minutes.
pub format_hhmm-lt :
    (a b : ℕ) → a < 1440 → b < 1440 → text_lt (format_hhmm a) (format_hhmm b) ≡ ltb a b
unfolding format_hhmm text_lt
format_hhmm-lt a b h k = ground arith

pub shanghai_minute-lt : (now : ℕ) → shanghai_minute now < 1440
unfolding shanghai_minute
shanghai_minute-lt now = omega arith

-- The minutes from `a` forward to `b` on a clock of 24 hours.
abbrev pub clock_gap : ℕ → ℕ → ℕ
clock_gap a b = (b + 1440 - a) % 1440

window_gap :
    (a b m : ℕ)
    → a < 1440
    → b < 1440
    → m < 1440
    → (if not (ltb b a) then not (ltb m a) && ltb m b else not (ltb m a) || ltb m b)
      ≡ ltb (clock_gap a m) (clock_gap a b)
window_gap a b m h k l = ground arith

-- For two clock times, `is_in_range` holds exactly when the walk round the clock from the start
-- reaches the current Shanghai minute strictly before the end; overnight windows included, and a
-- window whose ends are equal is empty.
pub is_in_range-eq-clock :
    (a b now : ℕ)
    → a < 1440
    → b < 1440
    → is_in_range (format_hhmm a) (format_hhmm b) now
      ≡ ltb (clock_gap a (shanghai_minute now)) (clock_gap a b)
unfolding is_in_range
is_in_range-eq-clock a b now h k =
    let m = shanghai_minute now in
    let l = shanghai_minute-lt now in
    rw (format_hhmm-lt b a k h, format_hhmm-lt m a l h, format_hhmm-lt m b l k)
      (window_gap a b m h k l)

-- Any two different texts split the day: at every instant exactly one of the window and the
-- window with its ends exchanged holds.
pub is_in_range-swap :
    (start end : Text) (now : ℕ)
    → start ≢ end
    → is_in_range end start now ≡ not (is_in_range start end now)
unfolding is_in_range
is_in_range-swap start end now ne =
    ground (arith, text_lt_asymm start end, text_lt_asymm end start, text_lt_connected start end)

-- ===== src/Router/Windows.antt =====
-- parseHHMM and windowMinutes of internal/router/selector.go.
use shimiaocheng_llm.Prelude.{ℕ, ◌<◌, ◌≡◌, [], ◌∷◌, some, Text, arith}
use shimiaocheng_llm.TimeUtil.{format_hhmm}
use shimiaocheng_llm.TimeUtil.Windows.{clock_gap}
use shimiaocheng_llm.Router.{parse_hhmm, window_minutes}

-- A minute of the day is read back from its clock text.
pub parse_hhmm-format : (m : ℕ) → m < 1440 → parse_hhmm (format_hhmm m) ≡ some m
unfolding parse_hhmm format_hhmm
parse_hhmm-format m h = ground arith

-- Whatever text is parsed, the minutes are below 1440.
pub parse_hhmm-lt : (v : Text) (m : ℕ) → parse_hhmm v ≡ some m → m < 1440
unfolding parse_hhmm
parse_hhmm-lt (a ∷ b ∷ c ∷ d ∷ e ∷ []) m h = ground arith
parse_hhmm-lt _ m h = ground arith

-- The width by which overlapping rules are ordered is the length of the window on the clock.
pub window_minutes-eq-clock :
    (a b : ℕ) → a < 1440 → b < 1440 → window_minutes (format_hhmm a) (format_hhmm b) ≡ clock_gap a b
unfolding window_minutes
window_minutes-eq-clock a b h k =
    rw (parse_hhmm-format a h, parse_hhmm-format b k, window_minutes) (ground arith)

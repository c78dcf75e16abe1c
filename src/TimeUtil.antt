-- ===== src/TimeUtil.antt =====
-- internal/timeutil/timeutil.go: the time windows and weekday masks that routing rules and time
-- multipliers share. An instant is a number of nanoseconds since the year 1, UTC.
pub mod Windows
pub mod Days
use shimiaocheng_llm.Prelude.{
  ℕ, ◌+◌, ◌*◌, ◌/◌, ◌%◌, Bool, true, false, ◌&&◌, ◌||◌, List, [], ◌∷◌, Text, text, text_eq, text_lt,
  text_le, leb, ◌==◌, if◌then◌else◌, any, not, suc, zero,
}

-- `time.Second` in nanoseconds.
abbrev pub second : ℕ
second = 1000000000

-- The zone `ShanghaiTZ`: eight hours ahead of UTC, without daylight saving time.
abbrev pub shanghai_offset : ℕ
shanghai_offset = 28800

-- The seconds since the year 1 on a Shanghai clock: `now.In(ShanghaiTZ)`.
pub shanghai_seconds : ℕ → ℕ
shanghai_seconds now = now / second + shanghai_offset

-- The minute of the day, 0 to 1439, of `now` in Shanghai.
unfoldable pub shanghai_minute : ℕ → ℕ
unfolding shanghai_seconds
shanghai_minute now = shanghai_seconds now / 60 % 1440

-- `now.In(ShanghaiTZ).Weekday()`, 0 for Sunday. The first day of the year 1 is a Monday.
unfoldable pub shanghai_weekday : ℕ → ℕ
unfolding shanghai_seconds
shanghai_weekday now = (shanghai_seconds now / 86400 + 1) % 7

-- The layout "15:04" at a minute of the day.
unfoldable pub format_hhmm : ℕ → Text
format_hhmm m =
    (48 + m / 60 / 10) ∷ (48 + m / 60 % 10) ∷ b':' ∷ (48 + m % 60 / 10) ∷ (48 + m % 60 % 10) ∷ []

-- `IsInRange`.
unfoldable pub is_in_range : Text → Text → ℕ → Bool
unfolding shanghai_minute format_hhmm
is_in_range start end now =
    let cur = format_hhmm (shanghai_minute now) in
    if text_le start end
    then text_le start cur && text_lt cur end
    else text_le start cur || text_lt cur end

-- `unicode.IsSpace`.
unfoldable pub is_space : ℕ → Bool
is_space c =
    (leb 9 c && leb c 13)
    || c == 32
    || c == 0x85
    || c == 0xA0
    || c == 0x1680
    || (leb 0x2000 c && leb c 0x200a)
    || c == 0x2028
    || c == 0x2029
    || c == 0x202f
    || c == 0x205f
    || c == 0x3000

unfoldable pub trim_left : Text → Text
trim_left [] = []
trim_left (c ∷ s) = if is_space c then trim_left s else c ∷ s

-- A character goes in front of what is left; white space in front of nothing is dropped.
trim_step : ℕ → Text → Text
trim_step c [] = if is_space c then [] else c ∷ []
trim_step c (d ∷ r) = c ∷ d ∷ r

unfoldable pub trim_right : Text → Text
unfolding trim_step
trim_right [] = []
trim_right (c ∷ s) = trim_step c (trim_right s)

-- `strings.TrimSpace`.
unfoldable pub trim_space : Text → Text
unfolding trim_left trim_right is_space
trim_space s = trim_right (trim_left s)

-- A character that is no separator goes to the field that it begins.
push_first : ℕ → List Text → List Text
push_first c [] = (c ∷ []) ∷ []
push_first c (w ∷ ws) = (c ∷ w) ∷ ws

-- `strings.Split` at one character.
unfoldable pub split : ℕ → Text → List Text
unfolding push_first
split sep [] = [] ∷ []
split sep (c ∷ s) = let rest = split sep s in if c == sep then [] ∷ rest else push_first c rest

-- `strconv.Itoa` at a number of one digit.
abbrev pub digit : ℕ → Text
digit n = (48 + n) ∷ []

-- `MatchDay`.
unfoldable pub match_day : Text → ℕ → Bool
unfolding shanghai_weekday trim_space split
match_day mask now =
    if text_eq mask (text "*") || text_eq mask []
    then true
    else any (λ d. text_eq (trim_space d) (digit (shanghai_weekday now))) (split b',' mask)

-- ===== src/GoTime.antt =====
-- What the program uses of Go's package time: instants with a zone, their arithmetic, and the
-- layout time.RFC3339 as a pair of functions that every user takes as an argument.
use shimiaocheng_llm.Prelude.{
  ℕ, ◌+◌, ◌-◌, ◌*◌, ◌/◌, ◌%◌, ◌^◌, min, Bool, Option, some, Text, ℤ, pos, pos_part, neg_part, ltb,
  ◌≡◌, ◌≢◌, ◌≤◌, ◌<◌, [], text_lt,
}

-- `nanos` counts nanoseconds since the year 1, UTC; `zone` is in seconds east of UTC.
pub record Time : Type 0 where
  pub nanos : ℕ
  pub zone : ℤ

abbrev pub second : ℕ
second = 1000000000

abbrev pub hour : ℕ
hour = 3600 * second

abbrev pub day : ℕ
day = 24 * hour

abbrev pub week : ℕ
week = 7 * day

-- The largest time.Duration, some 292 years.
abbrev pub max_duration : ℕ
max_duration = 2 ^ 63 - 1

-- `t.UTC()`.
abbrev pub utc : Time → Time
utc t = record t { zone = pos 0 }

-- `t.Add(d)` and `t.Add(-d)` for a duration that is not negative.
abbrev pub add : Time → ℕ → Time
add t d = record t { nanos = t.nanos + d }

abbrev pub sub : Time → ℕ → Time
sub t d = record t { nanos = t.nanos - d }

-- `t.Before(u)`.
abbrev pub before : Time → Time → Bool
before t u = ltb t.nanos u.nanos

-- `t.Sub(u)` where `t` is not before `u`: it saturates.
abbrev pub since : Time → Time → ℕ
since t u = min (t.nanos - u.nanos) max_duration

-- The seconds since the year 1 on a clock of the zone of `t`.
abbrev pub wall_seconds : Time → ℕ
wall_seconds t = t.nanos / second + pos_part t.zone - neg_part t.zone

-- `t.Hour()` and `t.Minute()`.
abbrev pub hour_of : Time → ℕ
hour_of t = wall_seconds t / 3600 % 24

abbrev pub minute_of : Time → ℕ
minute_of t = wall_seconds t / 60 % 60

-- `time.Date(t.Year(), t.Month(), t.Day(), h, 0, 0, 0, t.Location())`.
abbrev pub date_at_hour : Time → ℕ → Time
date_at_hour t h = record t {
  nanos = (t.nanos / second - wall_seconds t % 86400 + h * 3600) * second;
}

-- `t.Format(time.RFC3339)` and `time.Parse(time.RFC3339, s)`, which fails by `none`.
pub record Layout : Type 0 where
  pub format : Time → Text
  pub parse : Text → Option Time

-- The seconds from the year 1 to the year 10000.
abbrev pub four_digit_seconds : ℕ
four_digit_seconds = 3652059 * 86400

-- A clock of the zone of `t` shows a year from 1 to 9999, so that the text has four digits for it.
abbrev pub HasFourDigits : Time → Type 0
HasFourDigits t =
    (neg_part t.zone ≤ t.nanos / second + pos_part t.zone)
    × (t.nanos / second + pos_part t.zone < four_digit_seconds + neg_part t.zone)

-- A zone of whole minutes, below a day: the text has no seconds of the zone.
abbrev pub IsMinuteZone : ℤ → Type 0
IsMinuteZone z =
    (pos_part z % 60 ≡ 0) × (neg_part z % 60 ≡ 0) × (pos_part z < 86400) × (neg_part z < 86400)

-- What the program relies on, in the years and zones that the layout can write: a text that was
-- formatted is read back to the second.
pub record IsLayout (l : Layout) : Type 0 where
  pub parse_format :
      (t : Time)
      → HasFourDigits t
      → IsMinuteZone t.zone
      → l.parse (l.format t) ≡ some (record t { nanos = t.nanos / second * second })
  -- Texts of one zone are ordered as their instants.
  pub format_lt :
      (t u : Time)
      → t.zone ≡ u.zone
      → HasFourDigits t
      → HasFourDigits u
      → text_lt (l.format t) (l.format u) ≡ ltb (t.nanos / second) (u.nanos / second)
  pub format_filled : (t : Time) → l.format t ≢ []

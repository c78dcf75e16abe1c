-- ===== src/Examples/Clocks.antt =====
-- Windows of the day, weekday masks and multipliers.
use shimiaocheng_llm.Prelude.{◌≡◌, ◌⊎◌, true, false, [], ◌∷◌, text, arith, ltb, In}
use shimiaocheng_llm.Float64.{one, gt}
use shimiaocheng_llm.TimeUtil.{is_in_range, format_hhmm, shanghai_minute}
use shimiaocheng_llm.TimeUtil.Windows.{clock_gap, is_in_range-eq-clock}
use shimiaocheng_llm.Multiplier.{TimeMultiplier, Table, applies, get_effective_multiplier}
use shimiaocheng_llm.Multiplier.Effective.{get_effective_multiplier-max}
use shimiaocheng_llm.Examples.Data.{now}

-- An overnight window, from 22:00 to 06:00, at noon UTC.
is_in_range-eq-clock_example :
    is_in_range (format_hhmm 1320) (format_hhmm 360) now.nanos
    ≡ ltb (clock_gap 1320 (shanghai_minute now.nanos)) (clock_gap 1320 360)
is_in_range-eq-clock_example = is_in_range-eq-clock 1320 360 now.nanos (omega arith) (omega arith)

abbrev double : TimeMultiplier
double = record {
  id = 3;
  start_time = text "08:00";
  end_time = text "23:00";
  multiplier = record { mantissa = 2; shift = 0 };
  days_of_week = text "*";
  enabled = true;
  created_at = [];
}

abbrev table : Table
table = record { rows = double ∷ []; next_id = 4 }

get_effective_multiplier-max_example :
    let m = get_effective_multiplier true table now in
    (gt one m ≡ false)
    × ((r : TimeMultiplier)
        → In r table.rows
        → r.enabled ≡ true
        → applies now.nanos r ≡ true
        → gt r.multiplier m ≡ false)
    × ((m ≡ one)
        ⊎ ((r : TimeMultiplier) × In r table.rows
            × (r.enabled ≡ true)
            × (applies now.nanos r ≡ true)
            × (m ≡ r.multiplier)))
    × (get_effective_multiplier false table now ≡ one)
get_effective_multiplier-max_example = get_effective_multiplier-max table now

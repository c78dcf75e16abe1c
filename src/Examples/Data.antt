-- ===== src/Examples/Data.antt =====
-- A layout, rows and instants for the runs.
use shimiaocheng_llm.Prelude.{
  ℕ, zero, suc, ◌+◌, ◌-◌, ◌*◌, ◌/◌, ◌≡◌, refl, inr, List, [], ◌∷◌, Option, none, some, Text,
  text_eq, text_lt, ℤ, pos, negsuc, pos_part, neg_part, ltb, arith, text_lt_irrefl,
}
use shimiaocheng_llm.GoTime.{Time, Layout, IsLayout, HasFourDigits, second, hour, day}
use shimiaocheng_llm.Quota.{Quota, find, new_cycle, aligned_cycle_start, anchor}
use shimiaocheng_llm.Quota.Table.{IsUnique}
use shimiaocheng_llm.Quota.Gate.{HasRoom, rolled, roll}

unfoldable pub zone_of : ℕ → ℕ → ℤ
zone_of p zero = pos p
zone_of p (suc n) = negsuc n

unfoldable pub decode : Text → Option Time
unfolding zone_of
decode (s ∷ p ∷ n ∷ []) = some (record { nanos = s * second; zone = zone_of p n })
decode _ = none

-- The seconds and the zone, each as one character.
abbrev pub layout : Layout
layout = record {
  format = λ t. t.nanos / second ∷ pos_part t.zone ∷ neg_part t.zone ∷ [];
  parse = decode;
}

zone_of-parts : (z : ℤ) → zone_of (pos_part z) (neg_part z) ≡ z
unfolding zone_of
zone_of-parts (pos n) = refl
zone_of-parts (negsuc n) = refl

pub layout-IsLayout : IsLayout layout
unfolding decode text_lt
layout-IsLayout = record {
  parse_format = λ t y z. rw (zone_of-parts t.zone) refl;
  format_lt = λ t u e y y'. ordered t u e;
  format_filled = λ t e. filled e;
}
  where
    filled : {c : ℕ} {s : Text} → ◌≡◌ {A = Text} (c ∷ s) [] → ⊥
    filled e = cc

    ordered :
        (t u : Time)
        → t.zone ≡ u.zone
        → text_lt (layout.format t) (layout.format u) ≡ ltb (t.nanos / second) (u.nanos / second)
    ordered t u e = rw e (ground (arith, text_lt_irrefl (pos_part u.zone ∷ neg_part u.zone ∷ [])))

-- Noon of 2026-03-04, UTC, and later instants.
abbrev pub now : Time
now = record { nanos = 63908222400 * second; zone = pos 0 }

abbrev pub later : Time
later = record now { nanos = now.nanos + hour }

pub later-HasFourDigits : HasFourDigits later
later-HasFourDigits = (omega arith, omega arith)

-- Ten days before: the anchor of the weeks.
abbrev pub anchor_time : Time
anchor_time = record now { nanos = now.nanos - 10 * day }

-- 8 of 10 calls used, in a week that is over and a 30-day bucket that is running.
abbrev pub sample : Quota
sample = record {
  user_id = 7;
  quota_5h_limit = 10;
  quota_5h_used = 8;
  quota_total_limit = 100;
  quota_total_used = 50;
  token_total_limit = 1000;
  token_total_used = 900;
  token_5h_limit = 500;
  token_5h_used = 100;
  token_week_limit = 2000;
  token_week_used = 2500;
  week_start = layout.format anchor_time;
  week_cycle_start = layout.format anchor_time;
  month_start = layout.format anchor_time;
  window_start = layout.format now;
  updated_at = layout.format anchor_time;
  fixed_multiplier = none;
}

-- The same row for user 8, in its running week.
abbrev pub other : Quota
other = record sample { user_id = 8; token_week_used = 10 }

abbrev pub rows : List Quota
rows = other ∷ sample ∷ []

pub rows-IsUnique : IsUnique rows
rows-IsUnique = ((refl, tt), (tt, tt))

pub rows-sample : find 7 rows ≡ some sample
unfolding find
rows-sample = refl

pub sample-HasRoom : HasRoom 2 (rolled layout now sample)
unfolding roll new_cycle aligned_cycle_start anchor text_eq text_lt decode
sample-HasRoom = record {
  count_5h = inr (omega arith);
  count_total = inr (omega arith);
  tokens_total = inr (omega arith);
  tokens_5h = inr (omega arith);
  tokens_week = inr (omega arith);
}

-- ===== src/Examples/Cycles.antt =====
-- Weekly anchors and cycles on a sample table.
use shimiaocheng_llm.Prelude.{◌≡◌, refl, true, List, some, Text, text_eq, arith}
use shimiaocheng_llm.GoTime.{HasFourDigits, utc}
use shimiaocheng_llm.Quota.{Quota, find, aligned_cycle_start, new_cycle}
use shimiaocheng_llm.Quota.Gate.{OnlyRow}
use shimiaocheng_llm.Quota.WeekStart.{
  set, set_quota_week_start, chosen_anchor, Anchored, IsWhole, set_quota_week_start-Anchored,
  set_quota_week_start-gate,
}
use shimiaocheng_llm.Examples.Data.{
  layout, layout-IsLayout, now, later, anchor_time, sample, rows, rows-sample, decode,
}

abbrev start : Text
start = layout.format anchor_time

chosen-now : chosen_anchor layout start now ≡ some anchor_time
unfolding chosen_anchor text_eq decode
chosen-now = refl

same_cycle : aligned_cycle_start anchor_time (utc later) ≡ aligned_cycle_start anchor_time (utc now)
unfolding aligned_cycle_start
same_cycle = refl

set_quota_week_start-Anchored_example :
    (rows' : List Quota) × (r : Quota) × (set_quota_week_start layout true true 7 start now rows
      ≡ set rows')
    × OnlyRow 7 r rows rows'
    × Anchored layout anchor_time now sample r
set_quota_week_start-Anchored_example =
    set_quota_week_start-Anchored layout 7 start anchor_time now rows sample chosen-now rows-sample

anchor-IsWhole : IsWhole anchor_time
anchor-IsWhole = (refl, λ e. omega arith)

anchor-HasFourDigits : HasFourDigits anchor_time
anchor-HasFourDigits = (omega arith, omega arith)

set_quota_week_start-gate_example :
    (rows' : List Quota) × (r : Quota) × (set_quota_week_start layout true true 7 start now rows
      ≡ set rows')
    × (find 7 rows' ≡ some r)
    × (new_cycle layout r.week_start later ≡ r.week_cycle_start)
set_quota_week_start-gate_example =
    set_quota_week_start-gate layout layout-IsLayout 7 start anchor_time now later rows sample
      chosen-now anchor-HasFourDigits anchor-IsWhole same_cycle rows-sample

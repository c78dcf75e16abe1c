-- ===== src/Examples/Quotas.antt =====
-- The gate, the checks, refunds, accounting and resets on a sample table.
use shimiaocheng_llm.Prelude.{◌≡◌, refl, inr, true, List, [], some, Text, pos, arith}
use shimiaocheng_llm.Quota.{Quota, ok, find, atomic_deduct_quota}
use shimiaocheng_llm.Quota.Gate.{GateSpec, OnlyRow, Within, rolled, atomic_deduct_quota-refines}
use shimiaocheng_llm.Quota.Accounting.{Overshoots, deduct-refund, deduct-account}
use shimiaocheng_llm.Quota.Usage.{refund_quota_usage, add_token_usage}
use shimiaocheng_llm.Quota.Checker.{check_availability, check_availability_sound}
use shimiaocheng_llm.Quota.Resets.{reset_quota_usage, reset_quota_usage-revives}
use shimiaocheng_llm.Examples.Data.{
  layout, now, later, sample, other, rows, rows-IsUnique, rows-sample, sample-HasRoom,
}

atomic_deduct_quota-refines_example : GateSpec layout 7 2 now rows sample
atomic_deduct_quota-refines_example =
    atomic_deduct_quota-refines layout 7 2 now rows sample rows-IsUnique rows-sample

deduct-refund_example :
    (rows' rows'' : List Quota) × (stamp : Text) × (atomic_deduct_quota layout true true 7 2 now
        rows
      ≡ ok (rows', true))
    × (refund_quota_usage layout true 7 2 later rows' ≡ ok rows'')
    × OnlyRow 7 (record (rolled layout now sample) { updated_at = stamp }) rows rows''
deduct-refund_example =
    deduct-refund layout 7 2 now later rows sample rows-IsUnique rows-sample sample-HasRoom

deduct-account_example :
    (rows' rows'' : List Quota) × (r : Quota) × (atomic_deduct_quota layout true true 7 2 now rows
      ≡ ok (rows', true))
    × (add_token_usage true 7 (pos 120) rows' ≡ ok rows'')
    × (find 7 rows'' ≡ some r)
    × Within r.quota_5h_limit r.quota_5h_used
    × Within r.quota_total_limit r.quota_total_used
    × Overshoots r.token_total_limit r.token_total_used 120
    × Overshoots r.token_5h_limit r.token_5h_used 120
    × Overshoots r.token_week_limit r.token_week_used 120
deduct-account_example =
    deduct-account layout 7 2 (pos 120) now rows sample rows-IsUnique rows-sample sample-HasRoom

-- The row of user 8, whose week is under its limit.
rows-other : find 8 rows ≡ some other
unfolding find
rows-other = refl

other-available : check_availability true 8 2 rows ≡ ok (true, pos 2, pos 50)
unfolding check_availability find
other-available = refl

check_availability_sound_example :
    (rows' : List Quota) × (atomic_deduct_quota layout true true 8 2 now rows ≡ ok (rows', true))
check_availability_sound_example =
    check_availability_sound layout 8 2 now rows other (pos 2) (pos 50) rows-IsUnique rows-other
      other-available

reset_quota_usage-revives_example :
    (rows' rows'' : List Quota) × (reset_quota_usage layout true true 7 [] now rows ≡ ok rows')
    × (atomic_deduct_quota layout true true 7 10 later rows' ≡ ok (rows'', true))
reset_quota_usage-revives_example =
    reset_quota_usage-revives layout 7 10 [] now later rows sample rows-IsUnique rows-sample
      (inr (omega arith)) (inr (omega arith))

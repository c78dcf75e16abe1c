-- ===== src/Quota/Accounting.antt =====
-- Deduction, refund and Token accounting of internal/models/quota.go, one after the other.
use shimiaocheng_llm.Prelude.{
  ℕ, ◌+◌, ◌<◌, ◌≡◌, refl, ◌∙◌, inl, inr, ◌⊎◌, true, List, some, Text, arith, ◌==◌, if◌then◌else◌,
  Bool-cases, ℤ, pos, pos_part, ◌<ℤ◌,
}
use shimiaocheng_llm.GoTime.{Time, Layout}
use shimiaocheng_llm.Quota.{Quota, ok, find, update_where, of_user, atomic_deduct_quota}
use shimiaocheng_llm.Quota.Table.{IsUnique}
use shimiaocheng_llm.Quota.Gate.{
  HasRoom, Within, GateSpec, OnlyRow, rolled, charge, atomic_deduct_quota-refines, update-OnlyRow,
}
use shimiaocheng_llm.Quota.Usage.{refund, refund_quota_usage, add_tokens, add_token_usage}

-- The row after a refund of any number of calls.
abbrev pub refunded : Text → ℕ → Quota → Quota
refunded now calls q = if calls == 0 then q else refund now calls q

pub refund-OnlyRow :
    (l : Layout) (user calls : ℕ) (now : Time) (rows : List Quota) (q : Quota)
    → find user rows ≡ some q
    → (rows' : List Quota) × (refund_quota_usage l true user calls now rows ≡ ok rows')
      × OnlyRow user (refunded (l.format now) calls q) rows rows'
unfolding refund_quota_usage
refund-OnlyRow l user calls now rows q e = elim (Bool-cases (calls == 0)) [
  | inl z ↦ (rows, rw z refl, rw z (e, λ v ne. refl))
  | inr nz ↦ (
    update_where (of_user user) (refund (l.format now) calls) rows,
    rw nz refl,
    rw nz (update-OnlyRow (refund (l.format now) calls) user rows q (λ r. refl) e),
  )
]

-- The row after the accounting of any number of Tokens.
abbrev pub accounted : ℤ → Quota → Quota
accounted delta q = if delta <ℤ pos 1 then q else add_tokens (pos_part delta) q

pub add-OnlyRow :
    (user : ℕ) (delta : ℤ) (rows : List Quota) (q : Quota)
    → find user rows ≡ some q
    → (rows' : List Quota) × (add_token_usage true user delta rows ≡ ok rows')
      × OnlyRow user (accounted delta q) rows rows'
unfolding add_token_usage
add-OnlyRow user delta rows q e = elim (Bool-cases (delta <ℤ pos 1)) [
  | inl z ↦ (rows, rw z refl, rw z (e, λ v ne. refl))
  | inr nz ↦ (
    update_where (of_user user) (add_tokens (pos_part delta)) rows,
    rw nz refl,
    rw nz (update-OnlyRow (add_tokens (pos_part delta)) user rows q (λ r. refl) e),
  )
]

pub OnlyRow-trans :
    (user : ℕ) (q r : Quota) (a b c : List Quota)
    → OnlyRow user q a b
    → OnlyRow user r b c
    → OnlyRow user r a c
OnlyRow-trans user q r a b c h k = (k.0, λ v ne. k.1 v ne ∙ h.1 v ne)

-- A gate that has room, by its result.
pub gate_passes :
    (l : Layout) (user calls : ℕ) (now : Time) (rows : List Quota) (q : Quota)
    → IsUnique rows
    → find user rows ≡ some q
    → HasRoom calls (rolled l now q)
    → (rows' : List Quota) × (atomic_deduct_quota l true true user calls now rows
        ≡ ok (rows', true))
      × OnlyRow user (charge (l.format now) calls (rolled l now q)) rows rows'
gate_passes l user calls now rows q u e room =
    passed (atomic_deduct_quota-refines l user calls now rows q u e)
  where
    passed :
        GateSpec l user calls now rows q
        → (rows' : List Quota) × (atomic_deduct_quota l true true user calls now rows
            ≡ ok (rows', true))
          × OnlyRow user (charge (l.format now) calls (rolled l now q)) rows rows'
    passed (inl (_, (rows', p, o))) = (rows', p, o)
    passed (inr (full, p)) = absurd (full room)

-- A request that has room at the gate and is refunded later, no statement failing and the user
-- having one row, costs nothing: the user's row is the row as rolled over at the deduction, with
-- a new updated_at only, and no other row changes.
pub deduct-refund :
    (l : Layout) (user calls : ℕ) (now later : Time) (rows : List Quota) (q : Quota)
    → IsUnique rows
    → find user rows ≡ some q
    → HasRoom calls (rolled l now q)
    → (rows' rows'' : List Quota) × (stamp : Text) × (atomic_deduct_quota l true true user calls now
          rows
        ≡ ok (rows', true))
      × (refund_quota_usage l true user calls later rows' ≡ ok rows'')
      × OnlyRow user (record (rolled l now q) { updated_at = stamp }) rows rows''
deduct-refund l user calls now later rows q u e room =
    let (rows', p, o) = gate_passes l user calls now rows q u e room in
    let (rows'', p', o') =
      refund-OnlyRow l user calls later rows' (charge (l.format now) calls (rolled l now q)) o.0 in
    (
      rows',
      rows'',
      (if calls == 0 then l.format now else l.format later),
      p,
      p',
      rw (← restored (l.format now) (l.format later) calls (rolled l now q))
          (OnlyRow-trans user _ _ rows rows' rows'' o o'),
    )
  where
    restored :
        (now later : Text) (calls : ℕ) (r : Quota)
        → refunded later calls (charge now calls r)
          ≡ record r { updated_at = if calls == 0 then now else later }
    restored now later calls r = ground arith

-- How far one request can push a Token bucket past its limit.
abbrev pub Overshoots : ℕ → ℕ → ℕ → Type 0
Overshoots limit used delta = (limit ≡ 0) ⊎ (used < limit + delta)

-- After a request that has room at the gate has been accounted with `delta` Tokens, no statement
-- failing and the user having one row, both call counters are within their limits, and each
-- limited Token bucket exceeds its limit by less than `delta` or, where `delta` is not positive, is
-- below it.
pub deduct-account :
    (l : Layout) (user calls : ℕ) (delta : ℤ) (now : Time) (rows : List Quota) (q : Quota)
    → IsUnique rows
    → find user rows ≡ some q
    → HasRoom calls (rolled l now q)
    → (rows' rows'' : List Quota) × (r : Quota) × (atomic_deduct_quota l true true user calls now
          rows
        ≡ ok (rows', true))
      × (add_token_usage true user delta rows' ≡ ok rows'')
      × (find user rows'' ≡ some r)
      × Within r.quota_5h_limit r.quota_5h_used
      × Within r.quota_total_limit r.quota_total_used
      × Overshoots r.token_total_limit r.token_total_used (pos_part delta)
      × Overshoots r.token_5h_limit r.token_5h_used (pos_part delta)
      × Overshoots r.token_week_limit r.token_week_used (pos_part delta)
deduct-account l user calls delta now rows q u e room =
    let (rows', p, o) = gate_passes l user calls now rows q u e room in
    let (rows'', p', o') =
      add-OnlyRow user delta rows' (charge (l.format now) calls (rolled l now q)) o.0 in
    let b = bounds (rolled l now q) room in
    (
      rows',
      rows'',
      accounted delta (charge (l.format now) calls (rolled l now q)),
      p,
      p',
      o'.0,
      b.0,
      b.1,
      b.2,
      b.3,
      b.4,
    )
  where
    bounds :
        (r : Quota)
        → HasRoom calls r
        → let s = accounted delta (charge (l.format now) calls r) in
          Within s.quota_5h_limit s.quota_5h_used
          × Within s.quota_total_limit s.quota_total_used
          × Overshoots s.token_total_limit s.token_total_used (pos_part delta)
          × Overshoots s.token_5h_limit s.token_5h_used (pos_part delta)
          × Overshoots s.token_week_limit s.token_week_used (pos_part delta)
    bounds r h = ground arith

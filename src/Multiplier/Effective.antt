-- ===== src/Multiplier/Effective.antt =====
-- GetEffectiveMultiplier of internal/quota/multiplier.go: the largest multiplier that applies.
use shimiaocheng_llm.Prelude.{
  ℕ, ◌≡◌, refl, sym, ap, ◌∙◌, ◌⊎◌, inl, inr, true, false, ◌&&◌, List, [], ◌∷◌, arith, Bool-cases,
  and_parts, All, In, All-In,
}
use shimiaocheng_llm.Float64.{Float64, one, gt, gt_trans, gt_irrefl, gt_asymm}
use shimiaocheng_llm.GoTime.{Time}
use shimiaocheng_llm.Multiplier.{
  TimeMultiplier, Table, enabled_rows, applies, max_multiplier, get_effective_multiplier,
}

-- The result of the loop: not below the start, not below any multiplier that applies, and one
-- of these.
record IsMax (now : ℕ) (best : Float64) (rules : List TimeMultiplier) (m : Float64) : Type 0 where
  above_start : gt best m ≡ false
  above_rules : All (λ r. applies now r ≡ true → gt r.multiplier m ≡ false) rules
  attained :
      (m ≡ best) ⊎ ((r : TimeMultiplier) × In r rules × (applies now r ≡ true) × (m ≡ r.multiplier))

max_multiplier-IsMax :
    (now : ℕ) (best : Float64) (rules : List TimeMultiplier)
    → IsMax now best rules (max_multiplier now best rules)
unfolding max_multiplier
max_multiplier-IsMax now best [] = record {
  above_start = gt_irrefl best;
  above_rules = tt;
  attained = inl refl;
}
max_multiplier-IsMax now best (r ∷ rs) = elim (Bool-cases (applies now r && gt r.multiplier best)) [
  | inl e ↦ rw e (raised (and_parts _ _ e) (max_multiplier-IsMax now r.multiplier rs))
  | inr e ↦ rw e (kept e (max_multiplier-IsMax now best rs))
]
  where
    raised :
        (applies now r ≡ true) × (gt r.multiplier best ≡ true)
        → IsMax now r.multiplier rs (max_multiplier now r.multiplier rs)
        → IsMax now best (r ∷ rs) (max_multiplier now r.multiplier rs)
    raised (a, g) m = record {
      above_start = gt_trans _ _ _ (gt_asymm r.multiplier best g) m.above_start;
      above_rules = ((λ _. m.above_start), m.above_rules);
      attained = elim m.attained [
        | inl p ↦ inr (r, inl refl, a, p)
        | inr (s, i, b, p) ↦ inr (s, inr i, b, p)
      ];
    }

    kept :
        (applies now r && gt r.multiplier best) ≡ false
        → IsMax now best rs (max_multiplier now best rs)
        → IsMax now best (r ∷ rs) (max_multiplier now best rs)
    kept e m = record {
      above_start = m.above_start;
      above_rules = ((λ a. gt_trans _ _ _ (not_above e a) m.above_start), m.above_rules);
      attained = elim m.attained [ inl p ↦ inl p | inr (s, i, b, p) ↦ inr (s, inr i, b, p) ];
    }
      where
        not_above :
            (applies now r && gt r.multiplier best) ≡ false
            → applies now r ≡ true
            → gt r.multiplier best ≡ false
        not_above e a = ground arith

enabled-cons :
    (s : TimeMultiplier) (rows : List TimeMultiplier)
    → s.enabled ≡ true
    → enabled_rows (s ∷ rows) ≡ s ∷ enabled_rows rows
unfolding enabled_rows
enabled-cons s rows k = ground arith

disabled-cons :
    (s : TimeMultiplier) (rows : List TimeMultiplier)
    → s.enabled ≡ false
    → enabled_rows (s ∷ rows) ≡ enabled_rows rows
unfolding enabled_rows
disabled-cons s rows k = ground arith

enabled_rows-nil : enabled_rows [] ≡ []
unfolding enabled_rows
enabled_rows-nil = refl

In-enabled :
    (r : TimeMultiplier) (rows : List TimeMultiplier)
    → In r rows
    → r.enabled ≡ true
    → In r (enabled_rows rows)
In-enabled r [] i e = absurd i
In-enabled r (s ∷ rows) (inl p) e =
    rw (enabled-cons s rows (sym (ap (λ (t : TimeMultiplier). t.enabled) p) ∙ e)) (inl p)
In-enabled r (s ∷ rows) (inr i) e = elim (Bool-cases s.enabled) [
  | inl k ↦ rw (enabled-cons s rows k) (inr (In-enabled r rows i e))
  | inr k ↦ rw (disabled-cons s rows k) (In-enabled r rows i e)
]

enabled-In :
    (r : TimeMultiplier) (rows : List TimeMultiplier)
    → In r (enabled_rows rows)
    → In r rows × (r.enabled ≡ true)
enabled-In r [] i = absurd (rw enabled_rows-nil at i)
enabled-In r (s ∷ rows) i = elim (Bool-cases s.enabled) [
  | inl k ↦ head k (enabled-In r rows) (rw (enabled-cons s rows k) at i)
  | inr k ↦ let (j, e) = enabled-In r rows (rw (disabled-cons s rows k) at i) in (inr j, e)
]
  where
    head :
        s.enabled ≡ true
        → (In r (enabled_rows rows) → In r rows × (r.enabled ≡ true))
        → In r (s ∷ enabled_rows rows)
        → In r (s ∷ rows) × (r.enabled ≡ true)
    head k rest (inl p) = (inl p, ap (λ (t : TimeMultiplier). t.enabled) p ∙ k)
    head k rest (inr j) = let (m, e) = rest j in (inr m, e)

-- The multiplier in effect is at least 1, at least that of every enabled rule that applies now, and
-- is 1 or the multiplier of such a rule: so it is 1 where none applies, and the order of the
-- rows plays no part in its size. Where the rules cannot be read it is 1.
pub get_effective_multiplier-max :
    (t : Table) (now : Time)
    → let m = get_effective_multiplier true t now in
      (gt one m ≡ false)
      × ((r : TimeMultiplier)
          → In r t.rows
          → r.enabled ≡ true
          → applies now.nanos r ≡ true
          → gt r.multiplier m ≡ false)
      × ((m ≡ one)
          ⊎ ((r : TimeMultiplier) × In r t.rows
              × (r.enabled ≡ true)
              × (applies now.nanos r ≡ true)
              × (m ≡ r.multiplier)))
      × (get_effective_multiplier false t now ≡ one)
unfolding get_effective_multiplier
get_effective_multiplier-max t now =
    let m = max_multiplier-IsMax now.nanos one (enabled_rows t.rows) in
    (
      m.above_start,
      (λ r i e a.
          All-In (λ r. applies now.nanos r ≡ true → gt r.multiplier _ ≡ false) r
            (enabled_rows t.rows) m.above_rules (In-enabled r t.rows i e) a),
      elim m.attained [
        | inl p ↦ inl p
        | inr (r, i, a, p) ↦ let (j, e) = enabled-In r t.rows i in inr (r, j, e, a, p)
      ],
      refl,
    )

-- ===== src/Security/Mask.antt =====
-- MaskKey of encrypt.go: what a masked key shows.
use shimiaocheng_llm.Prelude.{
  ℕ, zero, suc, ◌+◌, ◌-◌, ◌≤◌, ◌≡◌, refl, ap, sym, ◌∙◌, subst, false, [], ◌∷◌, ◌++◌, Text, ltb, leb,
  length, take, drop, arith, take-append, drop-append, length-append,
}
use shimiaocheng_llm.Security.{mask_key, stars}

length-stars : (n : ℕ) → length (stars n) ≡ n
unfolding stars
length-stars zero = refl
length-stars (suc n) = omega (arith, length-stars n)

append_assoc : (a b c : Text) → (a ++ b) ++ c ≡ a ++ (b ++ c)
append_assoc [] b c = refl
append_assoc (x ∷ a) b c = ap (λ t. x ∷ t) (append_assoc a b c)

module _ (front middle back : Text) (f : length front ≡ 4) (b : length back ≡ 4)
    (m : 1 ≤ length middle) where
  total : length (front ++ (middle ++ back)) ≡ length middle + 8
  total = omega (arith, length-append front (middle ++ back), length-append middle back, f, b)

  first_four : take 4 (front ++ (middle ++ back)) ≡ front
  first_four =
      subst (λ n. take n (front ++ (middle ++ back)) ≡ front) f (take-append front (middle ++ back))

  last_four : drop (length (front ++ (middle ++ back)) - 4) (front ++ (middle ++ back)) ≡ back
  last_four =
      subst (λ n. drop n (front ++ (middle ++ back)) ≡ back) count
        (subst (λ t. drop (length (front ++ middle)) t ≡ back) (append_assoc front middle back)
          (drop-append (front ++ middle) back))
    where
      count : length (front ++ middle) ≡ length (front ++ (middle ++ back)) - 4
      count = omega (arith, total, length-append front middle, f)

  -- The mask of a key longer than 8: its first four characters, asterisks, its last four.
  pub mask_long : mask_key (front ++ (middle ++ back)) ≡ front ++ (stars (length middle) ++ back)
  unfolding mask_key
  mask_long =
      rw (short, mid, first_four, last_four, between)
        (append_assoc front (stars (length middle)) back)
    where
      short : ltb (length (front ++ (middle ++ back))) 4 ≡ false
      short = ground (arith, total)

      mid : leb (length (front ++ (middle ++ back))) 8 ≡ false
      mid = ground (arith, total, m)

      between : length (front ++ (middle ++ back)) - 8 ≡ length middle
      between = omega (arith, total)

-- Keys longer than 8 that differ only between their first and last four characters are shown alike,
-- by as many characters as they have.
pub mask_key-hides :
    (front middle other back : Text)
    → length front ≡ 4
    → length back ≡ 4
    → 1 ≤ length middle
    → length other ≡ length middle
    → (mask_key (front ++ (middle ++ back)) ≡ mask_key (front ++ (other ++ back)))
      × (length (mask_key (front ++ (middle ++ back))) ≡ length (front ++ (middle ++ back)))
mask_key-hides front middle other back f b m same = (
  mask_long front middle back f b m
      ∙ ap (λ n. front ++ (stars n ++ back)) (sym same)
      ∙ sym (mask_long front other back f b (omega (arith, same, m))),
  rw (mask_long front middle back f b m) counted,
)
  where
    counted : length (front ++ (stars (length middle) ++ back)) ≡ length (front ++ (middle ++ back))
    counted = omega (
      arith,
      length-append front (stars (length middle) ++ back),
      length-append (stars (length middle)) back,
      length-stars (length middle),
      length-append front (middle ++ back),
      length-append middle back,
    )

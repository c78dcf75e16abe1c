-- ===== src/Float64.antt =====
-- The float64 multipliers of the program, which are finite and not negative: a dyadic fraction.
use native.Mathlib.Nat.{one-le-pow, le_of_mul-le-mul_right, mul-le-mul_right}
use shimiaocheng_llm.Prelude.{
  ◌≤◌, ◌<◌, ◌≡◌, true, false, arith, ℕ, zero, suc, ◌+◌, ◌-◌, ◌*◌, ◌/◌, ◌%◌, ◌^◌, Bool, ltb,
  if◌then◌else◌, ℤ, pos, negsuc, sub_ℕ,
}

-- The value is `mantissa / 2 ^ shift`, with at most 53 bits in the mantissa.
pub record Float64 : Type 0 where
  pub mantissa : ℕ
  pub shift : ℕ

abbrev pub one : Float64
one = record { mantissa = 1; shift = 0 }

-- `a > b`.
unfoldable pub gt : Float64 → Float64 → Bool
gt a b = ltb (b.mantissa * 2 ^ a.shift) (a.mantissa * 2 ^ b.shift)

unfoldable pub ceil_div : ℕ → ℕ → ℕ
ceil_div n d = (n + d - 1) / d

-- `int(math.Ceil(x))`.
unfoldable pub ceil : Float64 → ℕ
unfolding ceil_div
ceil x = ceil_div x.mantissa (2 ^ x.shift)

-- How often a product of two mantissas is halved until it has at most 53 bits.
unfoldable pub excess : ℕ → ℕ → ℕ
excess zero n = 0
excess (suc f) n = let rest = excess f (n / 2) in if ltb n (2 ^ 53) then 0 else suc rest

-- Division by a power of two, to the nearest and in a tie to the even quotient.
unfoldable pub round_even : ℕ → ℕ → ℕ
round_even n d =
    let q = n / d in
    let r = n % d in if ltb (2 * r) d then q else if ltb d (2 * r) then q + 1 else q + q % 2

-- The exact product of an integer below 2 ^ 53 and a mantissa, as the hardware rounds it. Of
-- 106 bits at most 53 are dropped, so 64 halvings are enough.
unfoldable pub round_53 : ℕ → ℕ
unfolding excess round_even
round_53 n = let d = 2 ^ excess 64 n in if ltb n (2 ^ 53) then n else round_even n d * d

-- `int(math.Ceil(float64(n) * x))`.
unfoldable pub ceil_mul : ℕ → Float64 → ℕ
unfolding round_53 ceil_div
ceil_mul n x = ceil_div (round_53 (n * x.mantissa)) (2 ^ x.shift)

-- The same of an integer of either sign; below 0 it rounds towards 0.
unfoldable pub ceil_mul_ℤ : ℤ → Float64 → ℤ
unfolding round_53 ceil_mul
ceil_mul_ℤ (pos n) x = pos (ceil_mul n x)
ceil_mul_ℤ (negsuc n) x = sub_ℕ 0 (round_53 ((n + 1) * x.mantissa) / 2 ^ x.shift)

pow-pos : (s : ℕ) → 0 < 2 ^ s
pow-pos s = one-le-pow s 2 (omega arith)

cross : (a b c x y z : ℕ) → a * y ≤ b * x → b * z ≤ c * y → 0 < y → a * z ≤ c * x
cross a b c x y z h k p = le_of_mul-le-mul_right scaled p
  where
    left : a * y * z ≤ b * x * z
    left = mul-le-mul_right z h

    right : b * z * x ≤ c * y * x
    right = mul-le-mul_right x k

    scaled : a * z * y ≤ c * x * y
    scaled = omega (arith, left, right)

-- `a <= b` is transitive.
pub gt_trans : (a b c : Float64) → gt a b ≡ false → gt b c ≡ false → gt a c ≡ false
unfolding gt
gt_trans a b c h k = not_lt (
    cross a.mantissa b.mantissa c.mantissa (2 ^ a.shift) (2 ^ b.shift) (2 ^ c.shift) (at_most h)
      (at_most k) (pow-pos b.shift))
  where
    at_most : {m n : ℕ} → ltb m n ≡ false → n ≤ m
    at_most e = ground arith

    not_lt : {m n : ℕ} → n ≤ m → ltb m n ≡ false
    not_lt e = ground arith

pub gt_irrefl : (a : Float64) → gt a a ≡ false
unfolding gt
gt_irrefl a = ground arith

-- `a > b` and `b > a` exclude each other.
pub gt_asymm : (a b : Float64) → gt a b ≡ true → gt b a ≡ false
unfolding gt
gt_asymm a b h = ground arith

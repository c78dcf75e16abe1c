-- ===== src/Prelude/Numbered.antt =====
-- Rows with ascending ids, and lists in which no two elements are the same by a test.
use Prim.Native.Nat.{ℕ, suc, ◌+◌, ◌≤◌}
use mathlib.Core.Path.{◌≡◌, refl, sym, ap, ◌∙◌}
use mathlib.Core.Logic.{inl, inr}
use mathlib.Core.Bool.{Bool, false, ◌||◌}
use mathlib.Core.List.{List, [], ◌∷◌, ◌++◌, map}
use native.Mathlib.Omega.{arith}
use shimiaocheng_llm.Prelude.Tests.{Bool-cases}
use shimiaocheng_llm.Prelude.Lists.{keep, any, In}

module _ {A : Type 0} (id : A → ℕ) where
  -- The ids ascend, from `lo` on and below `hi`.
  abbrev pub IsNumbered : ℕ → ℕ → List A → Type 0
  IsNumbered lo hi [] = lo ≤ hi
  IsNumbered lo hi (x ∷ xs) = (lo ≤ id x) × IsNumbered (suc (id x)) hi xs

  pub IsNumbered-lower :
      (lo lo' hi : ℕ) (xs : List A) → lo' ≤ lo → IsNumbered lo hi xs → IsNumbered lo' hi xs
  IsNumbered-lower lo lo' hi [] l n = omega arith
  IsNumbered-lower lo lo' hi (x ∷ xs) l n = (omega (arith, n.0), n.1)

  pub IsNumbered-append :
      (lo hi : ℕ) (xs : List A) (x : A)
      → id x ≡ hi
      → IsNumbered lo hi xs
      → IsNumbered lo (hi + 1) (xs ++ x ∷ [])
  IsNumbered-append lo hi [] x e n = (omega arith, omega arith)
  IsNumbered-append lo hi (y ∷ xs) x e n = (n.0, IsNumbered-append (suc (id y)) hi xs x e n.1)

  pub IsNumbered-keep :
      (lo hi : ℕ) (p : A → Bool) (xs : List A) → IsNumbered lo hi xs → IsNumbered lo hi (keep p xs)
  IsNumbered-keep lo hi p [] n = n
  IsNumbered-keep lo hi p (x ∷ xs) n = elim (Bool-cases (p x)) [
    | inl e ↦ rw e (n.0, IsNumbered-keep (suc (id x)) hi p xs n.1)
    | inr e ↦ rw e (
        IsNumbered-lower (suc (id x)) lo hi (keep p xs) (omega (arith, n.0))
          (IsNumbered-keep (suc (id x)) hi p xs n.1))
  ]

  pub IsNumbered-map :
      (lo hi : ℕ) (g : A → A) (xs : List A)
      → ((x : A) → id (g x) ≡ id x)
      → IsNumbered lo hi xs
      → IsNumbered lo hi (map g xs)
  IsNumbered-map lo hi g [] k n = n
  IsNumbered-map lo hi g (x ∷ xs) k n =
      (rw (k x) n.0, rw (k x) (IsNumbered-map (suc (id x)) hi g xs k n.1))

  pub IsNumbered-above :
      (lo hi : ℕ) (xs : List A) (a : A) → IsNumbered lo hi xs → In a xs → lo ≤ id a
  IsNumbered-above lo hi (x ∷ xs) a n (inl e) = rw e n.0
  IsNumbered-above lo hi (x ∷ xs) a n (inr m) =
      omega (arith, n.0, IsNumbered-above (suc (id x)) hi xs a n.1 m)
  IsNumbered-above lo hi [] a n m = absurd m

  -- Two rows with one id are one row.
  pub numbered_unique :
      (lo hi : ℕ) (xs : List A) (a b : A)
      → IsNumbered lo hi xs
      → In a xs
      → In b xs
      → id a ≡ id b
      → a ≡ b
  numbered_unique lo hi [] a b n i j e = absurd i
  numbered_unique lo hi (x ∷ xs) a b n (inl i) (inl j) e = i ∙ sym j
  numbered_unique lo hi (x ∷ xs) a b n (inl i) (inr j) e =
      absurd (omega (arith, IsNumbered-above (suc (id x)) hi xs b n.1 j, ap id i, e))
  numbered_unique lo hi (x ∷ xs) a b n (inr i) (inl j) e =
      absurd (omega (arith, IsNumbered-above (suc (id x)) hi xs a n.1 i, ap id j, e))
  numbered_unique lo hi (x ∷ xs) a b n (inr i) (inr j) e =
      numbered_unique (suc (id x)) hi xs a b n.1 i j e

module _ {A : Type 0} where
  pub any-append : (p : A → Bool) (xs : List A) (x : A) → any p (xs ++ x ∷ []) ≡ (any p xs || p x)
  any-append p [] x = ground arith
  any-append p (y ∷ xs) x = ground (arith, any-append p xs x)

  pub any-keep : (p q : A → Bool) (xs : List A) → any p xs ≡ false → any p (keep q xs) ≡ false
  any-keep p q [] h = h
  any-keep p q (x ∷ xs) h = ground (arith, any-keep p q xs)

  pub any-map :
      (p : A → Bool) (g : A → A) (xs : List A)
      → ((x : A) → p (g x) ≡ p x)
      → any p (map g xs) ≡ any p xs
  any-map p g [] k = refl
  any-map p g (x ∷ xs) k = rw (k x, any-map p g xs k) refl

  module _ (same : A → A → Bool) where
    -- No two elements are the same.
    abbrev pub IsDistinct : List A → Type 0
    IsDistinct [] = Unit
    IsDistinct (x ∷ xs) = (any (same x) xs ≡ false) × IsDistinct xs

    pub IsDistinct-append :
        (xs : List A) (x : A)
        → ((y z : A) → same y z ≡ same z y)
        → any (same x) xs ≡ false
        → IsDistinct xs
        → IsDistinct (xs ++ x ∷ [])
    IsDistinct-append [] x s h d = (refl, tt)
    IsDistinct-append (y ∷ xs) x s h d = (
      rw (any-append (same y) xs x) ground (arith, s y x, d.0, h),
      IsDistinct-append xs x s (ground (arith, h)) d.1,
    )

    pub IsDistinct-keep : (q : A → Bool) (xs : List A) → IsDistinct xs → IsDistinct (keep q xs)
    IsDistinct-keep q [] d = tt
    IsDistinct-keep q (x ∷ xs) d = elim (Bool-cases (q x)) [
      | inl e ↦ rw e (any-keep (same x) q xs d.0, IsDistinct-keep q xs d.1)
      | inr e ↦ rw e (IsDistinct-keep q xs d.1)
    ]

    pub IsDistinct-map :
        (g : A → A) (xs : List A)
        → ((x y : A) → same (g x) (g y) ≡ same x y)
        → IsDistinct xs
        → IsDistinct (map g xs)
    IsDistinct-map g [] k d = tt
    IsDistinct-map g (x ∷ xs) k d = (moved g x xs (λ y. k x y) ∙ d.0, IsDistinct-map g xs k d.1)
      where
        moved :
            (g : A → A) (x : A) (xs : List A)
            → ((y : A) → same (g x) (g y) ≡ same x y)
            → any (same (g x)) (map g xs) ≡ any (same x) xs
        moved g x [] k = refl
        moved g x (y ∷ xs) k = rw (k y, moved g x xs k) refl

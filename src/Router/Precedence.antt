-- ===== src/Router/Precedence.antt =====
-- sortRoutingRules of internal/router/selector.go: the order of precedence.
use mathlib.Core.List.{Perm}
use mathlib.Core.List.Perm
use shimiaocheng_llm.Prelude.{
  ℕ, ◌≡◌, ◌≢◌, ◌⊎◌, inl, inr, true, false, List, [], ◌∷◌, ℤ, arith, All, In, Bool-cases,
}
use shimiaocheng_llm.Router.{RoutingRule, key_before, rule_before, insert_rule, sort_routing_rules}

key_before-asymm :
    (pa : ℤ) (wa ia : ℕ) (pb : ℤ) (wb ib : ℕ)
    → key_before pa wa ia pb wb ib ≡ true
    → key_before pb wb ib pa wa ia ≡ false
unfolding key_before
key_before-asymm pa wa ia pb wb ib h = ground arith

-- If `a` comes before `c`, each `b` comes after `a` or before `c`.
key_before-split :
    (pa : ℤ) (wa ia : ℕ) (pb : ℤ) (wb ib : ℕ) (pc : ℤ) (wc ic : ℕ)
    → key_before pa wa ia pb wb ib ≡ false
    → key_before pb wb ib pc wc ic ≡ false
    → key_before pa wa ia pc wc ic ≡ false
unfolding key_before
key_before-split pa wa ia pb wb ib pc wc ic h k = ground arith

pub rule_before_asymm : (a b : RoutingRule) → rule_before a b ≡ true → rule_before b a ≡ false
unfolding rule_before
rule_before_asymm a b h = key_before-asymm _ _ _ _ _ _ h

pub rule_before_irrefl : (a : RoutingRule) → rule_before a a ≡ false
rule_before_irrefl a = elim (Bool-cases (rule_before a a)) [
  | inl e ↦ rule_before_asymm a a e
  | inr e ↦ e
]

pub rule_before-split :
    (a b c : RoutingRule)
    → rule_before a b ≡ false
    → rule_before b c ≡ false
    → rule_before a c ≡ false
unfolding rule_before
rule_before-split a b c h k = key_before-split _ _ _ _ _ _ _ _ _ h k

-- Nobody comes before a rule that stands further left.
abbrev pub IsOrdered : List RoutingRule → Type 0
IsOrdered [] = Unit
IsOrdered (x ∷ xs) = All (λ y. rule_before y x ≡ false) xs × IsOrdered xs

All-insert :
    (P : RoutingRule → Type 0) (r : RoutingRule) (xs : List RoutingRule)
    → P r
    → All P xs
    → All P (insert_rule r xs)
unfolding insert_rule
All-insert P r [] p h = (p, tt)
All-insert P r (x ∷ xs) p h = elim (Bool-cases (rule_before x r)) [
  | inl e ↦ rw e (h.0, All-insert P r xs p h.1)
  | inr e ↦ rw e (p, h)
]

All-split :
    (r x : RoutingRule) (xs : List RoutingRule)
    → rule_before x r ≡ false
    → All (λ y. rule_before y x ≡ false) xs
    → All (λ y. rule_before y r ≡ false) xs
All-split r x [] e h = tt
All-split r x (y ∷ ys) e h = (rule_before-split y x r h.0 e, All-split r x ys e h.1)

insert-IsOrdered :
    (r : RoutingRule) (xs : List RoutingRule) → IsOrdered xs → IsOrdered (insert_rule r xs)
unfolding insert_rule
insert-IsOrdered r [] o = (tt, tt)
insert-IsOrdered r (x ∷ xs) o = elim (Bool-cases (rule_before x r)) [
  | inl e ↦ rw e (
    All-insert (λ y. rule_before y x ≡ false) r xs (rule_before_asymm x r e) o.0,
    insert-IsOrdered r xs o.1,
  )
  | inr e ↦ rw e ((e, All-split r x xs e o.0), o)
]

-- After sorting, no rule comes before one that stands further left.
pub sort_routing_rules-IsOrdered : (rs : List RoutingRule) → IsOrdered (sort_routing_rules rs)
unfolding sort_routing_rules
sort_routing_rules-IsOrdered [] = tt
sort_routing_rules-IsOrdered (r ∷ rs) = insert-IsOrdered r _ (sort_routing_rules-IsOrdered rs)

insert-perm : (r : RoutingRule) (xs : List RoutingRule) → Perm (insert_rule r xs) (r ∷ xs)
unfolding insert_rule
insert-perm r [] = Perm.refl _
insert-perm r (x ∷ xs) = elim (Bool-cases (rule_before x r)) [
  | inl e ↦ rw e (Perm.trans (Perm.cons x (insert-perm r xs)) (Perm.swap r x xs))
  | inr e ↦ rw e (Perm.refl _)
]

pub sort_routing_rules-perm : (rs : List RoutingRule) → Perm (sort_routing_rules rs) rs
unfolding sort_routing_rules
sort_routing_rules-perm [] = Perm.refl _
sort_routing_rules-perm (r ∷ rs) =
    Perm.trans (insert-perm r (sort_routing_rules rs)) (Perm.cons r (sort_routing_rules-perm rs))

-- Membership is kept both ways.
pub All-sort :
    (P : RoutingRule → Type 0) (rs : List RoutingRule) → All P rs → All P (sort_routing_rules rs)
unfolding sort_routing_rules
All-sort P [] h = tt
All-sort P (r ∷ rs) h = All-insert P r _ h.0 (All-sort P rs h.1)

In-insert :
    (a r : RoutingRule) (xs : List RoutingRule) → (a ≡ r) ⊎ In a xs → In a (insert_rule r xs)
unfolding insert_rule
In-insert a r [] m = m
In-insert a r (x ∷ xs) m = elim (Bool-cases (rule_before x r)) [
  | inl e ↦ rw e (below (In-insert a r xs) m)
  | inr e ↦ rw e m
]
  where
    below :
        ((a ≡ r) ⊎ In a xs → In a (insert_rule r xs))
        → (a ≡ r) ⊎ In a (x ∷ xs)
        → In a (x ∷ insert_rule r xs)
    below rest (inl h) = inr (rest (inl h))
    below rest (inr (inl h)) = inl h
    below rest (inr (inr h)) = inr (rest (inr h))

pub In-sort : (a : RoutingRule) (rs : List RoutingRule) → In a rs → In a (sort_routing_rules rs)
unfolding sort_routing_rules
In-sort a [] m = m
In-sort a (r ∷ rs) (inl e) = In-insert a r _ (inl e)
In-sort a (r ∷ rs) (inr m) = In-insert a r _ (inr (In-sort a rs m))

-- Two rules with different ids are never of equal precedence.
pub rule_before-total :
    (a b : RoutingRule) → a.id ≢ b.id → rule_before b a ≡ false → rule_before a b ≡ true
unfolding rule_before key_before
rule_before-total a b ne h = ground arith

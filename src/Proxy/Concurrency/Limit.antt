-- ===== src/Proxy/Concurrency/Limit.antt =====
-- The per-user limit of internal/proxy/handler.go, under every interleaving.
use shimiaocheng_llm.Prelude.{
  ℕ, zero, suc, ◌+◌, ◌≤◌, ◌≡◌, ◌≢◌, refl, false, List, [], ◌∷◌, Option, none, some, arith, subst,
  sym, ap, ℤ, pos, All, ◌==◌,
}
use shimiaocheng_llm.Proxy.Concurrency.{
  Store, Phase, arriving, added, serving, rejected, released, Request, advance, step_at, run,
  is_busy, is_admitted, is_serving, busy, admitted, in_flight,
}

-- The counter counts the busy requests.
abbrev pub Counts : Option ℤ → ℕ → Type 0
Counts none n = n ≡ 0
Counts (some z) n = z ≡ pos n

abbrev IsCurrent : ℕ → Phase → Type 0
IsCurrent g (added h seen) = h ≡ g
IsCurrent g _ = Unit

-- The request was authenticated with this limit, and a value that it has seen is one of the
-- counter of this generation.
abbrev IsOf : ℕ → ℕ → Request → Type 0
IsOf cap g r = (r.cap ≡ cap) × IsCurrent g r.phase

-- What one step keeps, with `n` other busy requests, `a` of them admitted.
abbrev Keeps : ℕ → ℕ → ℕ → ℕ → Store × Request → Type 0
Keeps cap g n a (s, r) =
    Counts s.entry (is_busy r.phase + n)
    × (s.generation ≡ g)
    × IsOf cap g r
    × (is_admitted r.cap r.phase + a ≤ cap)

advance-Keeps :
    (cap n a g : ℕ) (e : Option ℤ) (p : Phase)
    → cap ≢ 0
    → a ≤ n
    → a ≤ cap
    → let s : Store = record { generation = g; entry = e } in
      Keeps cap g n a (s, record { cap = cap; phase = p })
      → Keeps cap g n a (advance s (record { cap = cap; phase = p }))
unfolding advance
advance-Keeps cap n a g none arriving nz h l k =
    let z : (cap == 0) ≡ false = ground arith in rw z (ground arith)
advance-Keeps cap n a g (some m) arriving nz h l k =
    let z : (cap == 0) ≡ false = ground arith in rw z (ground arith)
advance-Keeps cap n a g none (added f seen) nz h l k = ground arith
advance-Keeps cap n a g (some m) (added f seen) nz h l k = ground arith
advance-Keeps cap n a g none serving nz h l k = ground arith
advance-Keeps cap n a g (some m) serving nz h l k = ground arith
advance-Keeps cap n a g e rejected nz h l k = k
advance-Keeps cap n a g e released nz h l k = k

admitted-le-busy_one : (cap : ℕ) (p : Phase) → is_admitted cap p ≤ is_busy p
admitted-le-busy_one cap arriving = omega arith
admitted-le-busy_one cap (added g seen) = ground arith
admitted-le-busy_one cap serving = omega arith
admitted-le-busy_one cap rejected = omega arith
admitted-le-busy_one cap released = omega arith

admitted-le-busy : (rs : List Request) → admitted rs ≤ busy rs
admitted-le-busy [] = omega arith
admitted-le-busy (r ∷ rs) = omega (arith, admitted-le-busy_one r.cap r.phase, admitted-le-busy rs)

-- The invariant, with `n` busy requests elsewhere, `a` of them admitted.
abbrev Holds : ℕ → ℕ → ℕ → ℕ → Store × List Request → Type 0
Holds cap g n a (s, rs) =
    Counts s.entry (busy rs + n)
    × (s.generation ≡ g)
    × All (IsOf cap g) rs
    × (admitted rs + a ≤ cap)

advance_one :
    (cap g n a : ℕ) (s : Store) (r : Request)
    → cap ≢ 0
    → a ≤ n
    → Keeps cap g n a (s, r)
    → Keeps cap g n a (advance s r)
advance_one cap g n a s r nz h k =
    rw (← k.2.0, ← k.1)
      (advance-Keeps r.cap n a s.generation s.entry r.phase (rw (← k.2.0) at nz) h (omega arith)
        (rw (← k.2.0, ← k.1) at k))

step_at-Holds :
    (cap g n a : ℕ) (s : Store) (rs : List Request) (i : ℕ)
    → cap ≢ 0
    → a ≤ n
    → Holds cap g n a (s, rs)
    → Holds cap g n a (step_at s rs i)
unfolding step_at
step_at-Holds cap g n a s [] i nz h k = k
step_at-Holds cap g n a s (r ∷ rs) zero nz h k =
    let one =
      advance_one cap g (busy rs + n) (admitted rs + a) s r nz (omega (arith, admitted-le-busy rs))
        (subst (Counts s.entry) (omega arith) k.0, k.1, k.2.0, omega arith) in
    (subst (Counts (advance s r).0.entry) (omega arith) one.0, one.1, (one.2, k.2.1), omega arith)
step_at-Holds cap g n a s (r ∷ rs) (suc i) nz h k =
    let rest =
      step_at-Holds cap g (is_busy r.phase + n) (is_admitted r.cap r.phase + a) s rs i nz
        (omega (arith, admitted-le-busy_one r.cap r.phase))
        (subst (Counts s.entry) (omega arith) k.0, k.1, k.2.1, omega arith) in
    (
      subst (Counts (step_at s rs i).0.entry) (omega arith) rest.0,
      rest.1,
      (k.2.0, rest.2),
      omega arith,
    )

run-Holds :
    (cap g : ℕ) (s : Store) (rs : List Request) (is : List ℕ)
    → cap ≢ 0
    → Holds cap g 0 0 (s, rs)
    → Holds cap g 0 0 (run s rs is)
unfolding run
run-Holds cap g s rs [] nz k = k
run-Holds cap g s rs (i ∷ is) nz k =
    run-Holds cap g (step_at s rs i).0 (step_at s rs i).1 is nz
      (step_at-Holds cap g 0 0 s rs i nz (omega arith) k)

in_flight-le-admitted : (rs : List Request) → in_flight rs ≤ admitted rs
in_flight-le-admitted [] = omega arith
in_flight-le-admitted (r ∷ rs) = omega (arith, phase_le r.cap r.phase, in_flight-le-admitted rs)
  where
    phase_le : (cap : ℕ) (p : Phase) → is_serving p ≤ is_admitted cap p
    phase_le cap arriving = omega arith
    phase_le cap (added g seen) = ground arith
    phase_le cap serving = omega arith
    phase_le cap rejected = omega arith
    phase_le cap released = omega arith

-- A request that has just arrived, authenticated with the limit.
abbrev pub Arrivals : ℕ → List Request → Type 0
Arrivals cap = All (λ r. (r.cap ≡ cap) × (r.phase ≡ arriving))

-- The store of a user without requests under way: no counter yet, or a counter at 0.
abbrev pub IsQuiet : Store → Type 0
IsQuiet s = Counts s.entry 0

Arrivals-Holds :
    (cap g : ℕ) (rs : List Request)
    → Arrivals cap rs
    → (busy rs ≡ 0) × (admitted rs ≡ 0) × All (IsOf cap g) rs
Arrivals-Holds cap g [] h = (refl, refl, tt)
Arrivals-Holds cap g (r ∷ rs) ((c, p), h) =
    let rest = Arrivals-Holds cap g rs h in
    let b : is_busy r.phase ≡ 0 = ap is_busy p in
    let a : is_admitted r.cap r.phase ≡ 0 = ap (is_admitted r.cap) p in
    (omega arith, omega arith, ((c, subst (IsCurrent g) (sym p) tt), rest.2))

-- However the steps of the requests interleave, at no moment are more requests of the user served
-- than the limit they were authenticated with, and the counter counts exactly those that have
-- incremented it and not left: when all have left it is back at 0. It takes one limit above 0 for
-- all of them, and that the key is not removed meanwhile.
pub run-within_limit :
    (cap : ℕ) (s : Store) (rs : List Request) (is : List ℕ)
    → cap ≢ 0
    → IsQuiet s
    → Arrivals cap rs
    → let (s', rs') = run s rs is in
      (in_flight rs' ≤ cap) × Counts s'.entry (busy rs') × (s'.generation ≡ s.generation)
run-within_limit cap s rs is nz quiet new =
    let start = Arrivals-Holds cap s.generation rs new in
    let k =
      run-Holds cap s.generation s rs is nz
        (subst (Counts s.entry) (omega arith) quiet, refl, start.2, omega arith) in
    (
      omega (arith, in_flight-le-admitted (run s rs is).1),
      subst (Counts (run s rs is).0.entry) (omega arith) k.0,
      k.1,
    )

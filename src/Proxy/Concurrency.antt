-- ===== src/Proxy/Concurrency.antt =====
-- userConcurrency, tryAcquireConcurrency, releaseConcurrency and ForgetConcurrency of
-- internal/proxy/handler.go for one user, at the grain of the atomic operations: each step of a
-- request is one access to the map or to the counter, but that `LoadOrStore` and the addition which
-- follows it are one, and a schedule interleaves the requests.
pub mod Limit
pub mod Leaks
use shimiaocheng_llm.Prelude.{
  ℕ, zero, suc, Bool, true, false, List, [], ◌∷◌, Option, none, some, ◌==◌, if◌then◌else◌, ℤ, pos,
  ◌<ℤ◌, suc_ℤ, pred_ℤ, length, ◌+◌,
}

-- The user's entry of the map: the value of the counter that it points to. `generation` tells
-- the counters apart that the key has pointed to: it counts the removals of the key.
pub record Store : Type 0 where
  pub generation : ℕ
  pub entry : Option ℤ

-- Where a request stands. `added` has incremented the counter of a generation and got a value
-- back; `serving` has been admitted; the other two have left.
pub data Phase : Type 0 where
  arriving : Phase
  added : ℕ → ℤ → Phase
  serving : Phase
  rejected : Phase
  released : Phase

-- `cap` is the limit that the request was authenticated with; 0 means unlimited.
pub record Request : Type 0 where
  pub cap : ℕ
  pub phase : Phase

-- `LoadOrStore`, then `AddInt64(v, 1)`, in one step. In the source a request may come between the
-- two, which is not seen as long as the key is not removed: the counter that is loaded stays the one
-- that the key points to.
unfoldable pub increment : Store → Store × ℤ
increment s = elim s.entry [
  | none ↦ (record s { entry = some (pos 1) }, pos 1)
  | some n ↦ (record s { entry = some (suc_ℤ n) }, suc_ℤ n)
]

-- `AddInt64(v, -1)` on the counter of a generation; an old one is out of reach of the map.
unfoldable pub decrement : ℕ → Store → Store
decrement g s = elim s.entry [
  | none ↦ s
  | some n ↦ if g == s.generation then record s { entry = some (pred_ℤ n) } else s
]

-- `tryAcquireConcurrency` in two steps, and `releaseConcurrency`, which looks the key up again.
dispatch : Phase → Store → Request → Store × Request
unfolding increment decrement
dispatch arriving s r =
    if r.cap == 0
    then (s, record r { phase = serving })
    else let (s', seen) = increment s in (s', record r { phase = added s.generation seen })
dispatch (added g seen) s r =
    if pos r.cap <ℤ seen
    then (decrement g s, record r { phase = rejected })
    else (s, record r { phase = serving })
dispatch serving s r = (decrement s.generation s, record r { phase = released })
dispatch rejected s r = (s, r)
dispatch released s r = (s, r)

unfoldable pub advance : Store → Request → Store × Request
unfolding dispatch
advance s r = dispatch r.phase s r

-- One step of the request at a position.
unfoldable pub step_at : Store → List Request → ℕ → Store × List Request
step_at s [] i = (s, [])
step_at s (r ∷ rs) zero = let (s', r') = advance s r in (s', r' ∷ rs)
step_at s (r ∷ rs) (suc i) = let (s', rs') = step_at s rs i in (s', r ∷ rs')

-- `ForgetConcurrency`.
unfoldable pub forget_concurrency : Store → Store
forget_concurrency s = record { generation = suc s.generation; entry = none }

-- The schedule: which request makes the next step.
unfoldable pub run : Store → List Request → List ℕ → Store × List Request
run s rs [] = (s, rs)
run s rs (i ∷ is) = let (s', rs') = step_at s rs i in run s' rs' is

-- Requests that have incremented the counter and not yet taken it back.
abbrev pub is_busy : Phase → ℕ
is_busy (added g seen) = 1
is_busy serving = 1
is_busy _ = 0

-- Requests that have been admitted, or will be at their next step.
abbrev pub is_admitted : ℕ → Phase → ℕ
is_admitted cap (added g seen) = if pos cap <ℤ seen then 0 else 1
is_admitted cap serving = 1
is_admitted cap _ = 0

abbrev pub is_serving : Phase → ℕ
is_serving serving = 1
is_serving _ = 0

abbrev pub busy : List Request → ℕ
busy [] = 0
busy (r ∷ rs) = is_busy r.phase + busy rs

abbrev pub admitted : List Request → ℕ
admitted [] = 0
admitted (r ∷ rs) = is_admitted r.cap r.phase + admitted rs

abbrev pub in_flight : List Request → ℕ
in_flight [] = 0
in_flight (r ∷ rs) = is_serving r.phase + in_flight rs

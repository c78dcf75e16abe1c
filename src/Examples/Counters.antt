-- ===== src/Examples/Counters.antt =====
-- Interleaved requests of one user.
use shimiaocheng_llm.Prelude.{ℕ, ◌≡◌, ◌≤◌, refl, List, [], ◌∷◌, none, arith}
use shimiaocheng_llm.Proxy.Concurrency.{Store, Request, arriving, run, in_flight, busy}
use shimiaocheng_llm.Proxy.Concurrency.Limit.{Counts, run-within_limit}

-- Three requests under a limit of 2, their first steps interleaved.
abbrev quiet : Store
quiet = record { generation = 0; entry = none }

abbrev arrived : Request
arrived = record { cap = 2; phase = arriving }

abbrev requests : List Request
requests = arrived ∷ arrived ∷ arrived ∷ []

abbrev schedule : List ℕ
schedule = 0 ∷ 1 ∷ 2 ∷ 1 ∷ 0 ∷ 2 ∷ []

run-within_limit_example :
    let (s', rs') = run quiet requests schedule in
    (in_flight rs' ≤ 2) × Counts s'.entry (busy rs') × (s'.generation ≡ 0)
run-within_limit_example =
    run-within_limit 2 quiet requests schedule (λ e. omega arith) refl
      ((refl, refl), ((refl, refl), ((refl, refl), tt)))

-- ===== src/Proxy/Concurrency/Leaks.antt =====
-- Where the counter of internal/proxy/handler.go loses count: a release that finds a counter which
-- its request never incremented.
use shimiaocheng_llm.Prelude.{ℕ, ◌≡◌, List, [], ◌∷◌, some, arith, ℤ, pred_ℤ}
use shimiaocheng_llm.Proxy.Concurrency.{
  Store, arriving, serving, released, Request, advance, step_at, run, forget_concurrency,
}

abbrev pub unlimited : Request
unlimited = record { cap = 0; phase = arriving }

-- A request without a limit is served without counting it, and takes one off the counter when it
-- ends, if the user has one: each such request makes room for one more above the limit.
pub unlimited_lowers :
    (g : ℕ) (n : ℤ) (rs : List Request)
    → run (record { generation = g; entry = some n }) (unlimited ∷ rs) (0 ∷ 0 ∷ []) ≡ (
      record { generation = g; entry = some (pred_ℤ n) },
      record { cap = 0; phase = released } ∷ rs,
    )
unfolding run step_at advance
unlimited_lowers g n rs = ground arith

-- After a removal of the key, a request that was being served takes one off the counter of
-- the requests that came later, if there is one, and does not touch the counter it incremented.
pub forgotten_lowers :
    (s : Store) (cap : ℕ) (rs : List Request) (n : ℤ)
    → let t : Store = record (forget_concurrency s) { entry = some n } in
      run t (record { cap = cap; phase = serving } ∷ rs) (0 ∷ [])
      ≡ (record t { entry = some (pred_ℤ n) }, record { cap = cap; phase = released } ∷ rs)
unfolding run step_at advance
forgotten_lowers s cap rs n = ground arith

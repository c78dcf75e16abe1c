-- ===== src/Proxy/Handler/Counter.antt =====
-- ServeHTTP of internal/proxy/handler.go: the user's counter of requests in flight.
use shimiaocheng_llm.Prelude.{
  ℕ, zero, suc, ◌≡◌, refl, ◌∙◌, inl, inr, Bool, true, false, Option, none, some, ℤ, pos, negsuc,
  suc_ℤ, pred_ℤ, ◌<ℤ◌, ◌==◌, Bool-cases, ==_refl,
}
use shimiaocheng_llm.GoTime.{Time}
use shimiaocheng_llm.Proxy.Exchange.{Faults}
use shimiaocheng_llm.Proxy.Concurrency.{Store, increment, decrement}
use shimiaocheng_llm.Proxy.Handler.{Environment, Handler, HttpRequest, World, try_acquire, release}
use shimiaocheng_llm.Proxy.Handler.Serve.{Send, serve_counted, serve_http}

-- The requests in flight; no entry counts none.
abbrev pub counter : Store → ℤ
counter s = elim s.entry [ none ↦ pos 0 | some n ↦ n ]

pred-suc : (n : ℤ) → pred_ℤ (suc_ℤ n) ≡ n
pred-suc (pos n) = refl
pred-suc (negsuc zero) = refl
pred-suc (negsuc (suc n)) = refl

-- An increment that is taken back, by the rollback or by the release.
taken_back :
    (g : ℕ) (e : Option ℤ)
    → let s : Store = record { generation = g; entry = e } in
      counter (decrement g (increment s).0) ≡ counter s
unfolding increment decrement
taken_back g none = rw (==_refl g) refl
taken_back g (some n) = rw (==_refl g) (pred-suc n)

-- The counter after the attempt and, where it succeeded, the release.
abbrev pub settled : Store × Bool → ℤ
settled (s, true) = counter (release s)
settled (s, false) = counter s

serve_counted-counter :
    (env : Environment) (h : Handler) (f : Faults) (now : Time) (send : Send) (r : HttpRequest)
    (w : World) (a : Store × Bool)
    → counter (serve_counted env h f now send r w a).0.store ≡ settled a
unfolding serve_counted
serve_counted-counter env h f now send r w (s, true) = refl
serve_counted-counter env h f now send r w (s, false) = refl

pub acquire-settled :
    (cap g : ℕ) (e : Option ℤ)
    → (cap == 0) ≡ false
    → let s : Store = record { generation = g; entry = e } in
      settled (try_acquire cap s) ≡ counter s
unfolding try_acquire release
acquire-settled cap g none z = elim (Bool-cases (pos cap <ℤ pos 1)) [
  | inl h ↦ rw (z, h) (taken_back g none)
  | inr h ↦ rw (z, h) (taken_back g none)
]
acquire-settled cap g (some n) z = elim (Bool-cases (pos cap <ℤ suc_ℤ n)) [
  | inl h ↦ rw (z, h) (taken_back g (some n))
  | inr h ↦ rw (z, h) (taken_back g (some n))
]

-- A request under a concurrency limit leaves the user's counter at the value that it found there:
-- on every path, a panic, a failure and the rejection by the limit included.
pub serve_http-counter :
    (env : Environment) (h : Handler) (f : Faults) (now : Time) (send : Send) (r : HttpRequest)
    (w : World)
    → (r.max_concurrency == 0) ≡ false
    → counter (serve_http env h f now send r w).0.store ≡ counter w.store
unfolding serve_http
serve_http-counter env h f now send r w z = elim (Bool-cases (r.user_id == 0)) [
  | inl e ↦ rw e refl
  | inr e ↦ rw e (
      serve_counted-counter env h f now send r w (try_acquire r.max_concurrency w.store)
      ∙ acquire-settled r.max_concurrency w.store.generation w.store.entry z)
]

-- ===== src/Proxy/Body/Compact.antt =====
-- compactMessagesToBudget of internal/proxy/handler.go: what is kept of the chat history.
use shimiaocheng_llm.Prelude.{
  ℕ, zero, suc, ◌≤◌, ◌≡◌, refl, sym, ◌∙◌, ◌⊎◌, inl, inr, true, false, not, List, ◌∷◌, Option, none,
  some, Text, text, text_eq, leb, ◌==◌, lookup, length, keep, arith, Bool-cases,
}
use shimiaocheng_llm.Proxy.Json.{Json, get_or}
use shimiaocheng_llm.Proxy.Body.{
  is_system, try_build, fitting, first_fit, least, compacted, compact_messages_to_budget,
}

-- A number of messages whose request fits, with the request.
pub record Fits (build : ℕ → Option Text) (max_body k : ℕ) (out : Text) : Type 0 where
  pub built : build k ≡ some out
  pub small : length out ≤ max_body

fitting-fits :
    (max_body : ℕ) (o : Option Text) (out : Text)
    → o ≡ some out
    → length out ≤ max_body
    → fitting max_body o ≡ some out
unfolding fitting
fitting-fits max_body o out e h = rw e (rw (le→leb (length out) max_body h) refl)
  where
    le→leb : (a b : ℕ) → a ≤ b → leb a b ≡ true
    le→leb a b h = ground arith

fitting-cases :
    (max_body : ℕ) (o : Option Text)
    → (fitting max_body o ≡ none)
      ⊎ ((out : Text) × (fitting max_body o ≡ some out) × (o ≡ some out) × (length out ≤ max_body))
unfolding fitting
fitting-cases max_body none = inl refl
fitting-cases max_body (some out) = elim (Bool-cases (leb (length out) max_body)) [
  | inl h ↦ inr (out, rw h refl, refl, le out h)
  | inr h ↦ inl (rw h refl)
]
  where
    le : (o : Text) → leb (length o) max_body ≡ true → length o ≤ max_body
    le o h = ground arith

-- A fit with at least `k` messages and at most `n`, which the loop returns.
abbrev Largest : (ℕ → Option Text) → (max_body k n : ℕ) → Option Text → Type 0
Largest build max_body k n r =
    (k' : ℕ) × (out : Text) × (k ≤ k') × (k' ≤ n) × Fits build max_body k' out × (r ≡ some out)

first_fit-Largest :
    (build : ℕ → Option Text) (max_body min_keep k n : ℕ) (out : Text)
    → Fits build max_body k out
    → min_keep ≤ k
    → k ≤ n
    → Largest build max_body k n (first_fit build max_body min_keep n)
unfolding first_fit
first_fit-Largest build max_body min_keep k zero out f m h = (
  0,
  out,
  h,
  omega arith,
  at_zero,
  rw (leb-zero, fitting-fits max_body (build 0) out at_zero.built at_zero.small) refl,
)
  where
    k-zero : k ≡ 0
    k-zero = omega arith

    at_zero : Fits build max_body 0 out
    at_zero = rw k-zero at f

    leb-zero : leb min_keep 0 ≡ true
    leb-zero = ground arith
first_fit-Largest build max_body min_keep k (suc n) out f m h =
    elim (fitting-cases max_body (build (suc n))) [
      | inr (out', e, b, s) ↦
          (suc n, out', h, omega arith, record { built = b; small = s }, rw (leb-suc, e) refl)
      | inl e ↦
          let (k', out', lower, upper, fits, r) =
            first_fit-Largest build max_body min_keep k n out f m (below e) in
          (k', out', lower, omega arith, fits, rw (leb-suc, e) r)
    ]
  where
    leb-suc : leb min_keep (suc n) ≡ true
    leb-suc = ground arith

    below : fitting max_body (build (suc n)) ≡ none → k ≤ n
    below e = elim (Bool-cases (k == suc n)) [
      | inl same ↦
          absurd (
            apart e
              (fitting-fits max_body (build (suc n)) out (rw (sym (eq same)) f.built) f.small))
      | inr other ↦ ground arith
    ]
      where
        eq : (k == suc n) ≡ true → k ≡ suc n
        eq same = ground arith

        apart : {o : Option Text} {t : Text} → o ≡ none → o ≡ some t → ⊥
        apart a b = cc

-- A body over the budget that decodes to a list of messages.
pub record Oversized (j : Json) (body : Text) (max_body : ℕ) (raw : List (Text × Text)) (m : Text)
    (ms : List Text) : Type 0 where
  pub messages : Text
  pub limited : (max_body == 0) ≡ false
  pub over : leb (length body) max_body ≡ false
  pub object : j.object_of body ≡ some raw
  pub field : lookup text_eq (text "messages") raw ≡ some messages
  pub array : j.array_of messages ≡ some (m ∷ ms)

abbrev pub systems : Json → List Text → List Text
systems j ts = keep (is_system j) ts

abbrev pub history : Json → List Text → List Text
history j ts = keep (λ t. not (is_system j t)) ts

-- The request with the newest messages of the history, as many as given.
abbrev pub build : Json → List (Text × Text) → List Text → ℕ → Option Text
build j raw ts = try_build j raw (systems j ts) (history j ts)

compact-compacted :
    (j : Json) (body : Text) (max_body : ℕ) (raw : List (Text × Text)) (m : Text) (ms : List Text)
    → Oversized j body max_body raw m ms
    → compact_messages_to_budget j body max_body
      ≡ compacted j body raw (systems j (m ∷ ms)) (history j (m ∷ ms)) max_body
unfolding compact_messages_to_budget
compact-compacted j body max_body raw m ms o =
    rw (o.limited, o.over, o.object, o.field, o.array) refl

-- A body over a budget above 0 that decodes to an object with a list of messages which is not
-- empty: where the request with the system messages and the newest `k` messages of the history
-- fits the budget, `k` being at least 1 unless the history is empty, the body is replaced by such
-- a request that fits the budget and keeps at least `k` messages of the history.
pub compact_messages_to_budget-largest :
    (j : Json) (body : Text) (max_body k : ℕ) (raw : List (Text × Text)) (m : Text) (ms : List Text)
    (out : Text)
    → Oversized j body max_body raw m ms
    → Fits (build j raw (m ∷ ms)) max_body k out
    → least (history j (m ∷ ms)) ≤ k
    → k ≤ length (history j (m ∷ ms))
    → (k' : ℕ) × (out' : Text) × (k ≤ k')
      × (k' ≤ length (history j (m ∷ ms)))
      × Fits (build j raw (m ∷ ms)) max_body k' out'
      × (compact_messages_to_budget j body max_body ≡ out')
unfolding compacted get_or
compact_messages_to_budget-largest j body max_body k raw m ms out o f low high =
    let (k', out', a, b, fits, r) =
      first_fit-Largest (build j raw (m ∷ ms)) max_body (least (history j (m ∷ ms))) k
        (length (history j (m ∷ ms))) out f low high in
    (k', out', a, b, fits, compact-compacted j body max_body raw m ms o ∙ rw r refl)

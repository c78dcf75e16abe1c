-- ===== src/Provider/Audit.antt =====
-- ListAuditLogs of internal/provider/store.go.
use shimiaocheng_llm.Prelude.{
  ℕ, zero, suc, ◌+◌, ◌-◌, ◌*◌, ◌≤◌, ◌≡◌, refl, ap, sym, ◌∙◌, Bool, true, not, List, [], ◌∷◌, ◌++◌,
  if◌then◌else◌, length, length-append, take, drop, ltb, ℤ, pos, negsuc, arith, Result, ok, err,
}
use shimiaocheng_llm.Provider.{AuditLogRecord, Tables, StoreError, read_failed}

-- `ORDER BY id DESC`.
abbrev pub newest_first {ℓ} : {A : Type ℓ} → List A → List A
newest_first [] = []
newest_first (x ∷ xs) = newest_first xs ++ x ∷ []

-- The page, from 1 on, and the limit, at most 100.
abbrev pub clamp_page : ℤ → ℕ
clamp_page (pos zero) = 1
clamp_page (pos (suc n)) = suc n
clamp_page (negsuc n) = 1

abbrev pub clamp_limit : ℤ → ℕ
clamp_limit (pos zero) = 50
clamp_limit (pos (suc n)) = if ltb 100 (suc n) then 50 else suc n
clamp_limit (negsuc n) = 50

-- `LIMIT … OFFSET …`.
abbrev pub page_of {ℓ} : {A : Type ℓ} → ℕ → ℕ → List A → List A
page_of page limit rows = take limit (drop ((page - 1) * limit) rows)

-- `ListAuditLogs`: the page of the rows, and how many rows there are.
unfoldable pub list_audit_logs :
    (reads : Bool) → ℤ → ℤ → Tables → Result StoreError (List AuditLogRecord × ℕ)
list_audit_logs reads page limit t =
    if not reads
    then err read_failed
    else ok (
      page_of (clamp_page page) (clamp_limit limit) (newest_first t.audit_logs),
      length t.audit_logs,
    )

shift : (a b : ℕ) → suc a + b ≡ suc (a + b)
shift a b = omega arith

take-add {ℓ} :
    {A : Type ℓ} (a b : ℕ) (xs : List A) → take (a + b) xs ≡ take a xs ++ take b (drop a xs)
take-add zero b xs = ap (λ n. take n xs) (nothing b)
  where
    nothing : (b : ℕ) → 0 + b ≡ b
    nothing b = omega arith
take-add {A = A} (suc a) b [] = ap (λ n. take n []) (shift a b) ∙ none_left b
  where
    none_left : (b : ℕ) → ◌≡◌ {A = List A} [] (take b [])
    none_left zero = refl
    none_left (suc b) = refl
take-add (suc a) b (x ∷ xs) =
    ap (λ n. take n (x ∷ xs)) (shift a b) ∙ ap (λ t. x ∷ t) (take-add a b xs)

take-all {ℓ} : {A : Type ℓ} (n : ℕ) (xs : List A) → length xs ≤ n → take n xs ≡ xs
take-all zero [] h = refl
take-all zero (x ∷ xs) h = absurd (omega (arith, h))
take-all (suc n) [] h = refl
take-all (suc n) (x ∷ xs) h = ap (λ t. x ∷ t) (take-all n xs (omega (arith, h)))

length-newest_first {ℓ} : {A : Type ℓ} (xs : List A) → length (newest_first xs) ≡ length xs
length-newest_first [] = refl
length-newest_first (x ∷ xs) =
    omega (arith, length-append (newest_first xs) (x ∷ []), length-newest_first xs)

abbrev pub rows_of : Result StoreError (List AuditLogRecord × ℕ) → List AuditLogRecord
rows_of (ok r) = r.0
rows_of (err e) = []

-- The rows of the pages from 1 to `n`, one after the other.
unfoldable pub fetched : ℕ → ℕ → Tables → List AuditLogRecord
unfolding list_audit_logs
fetched limit zero t = []
fetched limit (suc n) t =
    fetched limit n t ++ rows_of (list_audit_logs true (pos (suc n)) (pos limit) t)

clamp_limit-id : (limit : ℕ) → 1 ≤ limit → limit ≤ 100 → clamp_limit (pos limit) ≡ limit
clamp_limit-id zero l u = absurd (omega (arith, l))
clamp_limit-id (suc n) l u = ground arith

-- The first pages are the newest rows.
fetched-take :
    (limit n : ℕ) (t : Tables)
    → 1 ≤ limit
    → limit ≤ 100
    → fetched limit n t ≡ take (n * limit) (newest_first t.audit_logs)
unfolding fetched list_audit_logs
fetched-take limit zero t l u = ap (λ n. take n (newest_first t.audit_logs)) (nothing limit)
  where
    nothing : (limit : ℕ) → 0 ≡ 0 * limit
    nothing limit = omega arith
fetched-take limit (suc n) t l u =
    rw (clamp_limit-id limit l u, fetched-take limit n t l u, before)
      (sym (take-add (n * limit) limit (newest_first t.audit_logs))
        ∙ ap (λ n. take n (newest_first t.audit_logs)) next)
  where
    before : suc n - 1 ≡ n
    before = omega arith

    next : n * limit + limit ≡ suc n * limit
    next = omega arith

-- With a limit that the code allows, enough pages give every row of the audit log once, the newest
-- first.
pub list_audit_logs_complete :
    (limit n : ℕ) (t : Tables)
    → 1 ≤ limit
    → limit ≤ 100
    → length t.audit_logs ≤ n * limit
    → fetched limit n t ≡ newest_first t.audit_logs
list_audit_logs_complete limit n t l u h =
    fetched-take limit n t l u
    ∙ take-all (n * limit) (newest_first t.audit_logs)
        (omega (arith, h, length-newest_first t.audit_logs))

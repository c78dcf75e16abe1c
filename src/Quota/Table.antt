-- ===== src/Quota/Table.antt =====
-- Reading and updating the table quotas: user_id is UNIQUE there.
use shimiaocheng_llm.Prelude.{
  ℕ, ◌≡◌, refl, ap, inl, inr, Bool, true, false, ◌&&◌, List, [], ◌∷◌, Option, none, some, arith,
  ◌==◌, if◌then◌else◌, All, Bool-cases, ==_iff,
}
use shimiaocheng_llm.Quota.{Quota, find, update_where, rows_affected, of_user}

-- No row belongs to the user.
abbrev pub IsAbsent : ℕ → List Quota → Type 0
IsAbsent user = All (λ r. of_user user r ≡ false)

-- No two rows belong to one user.
abbrev pub IsUnique : List Quota → Type 0
IsUnique [] = Unit
IsUnique (q ∷ qs) = IsAbsent q.user_id qs × IsUnique qs

-- A change of a row that leaves it with its user.
abbrev pub KeepsUser : (Quota → Quota) → Type 0
KeepsUser f = (q : Quota) → (f q).user_id ≡ q.user_id

abbrev pub map_option : (Quota → Quota) → Option Quota → Option Quota
map_option f none = none
map_option f (some q) = some (f q)

-- An update of one user's rows: that user's row is changed, everybody else's stays.
pub find-update :
    (f : Quota → Quota)
    → KeepsUser f
    → (user v : ℕ) (rows : List Quota)
    → find v (update_where (of_user user) f rows)
      ≡ (if user == v then map_option f (find v rows) else find v rows)
unfolding find update_where
find-update f keep user v [] = ground arith
find-update f keep user v (q ∷ qs) = ground (arith, keep q, find-update f keep user v qs)

update-absent :
    (f : Quota → Quota) (g : Quota → Bool) (user : ℕ) (rows : List Quota)
    → IsAbsent user rows
    → (update_where (λ r. of_user user r && g r) f rows ≡ rows)
      × (rows_affected (λ r. of_user user r && g r) rows ≡ 0)
unfolding update_where rows_affected
update-absent f g user [] a = (refl, refl)
update-absent f g user (q ∷ qs) a =
    let rest = update-absent f g user qs a.1 in (rw (a.0, rest.0) refl, rw (a.0, rest.1) refl)

update-absent_all :
    (f : Quota → Quota) (user : ℕ) (rows : List Quota)
    → IsAbsent user rows
    → update_where (of_user user) f rows ≡ rows
unfolding update_where
update-absent_all f user [] a = refl
update-absent_all f user (q ∷ qs) a = rw (a.0, update-absent_all f user qs a.1) refl

guarded_head :
    (f : Quota → Quota) (g : Quota → Bool) (user : ℕ) (r : Quota) (rs : List Quota)
    → of_user user r ≡ true
    → IsAbsent user rs
    → (update_where (λ r. of_user user r && g r) f (r ∷ rs)
        ≡ (if g r then update_where (of_user user) f (r ∷ rs) else r ∷ rs))
      × (rows_affected (λ r. of_user user r && g r) (r ∷ rs) ≡ (if g r then 1 else 0))
unfolding update_where rows_affected
guarded_head f g user r rs here a =
    let t = update-absent f g user rs a in
    let s = update-absent_all f user rs a in
    elim (Bool-cases (g r)) [
      | inl e ↦ (rw (here, e, t.0, s) refl, rw (here, e, t.1) refl)
      | inr e ↦ (rw (here, e, t.0) refl, rw (here, e, t.1) refl)
    ]

-- A guarded update of one user is decided by that user's row alone.
pub guarded_update :
    (f : Quota → Quota) (g : Quota → Bool) (user : ℕ) (rows : List Quota) (q : Quota)
    → IsUnique rows
    → find user rows ≡ some q
    → (update_where (λ r. of_user user r && g r) f rows
        ≡ (if g q then update_where (of_user user) f rows else rows))
      × (rows_affected (λ r. of_user user r && g r) rows ≡ (if g q then 1 else 0))
unfolding find update_where rows_affected
guarded_update f g user [] q u e = cc
guarded_update f g user (r ∷ rs) q u e = elim (Bool-cases (of_user user r)) [
  | inl here ↦ at_head here (rw here at e)
  | inr there ↦ below there (guarded_update f g user rs q u.1 (rw there at e))
]
  where
    at_head :
        of_user user r ≡ true
        → some r ≡ some q
        → (update_where (λ r. of_user user r && g r) f (r ∷ rs)
            ≡ (if g q then update_where (of_user user) f (r ∷ rs) else r ∷ rs))
          × (rows_affected (λ r. of_user user r && g r) (r ∷ rs) ≡ (if g q then 1 else 0))
    at_head here p =
        let same : r ≡ q = cc in
        let own : r.user_id ≡ user = (==_iff r.user_id user).0 here in
        rw (← same) (guarded_head f g user r rs here (rw own at u.0))

    below :
        of_user user r ≡ false
        → (update_where (λ r. of_user user r && g r) f rs
            ≡ (if g q then update_where (of_user user) f rs else rs))
          × (rows_affected (λ r. of_user user r && g r) rs ≡ (if g q then 1 else 0))
        → (update_where (λ r. of_user user r && g r) f (r ∷ rs)
            ≡ (if g q then update_where (of_user user) f (r ∷ rs) else r ∷ rs))
          × (rows_affected (λ r. of_user user r && g r) (r ∷ rs) ≡ (if g q then 1 else 0))
    below there h = elim (Bool-cases (g q)) [
      | inl e ↦ (rw (there, e) (ap (◌∷◌ r) (rw e at h.0)), rw (there) h.1)
      | inr e ↦ (rw (there, e) (ap (◌∷◌ r) (rw e at h.0)), rw (there) h.1)
    ]

-- A change that leaves rows with their users keeps user_id unique.
pub update-IsAbsent :
    (p : Quota → Bool) (f : Quota → Quota)
    → KeepsUser f
    → (user : ℕ) (rows : List Quota) → IsAbsent user rows
    → IsAbsent user (update_where p f rows)
unfolding update_where
update-IsAbsent p f keep user [] a = tt
update-IsAbsent p f keep user (q ∷ qs) a =
    (ground (arith, keep q), update-IsAbsent p f keep user qs a.1)

pub update-IsUnique :
    (p : Quota → Bool) (f : Quota → Quota)
    → KeepsUser f
    → (rows : List Quota) → IsUnique rows
    → IsUnique (update_where p f rows)
unfolding update_where
update-IsUnique p f keep [] u = tt
update-IsUnique p f keep (q ∷ qs) u = (
  elim (Bool-cases (p q)) [
    | inl e ↦ rw (e, keep q) (update-IsAbsent p f keep q.user_id qs u.0)
    | inr e ↦ rw e (update-IsAbsent p f keep q.user_id qs u.0)
  ],
  update-IsUnique p f keep qs u.1,
)

-- Where the first update leaves no row that passes the test, the second changes nothing.
pub update-settled :
    (p : Quota → Bool) (f g : Quota → Quota)
    → ((q : Quota) → p (f q) ≡ false)
    → (rows : List Quota) → update_where p g (update_where p f rows) ≡ update_where p f rows
unfolding update_where
update-settled p f g h [] = refl
update-settled p f g h (q ∷ qs) = elim (Bool-cases (p q)) [
  | inl e ↦ rw (e, h q, update-settled p f g h qs) refl
  | inr e ↦ rw (e, e, update-settled p f g h qs) refl
]

-- An update without a WHERE clause changes every row.
pub find-update_all :
    (f : Quota → Quota)
    → KeepsUser f
    → (v : ℕ) (rows : List Quota)
    → find v (update_where (λ q. true) f rows) ≡ map_option f (find v rows)
unfolding find update_where
find-update_all f keep v [] = refl
find-update_all f keep v (q ∷ qs) = ground (arith, keep q, find-update_all f keep v qs)

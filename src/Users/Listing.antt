-- ===== src/Users/Listing.antt =====
-- ListUsers of internal/models/user.go.
use shimiaocheng_llm.Prelude.{
  ℕ, ◌≡◌, refl, inl, inr, Bool, true, false, not, List, [], ◌∷◌, ◌++◌, some, text, text_eq, ◌==◌,
  any, keep, All, Bool-cases, Result, ok,
}
use shimiaocheng_llm.Quota.{Quota, find, of_user}
use shimiaocheng_llm.Auth.{User}
use shimiaocheng_llm.Proxy.Exchange.{CallLog}
use shimiaocheng_llm.Provider.Audit.{newest_first}
use shimiaocheng_llm.Users.{UserTables, UserError, UserWithQuota}
use shimiaocheng_llm.Users.Query.{listed, sum_tokens, join_row, joined_rows, list_users}
use shimiaocheng_llm.Users.Invariant.{IsSound, HasQuota}

-- The entry of a user who has a row of quotas, with the Tokens of the log.
pub record IsEntry (quotas : List Quota) (logs : List CallLog) (u : User) (e : UserWithQuota)
    : Type 0 where
  pub row : Quota
  pub found : find u.id quotas ≡ some row
  pub entry : e ≡ listed u row (sum_tokens u.id logs)

-- The entries stand for the users one by one.
abbrev pub Entries : List Quota → List CallLog → List User → List UserWithQuota → Type 0
Entries quotas logs [] [] = Unit
Entries quotas logs [] (e ∷ es) = ⊥
Entries quotas logs (u ∷ us) [] = ⊥
Entries quotas logs (u ∷ us) (e ∷ es) = IsEntry quotas logs u e × Entries quotas logs us es

abbrev pub is_listed : User → Bool
is_listed u = not (text_eq u.status (text "deleted"))

Entries-append :
    (quotas : List Quota) (logs : List CallLog) (us : List User) (es : List UserWithQuota)
    (u : User) (e : UserWithQuota)
    → Entries quotas logs us es
    → IsEntry quotas logs u e
    → Entries quotas logs (us ++ u ∷ []) (es ++ e ∷ [])
Entries-append quotas logs [] [] u e h i = (i, tt)
Entries-append quotas logs [] (x ∷ es) u e h i = absurd h
Entries-append quotas logs (v ∷ us) [] u e h i = absurd h
Entries-append quotas logs (v ∷ us) (x ∷ es) u e h i =
    (h.0, Entries-append quotas logs us es u e h.1 i)

find-of_any :
    (v : ℕ) (qs : List Quota) → any (of_user v) qs ≡ true → (q : Quota) × (find v qs ≡ some q)
unfolding find
find-of_any v [] h = absurd (clash h)
  where
    clash : false ≡ true → ⊥
    clash h = cc
find-of_any v (q ∷ qs) h = elim (Bool-cases (q.user_id == v)) [
  | inl e ↦ (q, rw e refl)
  | inr e ↦ rw e (find-of_any v qs (rw e at h))
]

abbrev Listed :
    List Quota → List CallLog → List User → Result UserError (List UserWithQuota) → Type 0
Listed quotas logs us r =
    (es : List UserWithQuota) × (r ≡ ok es)
    × Entries quotas logs (newest_first (keep is_listed us)) es

joined_rows-Listed :
    (quotas : List Quota) (logs : List CallLog) (us : List User)
    → All (HasQuota quotas) us
    → Listed quotas logs us (joined_rows quotas logs us)
unfolding joined_rows join_row
joined_rows-Listed quotas logs [] h = ([], refl, tt)
joined_rows-Listed quotas logs (u ∷ us) h =
    let (es, e, n) = joined_rows-Listed quotas logs us h.1 in
    let (q, f) = find-of_any u.id quotas h.0 in
    elim (Bool-cases (text_eq u.status (text "deleted"))) [
      | inl d ↦ rw (d, joined_rows) (es, e, n)
      | inr d ↦
          rw (d, joined_rows)
            (
              es ++ listed u q (sum_tokens u.id logs) ∷ [],
              rw (f, e) refl,
              Entries-append quotas logs (newest_first (keep is_listed us)) es u
                  (listed u q (sum_tokens u.id logs)) n
                  (record { row = q; found = f; entry = refl }),
            )
    ]

-- On sound tables the list of users never fails where the query is executed: it has an entry for
-- every user who is not deleted, the newest first, with the row of quotas and the Tokens of the
-- user's calls, and without the hashes of the password and the key.
pub list_users-lists :
    (logs : List CallLog) (t : UserTables)
    → IsSound t
    → (es : List UserWithQuota) × (list_users true logs t ≡ ok es)
      × Entries t.quotas logs (newest_first (keep is_listed t.users)) es
unfolding list_users
list_users-lists logs t w = joined_rows-Listed t.quotas logs t.users w.quotas

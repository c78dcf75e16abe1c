-- ===== src/Users/Keys.antt =====
-- internal/models/user.go with SubKeyAuth of internal/auth/middleware.go: whose keys are admitted
-- after CreateUser and RegenerateUserKey.
use shimiaocheng_llm.Prelude.{
  ℕ, ◌≡◌, ◌≢◌, ◌⊎◌, refl, ap, sym, ◌∙◌, subst, inl, inr, Bool, true, false, List, [], ◌∷◌, ◌++◌,
  Option, none, some, Text, text, text_eq, text_eq_refl, eq_of_text_eq, ◌==◌, ==_refl, any,
  Bool-cases, arith, ok, ok_injective, ok_not_err, IsDistinct,
}
use shimiaocheng_llm.GoTime.{Time, Layout}
use shimiaocheng_llm.Quota.{Quota, find}
use shimiaocheng_llm.Auth.{User, denied, admitted, invalid_api_key, find_by_hash, sub_key_auth}
use shimiaocheng_llm.Auth.Admission.{IsCurrent, sub_key_auth_iff, unknown_key-denied}
use shimiaocheng_llm.Users.{
  UserTables, UserSteps, UserError, UserWithQuota, NewUser, user_row, quota_row, created_user,
  clashes, create_user, update_failed,
}
use shimiaocheng_llm.Users.Changes.{regenerate_user_key, update_user, find_id, exec_user}
use shimiaocheng_llm.Users.Rows.{create_user-cases}
use shimiaocheng_llm.Users.Invariant.{IsSound}
use shimiaocheng_llm.Provider.Rows.{text_eq_symm}

abbrev has_hash : Text → User → Bool
has_hash h u = text_eq u.sub_key_hash h

find_by_hash-none :
    (h : Text) (us : List User) → any (has_hash h) us ≡ false → find_by_hash h us ≡ none
unfolding find_by_hash
find_by_hash-none h [] e = refl
find_by_hash-none h (u ∷ us) e = ground (arith, e, find_by_hash-none h us)

find_by_hash-last :
    (us : List User) (u : User)
    → any (clashes u) us ≡ false
    → u.status ≢ text "deleted"
    → find_by_hash u.sub_key_hash (us ++ u ∷ []) ≡ some u
unfolding find_by_hash
find_by_hash-last [] u c n =
    rw (text_eq_refl u.sub_key_hash, live (Bool-cases (text_eq u.status (text "deleted")))) refl
  where
    live :
        (text_eq u.status (text "deleted") ≡ true) ⊎ (text_eq u.status (text "deleted") ≡ false)
        → text_eq u.status (text "deleted") ≡ false
    live (inl e) = absurd (n (eq_of_text_eq u.status (text "deleted") e))
    live (inr e) = e
find_by_hash-last (v ∷ vs) u c n = rw other (find_by_hash-last vs u (ground (arith, c)) n)
  where
    other : text_eq v.sub_key_hash u.sub_key_hash ≡ false
    other = ground (arith, c)

find-last :
    (qs : List Quota) (q : Quota)
    → find q.user_id qs ≡ none
    → find q.user_id (qs ++ q ∷ []) ≡ some q
unfolding find
find-last [] q h = rw (==_refl q.user_id) refl
find-last (r ∷ rs) q h = elim (Bool-cases (r.user_id == q.user_id)) [
  | inl e ↦ cc
  | inr e ↦ rw e (find-last rs q (rw e at h))
]

-- A user who was created as active, and whose expiry is not over, is admitted by the key that the hash
-- was made of, and has the row of quotas with the limits given and nothing used.
pub create_user-admits :
    (l : Layout) (parse_date : Text → Option Time) (hash : Text → Text) (s : UserSteps)
    (now later : Time) (n : NewUser) (t : UserTables) (u : UserWithQuota) (rest : Text)
    → n.status ≡ text "active"
    → n.sub_key_hash ≡ hash (text "sk-" ++ rest)
    → IsCurrent l parse_date later (user_row l now n t.next_user)
    → (create_user l s now n t).1 ≡ ok u
    → (sub_key_auth l parse_date hash true
          (text "Bearer " ++ text "sk-" ++ rest)
          later
          (create_user l s now n t).0.users
        ≡ admitted u.user)
      × (find u.user.id (create_user l s now n t).0.quotas ≡ some (quota_row l now n t.next_user))
create_user-admits l parse_date hash s now later n t u rest active key current done =
    elim (create_user-cases l s now n t) [
      | inl f ↦ absurd (ok_not_err (sym done ∙ ap (λ a. a.1) f.same))
      | inr c ↦
          let same : created_user l now n t.next_user ≡ u =
            ok_injective (sym (ap (λ a. a.1) c.effect) ∙ done) in
          (
            ap
                  (λ us.
                    sub_key_auth l parse_date hash true (text "Bearer " ++ text "sk-" ++ rest) later
                      us)
                  (ap (λ a. a.0.users) c.effect)
                ∙ passes c.fresh
                ∙ ap (λ x. admitted x.user) same,
            ap (λ x. find x.user.id (create_user l s now n t).0.quotas) (sym same)
                ∙ ap (λ a. find t.next_user a.0.quotas) c.effect
                ∙ find-last t.quotas (quota_row l now n t.next_user) c.no_quota,
          )
    ]
  where
    made : User
    made = user_row l now n t.next_user

    passes :
        any (clashes made) t.users ≡ false
        → sub_key_auth l parse_date hash true
            (text "Bearer " ++ text "sk-" ++ rest)
            later
            (t.users ++ made ∷ [])
          ≡ admitted made
    passes fresh =
        (sub_key_auth_iff l parse_date hash (text "Bearer " ++ text "sk-" ++ rest) later
            (t.users ++ made ∷ []) made).1
          (record {
            rest = rest;
            bearer = refl;
            found =
                ap (λ h. find_by_hash h (t.users ++ made ∷ [])) (sym key)
                ∙ find_by_hash-last t.users made fresh (λ e. no_clash (sym active ∙ e));
            live = (λ e. no_clash' (sym active ∙ e), λ e. no_clash (sym active ∙ e));
            current = current;
          })
      where
        no_clash : text "active" ≡ text "deleted" → ⊥
        no_clash e = cc

        no_clash' : text "active" ≡ text "disabled" → ⊥
        no_clash' e = cc

-- The rows of a hash after the hash of one user was changed.
any-has_hash-update :
    (f : User → User) (id : ℕ) (h : Text) (us : List User)
    → ((u : User) → text_eq (f u).sub_key_hash h ≡ false)
    → any (has_hash h) us ≡ false
    → any (has_hash h) (update_user f id us) ≡ false
unfolding update_user
any-has_hash-update f id h [] k e = refl
any-has_hash-update f id h (u ∷ us) k e = elim (Bool-cases (u.id == id)) [
  | inl i ↦ rw (i, k u) (any-has_hash-update f id h us k (ground (arith, e)))
  | inr i ↦ rw i ground (arith, e, any-has_hash-update f id h us k)
]

-- Who clashes with nobody has a hash of his own.
own_hash :
    (u : User) (us : List User)
    → any (clashes u) us ≡ false
    → any (has_hash u.sub_key_hash) us ≡ false
own_hash u [] e = refl
own_hash u (v ∷ vs) e = ground (arith, e, own_hash u vs)

find_id-apart :
    (v u : User) (id : ℕ) (us : List User)
    → find_id id us ≡ some u
    → any (clashes v) us ≡ false
    → text_eq u.sub_key_hash v.sub_key_hash ≡ false
unfolding find_id
find_id-apart v u id [] e c = cc
find_id-apart v u id (w ∷ ws) e c = elim (Bool-cases (w.id == id)) [
  | inl i ↦
      subst (λ x. text_eq x.sub_key_hash v.sub_key_hash ≡ false) (same (rw i at e))
        (ground (arith, c))
  | inr i ↦ find_id-apart v u id ws (rw i at e) (ground (arith, c))
]
  where
    same : {a b : User} → ◌≡◌ {A = Option User} (some a) (some b) → a ≡ b
    same h = cc

-- The old hash of a user whose hash was changed belongs to nobody.
old_hash-gone :
    (f : User → User) (id : ℕ) (us : List User) (u : User)
    → ((v : User) → text_eq (f v).sub_key_hash u.sub_key_hash ≡ false)
    → IsDistinct clashes us
    → find_id id us ≡ some u
    → any (has_hash u.sub_key_hash) (update_user f id us) ≡ false
unfolding find_id update_user
old_hash-gone f id [] u k d e = cc
old_hash-gone f id (v ∷ vs) u k d e = elim (Bool-cases (v.id == id)) [
  | inl i ↦
      rw (i, k v)
        (any-has_hash-update f id u.sub_key_hash vs k (
          subst (λ x. any (has_hash x.sub_key_hash) vs ≡ false) (same (rw i at e))
            (own_hash v vs d.0)))
  | inr i ↦ rw (i, apart (rw i at e)) (old_hash-gone f id vs u k d.1 (rw i at e))
]
  where
    same : {a b : User} → ◌≡◌ {A = Option User} (some a) (some b) → a ≡ b
    same h = cc

    apart : find_id id vs ≡ some u → text_eq v.sub_key_hash u.sub_key_hash ≡ false
    apart q = text_eq_symm v.sub_key_hash u.sub_key_hash ∙ find_id-apart v u id vs q d.0

-- After a user's key was regenerated to one with another hash, the old key is rejected.
pub regenerate_user_key-revokes :
    (l : Layout) (parse_date : Text → Option Time) (sha : Text → Text) (now later : Time)
    (writes : Bool) (id : ℕ) (hash preview rest : Text) (t : UserTables) (u : User)
    → IsSound t
    → find_id id t.users ≡ some u
    → u.sub_key_hash ≡ sha (text "sk-" ++ rest)
    → text_eq hash u.sub_key_hash ≡ false
    → (regenerate_user_key l writes now id hash preview t).1 ≡ none
    → sub_key_auth l parse_date sha true
        (text "Bearer " ++ text "sk-" ++ rest)
        later
        (regenerate_user_key l writes now id hash preview t).0.users
      ≡ denied 401 invalid_api_key
unfolding regenerate_user_key
regenerate_user_key-revokes l parse_date sha now later writes id hash preview rest t u w found old
      other done =
    executed _ done
  where
    f : User → User
    f v = record v { sub_key_hash = hash; sub_key_preview = preview; updated_at = l.format now }

    none_found : find_by_hash (sha (text "sk-" ++ rest)) (update_user f id t.users) ≡ none
    none_found =
        subst (λ h. find_by_hash h (update_user f id t.users) ≡ none) old
          (find_by_hash-none u.sub_key_hash (update_user f id t.users)
            (old_hash-gone f id t.users u (λ v. other) w.unique found))

    executed :
        (b : Bool)
        → (exec_user b f id t).1 ≡ none
        → sub_key_auth l parse_date sha true
            (text "Bearer " ++ text "sk-" ++ rest)
            later
            (exec_user b f id t).0.users
          ≡ denied 401 invalid_api_key
    executed true e =
        unknown_key-denied l parse_date sha rest later (update_user f id t.users) none_found
    executed false e = absurd (clash e)
      where
        clash : ◌≡◌ {A = Option UserError} (some update_failed) none → ⊥
        clash h = cc

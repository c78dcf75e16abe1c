-- ===== src/Users/Reachable.antt =====
-- Every sequence of the operations of internal/models/user.go, and of DeleteUser of
-- internal/admin/users.go, keeps the tables sound.
use shimiaocheng_llm.Prelude.{
  ℕ, ◌≡◌, refl, sym, ◌∙◌, subst, inl, inr, Bool, true, false, not, ◌&&◌, List, [], ◌∷◌, ◌++◌,
  Option-cases, Text, text, text_eq, ◌==◌, any, keep, Bool-cases, arith, ==_refl, ℤ, pos, negsuc,
  IsDistinct, IsDistinct-append, IsDistinct-keep, IsDistinct-map, any-append, IsNumbered-append,
  IsNumbered-keep, IsNumbered-map, All-append, All-keep, All-weaken,
}
use shimiaocheng_llm.GoTime.{Time, Layout}
use shimiaocheng_llm.Quota.{Quota, of_user}
use shimiaocheng_llm.Auth.{User}
use shimiaocheng_llm.Users.{
  UserTables, UserSteps, NewUser, user_row, quota_row, clashes, create_user,
}
use shimiaocheng_llm.Users.Changes.{
  update_user, exec_user, update_user_status, regenerate_user_key, extend_user_expiry,
  update_user_route, update_user_max_body_size, update_user_max_concurrency, drop_user, delete_user,
  find_id,
}
use shimiaocheng_llm.Users.Rows.{create_user-cases}
use shimiaocheng_llm.Users.Invariant.{
  IsSound, HasQuota, clashes_symm, KeepsNames, update_one, update_user-map, update_one-KeepsNames,
  All-map, update_one-id,
}
use shimiaocheng_llm.Users.Hashes.{set_hash-IsDistinct}

update_user-absent :
    (f : User → User) (id : ℕ) (us : List User)
    → any (λ u. u.id == id) us ≡ false
    → update_user f id us ≡ us
unfolding update_user
update_user-absent f id [] h = refl
update_user-absent f id (u ∷ us) h = elim (Bool-cases (u.id == id)) [
  | inl e ↦ cc
  | inr e ↦ rw (e, update_user-absent f id us (rw e at h)) refl
]

-- A row of another user stays.
kept_quota :
    (v id : ℕ) (qs : List Quota)
    → not (v == id) ≡ true
    → any (of_user v) qs ≡ true
    → any (of_user v) (keep (λ q. not (q.user_id == id)) qs) ≡ true
kept_quota v id [] n h = h
kept_quota v id (q ∷ qs) n h = ground (arith, kept_quota v id qs n)

module _ (l : Layout) (now : Time) (t : UserTables) (w : IsSound t) where
  create_user-IsSound : (s : UserSteps) (n : NewUser) → IsSound (create_user l s now n t).0
  create_user-IsSound s n = elim (create_user-cases l s now n t) [
    | inl f ↦ subst (λ a. IsSound a.0) (sym f.same) w
    | inr c ↦
        subst (λ a. IsSound a.0) (sym c.effect)
          (record {
            unique =
                IsDistinct-append clashes t.users (user_row l now n t.next_user) clashes_symm
                  c.fresh w.unique;
            user_ids = IsNumbered-append (λ u. u.id) 1 t.next_user t.users _ refl w.user_ids;
            quota_ids =
                IsNumbered-append (λ q. q.user_id) 1 t.next_user t.quotas _ refl w.quota_ids;
            quotas =
                All-append (HasQuota (t.quotas ++ quota_row l now n t.next_user ∷ [])) t.users
                  (user_row l now n t.next_user)
                  (All-weaken (HasQuota t.quotas)
                    (HasQuota (t.quotas ++ quota_row l now n t.next_user ∷ [])) t.users
                    (λ u h.
                      any-append (of_user u.id) t.quotas (quota_row l now n t.next_user)
                      ∙ rw h refl)
                    w.quotas)
                  (any-append (of_user t.next_user) t.quotas (quota_row l now n t.next_user)
                    ∙ ground (arith, ==_refl t.next_user));
          })
  ]

  -- An UPDATE of columns that are not unique.
  changed-IsSound :
      (writes : Bool) (f : User → User) (id : ℕ)
      → KeepsNames f
      → IsSound (exec_user writes f id t).0
  changed-IsSound false f id k = w
  changed-IsSound true f id k = rw (update_user-map f id t.users) (record {
    unique =
        IsDistinct-map clashes (update_one f id) t.users
          (λ u v. rw (g.username u, g.username v, g.sub_key_hash u, g.sub_key_hash v) refl)
          w.unique;
    user_ids = IsNumbered-map (λ u. u.id) 1 t.next_user (update_one f id) t.users g.id w.user_ids;
    quota_ids = w.quota_ids;
    quotas = All-map (HasQuota t.quotas) (update_one f id) t.users (λ u h. rw (g.id u) h) w.quotas;
  })
    where
      g : KeepsNames (update_one f id)
      g = update_one-KeepsNames f id k

  rehashed-IsSound :
      (f : User → User) (id : ℕ)
      → ((u : User) → (f u).id ≡ u.id)
      → IsDistinct clashes (update_user f id t.users)
      → IsSound (record t { users = update_user f id t.users })
  rehashed-IsSound f id k d = record {
    unique = d;
    user_ids = rw (update_user-map f id t.users) (
        IsNumbered-map (λ u. u.id) 1 t.next_user (update_one f id) t.users (update_one-id f id k)
          w.user_ids);
    quota_ids = w.quota_ids;
    quotas = rw (update_user-map f id t.users) (
        All-map (HasQuota t.quotas) (update_one f id) t.users (λ u h. rw (update_one-id f id k u) h)
          w.quotas);
  }

  regenerate_user_key-IsSound :
      (writes : Bool) (id : ℕ) (hash preview : Text)
      → IsSound (regenerate_user_key l writes now id hash preview t).0
  unfolding regenerate_user_key
  regenerate_user_key-IsSound writes id hash preview =
      executed
        (writes
          && not (
              any (λ u. not (u.id == id) && text_eq u.sub_key_hash hash) t.users
              && any (λ u. u.id == id) t.users))
        refl
    where
      f : User → User
      f u = record u { sub_key_hash = hash; sub_key_preview = preview; updated_at = l.format now }

      distinct :
          (writes
              && not (
                  any (λ u. not (u.id == id) && text_eq u.sub_key_hash hash) t.users
                  && any (λ u. u.id == id) t.users))
            ≡ true
          → IsDistinct clashes (update_user f id t.users)
      distinct e = elim (Bool-cases (any (λ u. u.id == id) t.users)) [
        | inr x ↦ rw (update_user-absent f id t.users x) w.unique
        | inl x ↦
            set_hash-IsDistinct f id hash (λ u. refl) (λ u. refl) (λ u. refl) 1 t.next_user t.users
              w.user_ids (ground (arith, e, x)) w.unique
      ]

      executed :
          (b : Bool)
          → (writes
              && not (
                  any (λ u. not (u.id == id) && text_eq u.sub_key_hash hash) t.users
                  && any (λ u. u.id == id) t.users))
            ≡ b
          → IsSound (exec_user b f id t).0
      executed false e = w
      executed true e = rehashed-IsSound f id (λ u. refl) (distinct e)

  dropped-IsSound : (id : ℕ) → IsSound (drop_user id t)
  dropped-IsSound id = record {
    unique = IsDistinct-keep clashes (λ u. not (u.id == id)) t.users w.unique;
    user_ids = IsNumbered-keep (λ u. u.id) 1 t.next_user _ t.users w.user_ids;
    quota_ids = IsNumbered-keep (λ q. q.user_id) 1 t.next_user _ t.quotas w.quota_ids;
    quotas =
        All-keep (HasQuota t.quotas) (HasQuota (drop_user id t).quotas) (λ u. not (u.id == id))
          t.users (λ u q h. kept_quota u.id id t.quotas q h) w.quotas;
  }

  delete_user-IsSound : (reads writes : Bool) (id : ℕ) → IsSound (delete_user reads writes id t).0
  unfolding delete_user
  delete_user-IsSound false writes id = w
  delete_user-IsSound true writes id = elim (Option-cases (find_id id t.users)) [
    | inl e ↦ rw (e, delete_user) w
    | inr (u, e) ↦ elim (Bool-cases (text_eq u.role (text "admin"))) [
      | inl a ↦ rw (e, a, delete_user) w
      | inr a ↦ elim (Bool-cases writes) [
        | inl b ↦ rw (e, a, b, delete_user) (dropped-IsSound id)
        | inr b ↦ rw (e, a, b, delete_user) w
      ]
    ]
  ]

-- The operations with their arguments and whether the statements are executed.
pub data UserOperation : Type 0 where
  create : UserSteps → NewUser → UserOperation
  set_status : Bool → ℕ → Text → UserOperation
  new_key : Bool → ℕ → (hash preview : Text) → UserOperation
  extend : Bool → ℕ → Text → UserOperation
  set_route : Bool → ℕ → (route_mode fixed_provider : Text) → UserOperation
  set_body_size : Bool → ℕ → ℕ → UserOperation
  set_concurrency : Bool → ℕ → ℤ → UserOperation
  remove : (reads writes : Bool) → ℕ → UserOperation

module _ (l : Layout) where
  unfoldable pub apply : UserOperation → Time → UserTables → UserTables
  apply (create s n) now t = (create_user l s now n t).0
  apply (set_status b id v) now t = (update_user_status l b now id v t).0
  apply (new_key b id h p) now t = (regenerate_user_key l b now id h p t).0
  apply (extend b id v) now t = (extend_user_expiry l b now id v t).0
  apply (set_route b id m p) now t = (update_user_route l b now id m p t).0
  apply (set_body_size b id v) now t = (update_user_max_body_size l b now id v t).0
  apply (set_concurrency b id v) now t = (update_user_max_concurrency l b now id v t).0
  apply (remove r b id) now t = (delete_user r b id t).0

  unfoldable pub run : List (UserOperation × Time) → UserTables → UserTables
  unfolding apply
  run [] t = t
  run ((o, now) ∷ os) t = run os (apply o now t)

  apply-IsSound :
      (o : UserOperation) (now : Time) (t : UserTables) → IsSound t → IsSound (apply o now t)
  unfolding apply update_user_status extend_user_expiry update_user_route update_user_max_body_size
      update_user_max_concurrency
  apply-IsSound (create s n) now t w = create_user-IsSound l now t w s n
  apply-IsSound (set_status b id v) now t w =
      changed-IsSound l now t w b _ id
        (record { id = λ u. refl; username = λ u. refl; sub_key_hash = λ u. refl })
  apply-IsSound (new_key b id h p) now t w = regenerate_user_key-IsSound l now t w b id h p
  apply-IsSound (extend b id v) now t w =
      changed-IsSound l now t w b _ id
        (record { id = λ u. refl; username = λ u. refl; sub_key_hash = λ u. refl })
  apply-IsSound (set_route b id m p) now t w =
      changed-IsSound l now t w b _ id
        (record { id = λ u. refl; username = λ u. refl; sub_key_hash = λ u. refl })
  apply-IsSound (set_body_size b id v) now t w =
      changed-IsSound l now t w b _ id
        (record { id = λ u. refl; username = λ u. refl; sub_key_hash = λ u. refl })
  apply-IsSound (set_concurrency b id (pos v)) now t w =
      changed-IsSound l now t w b _ id
        (record { id = λ u. refl; username = λ u. refl; sub_key_hash = λ u. refl })
  apply-IsSound (set_concurrency b id (negsuc v)) now t w = w
  apply-IsSound (remove r b id) now t w = delete_user-IsSound l now t w r b id

  -- From tables that are sound, every sequence of operations, each with any of its statements failing,
  -- leads to tables that are: usernames and hashes of keys are distinct, ids ascend, no user has two
  -- rows of quotas, and every user has one.
  pub run-IsSound :
      (os : List (UserOperation × Time)) (t : UserTables) → IsSound t → IsSound (run os t)
  unfolding run
  run-IsSound [] t w = w
  run-IsSound ((o, now) ∷ os) t w = run-IsSound os (apply o now t) (apply-IsSound o now t w)

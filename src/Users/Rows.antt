-- ===== src/Users/Rows.antt =====
-- CreateUser of internal/models/user.go: what it can do, and its effect on the tables.
use shimiaocheng_llm.Prelude.{
  ◌+◌, ◌≡◌, ◌⊎◌, refl, inl, inr, false, [], ◌∷◌, ◌++◌, none, Option-cases, any, Bool-cases, Result,
  ok, err,
}
use shimiaocheng_llm.GoTime.{Time, Layout}
use shimiaocheng_llm.Quota.{find}
use shimiaocheng_llm.Users.{
  UserTables, UserSteps, UserError, begin_failed, insert_user_failed, insert_quota_failed,
  commit_failed, UserWithQuota, NewUser, user_row, quota_row, created_user, clashes, insert_user,
  insert_quota, commit_user, with_quota, create_user,
}

module _ (l : Layout) (s : UserSteps) (now : Time) (n : NewUser) (t : UserTables) where
  -- A user who was created: both rows are new, and the last of their tables.
  pub record UserCreated (after : UserTables × Result UserError UserWithQuota) : Type 0 where
    pub fresh : any (clashes (user_row l now n t.next_user)) t.users ≡ false
    pub no_quota : find t.next_user t.quotas ≡ none
    pub effect : after ≡ (
      record {
        users = t.users ++ user_row l now n t.next_user ∷ [];
        quotas = t.quotas ++ quota_row l now n t.next_user ∷ [];
        next_user = t.next_user + 1;
      },
      ok (created_user l now n t.next_user),
    )

  pub record UserFailed (after : UserTables × Result UserError UserWithQuota) : Type 0 where
    pub error : UserError
    pub same : after ≡ (t, err error)

  abbrev pub UserCases : UserTables × Result UserError UserWithQuota → Type 0
  UserCases after = UserFailed after ⊎ UserCreated after

  -- `create_user` fails and leaves the tables, or appends both rows.
  pub create_user-cases : UserCases (create_user l s now n t)
  unfolding create_user with_quota commit_user insert_user insert_quota
  create_user-cases = elim (Bool-cases s.begins) [
    | inr b ↦ inl (record { error = begin_failed; same = rw (b, create_user) refl })
    | inl b ↦ elim (Bool-cases s.writes) [
      | inr x ↦ inl (record { error = insert_user_failed; same = rw (b, x, create_user) refl })
      | inl x ↦ elim (Bool-cases (any (clashes (user_row l now n t.next_user)) t.users)) [
        | inl k ↦ inl (record { error = insert_user_failed; same = rw (b, x, k, create_user) refl })
        | inr k ↦ elim (Bool-cases s.writes_quota) [
          | inr y ↦
              inl (record { error = insert_quota_failed; same = rw (b, x, k, y, create_user) refl })
          | inl y ↦ elim (Option-cases (find t.next_user t.quotas)) [
            | inr (q, z) ↦ inl (record {
              error = insert_quota_failed;
              same = rw (b, x, k, y, insert_quota, z, create_user) refl;
            })
            | inl z ↦ elim (Bool-cases s.commits) [
              | inr m ↦ inl (record {
                error = commit_failed;
                same = rw (b, x, k, y, insert_quota, z, m, create_user, commit_user) refl;
              })
              | inl m ↦ inr (record {
                fresh = k;
                no_quota = z;
                effect = rw (b, x, k, y, insert_quota, z, m, create_user, commit_user) refl;
              })
            ]
          ]
        ]
      ]
    ]
  ]

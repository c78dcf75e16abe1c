-- ===== src/Users/Invariant.antt =====
-- The tables of internal/models/user.go under any sequence of its operations, failures included.
use shimiaocheng_llm.Prelude.{
  ℕ, suc, ◌≤◌, ◌≡◌, refl, ap, inl, inr, true, List, [], ◌∷◌, if◌then◌else◌, ◌==◌, any, All, map,
  Bool-cases, arith, IsDistinct, IsNumbered,
}
use shimiaocheng_llm.Quota.{Quota, of_user}
use shimiaocheng_llm.Quota.Table.{IsUnique, IsAbsent}
use shimiaocheng_llm.Auth.{User}
use shimiaocheng_llm.Provider.Rows.{text_eq_symm}
use shimiaocheng_llm.Users.{UserTables, clashes}
use shimiaocheng_llm.Users.Changes.{update_user}

-- The user has a row of quotas.
abbrev pub HasQuota : List Quota → User → Type 0
HasQuota quotas u = any (of_user u.id) quotas ≡ true

pub record IsSound (t : UserTables) : Type 0 where
  pub unique : IsDistinct clashes t.users
  pub user_ids : IsNumbered (λ u. u.id) 1 t.next_user t.users
  pub quota_ids : IsNumbered (λ q. q.user_id) 1 t.next_user t.quotas
  pub quotas : All (HasQuota t.quotas) t.users

pub clashes_symm : (u v : User) → clashes u v ≡ clashes v u
clashes_symm u v =
    rw (text_eq_symm v.username u.username, text_eq_symm v.sub_key_hash u.sub_key_hash) refl

-- Ascending ids are distinct: no user has two rows of quotas.
pub numbered-IsUnique :
    (lo hi : ℕ) (qs : List Quota) → IsNumbered (λ q. q.user_id) lo hi qs → IsUnique qs
numbered-IsUnique lo hi [] n = tt
numbered-IsUnique lo hi (q ∷ qs) n =
    (absent (suc q.user_id) qs n.1 (omega arith), numbered-IsUnique (suc q.user_id) hi qs n.1)
  where
    absent :
        (lo : ℕ) (qs : List Quota)
        → IsNumbered (λ q. q.user_id) lo hi qs
        → suc q.user_id ≤ lo
        → IsAbsent q.user_id qs
    absent lo [] n h = tt
    absent lo (r ∷ rs) n h =
        (ground (arith, n.0, h), absent (suc r.user_id) rs n.1 (omega (arith, n.0, h)))

-- A change of columns other than the id and the two that are unique.
pub record KeepsNames (f : User → User) : Type 0 where
  pub id : (u : User) → (f u).id ≡ u.id
  pub username : (u : User) → (f u).username ≡ u.username
  pub sub_key_hash : (u : User) → (f u).sub_key_hash ≡ u.sub_key_hash

abbrev pub update_one : (User → User) → ℕ → User → User
update_one f id u = if u.id == id then f u else u

pub update_user-map :
    (f : User → User) (id : ℕ) (us : List User) → update_user f id us ≡ map (update_one f id) us
unfolding update_user
update_user-map f id [] = refl
update_user-map f id (u ∷ us) = ap (λ t. update_one f id u ∷ t) (update_user-map f id us)

pub update_one-id :
    (f : User → User) (id : ℕ)
    → ((u : User) → (f u).id ≡ u.id)
    → (u : User) → (update_one f id u).id ≡ u.id
update_one-id f id k u = elim (Bool-cases (u.id == id)) [ inl e ↦ rw e (k u) | inr e ↦ rw e refl ]

pub update_one-KeepsNames : (f : User → User) (id : ℕ) → KeepsNames f → KeepsNames (update_one f id)
update_one-KeepsNames f id k = record {
  id = update_one-id f id k.id;
  username = λ u. name u;
  sub_key_hash = λ u. hash u;
}
  where
    name : (u : User) → (update_one f id u).username ≡ u.username
    name u = elim (Bool-cases (u.id == id)) [ inl e ↦ rw e (k.username u) | inr e ↦ rw e refl ]

    hash : (u : User) → (update_one f id u).sub_key_hash ≡ u.sub_key_hash
    hash u = elim (Bool-cases (u.id == id)) [ inl e ↦ rw e (k.sub_key_hash u) | inr e ↦ rw e refl ]

pub All-map :
    (P : User → Type 0) (g : User → User) (us : List User)
    → ((u : User) → P u → P (g u))
    → All P us
    → All P (map g us)
All-map P g [] k h = tt
All-map P g (u ∷ us) k h = (k u h.0, All-map P g us k h.1)

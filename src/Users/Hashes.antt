-- ===== src/Users/Hashes.antt =====
-- RegenerateUserKey of internal/models/user.go: hashes of keys stay distinct.
use shimiaocheng_llm.Prelude.{
  ℕ, suc, ◌≤◌, ◌≡◌, refl, inl, inr, Bool, true, false, not, ◌&&◌, List, [], ◌∷◌, Text, text_eq,
  ◌==◌, any, Bool-cases, arith, IsDistinct, IsNumbered,
}
use shimiaocheng_llm.Auth.{User}
use shimiaocheng_llm.Provider.Rows.{text_eq_symm}
use shimiaocheng_llm.Users.{clashes}
use shimiaocheng_llm.Users.Changes.{update_user}

-- A statement that sets the key's hash of one user.
module _ (f : User → User) (id : ℕ) (hash : Text) (keeps : (u : User) → (f u).id ≡ u.id)
    (names : (u : User) → (f u).username ≡ u.username)
    (sets : (u : User) → (f u).sub_key_hash ≡ hash) where
  pub unchanged :
      (lo hi : ℕ) (us : List User)
      → IsNumbered (λ u. u.id) lo hi us
      → suc id ≤ lo
      → update_user f id us ≡ us
  unfolding update_user
  unchanged lo hi [] n h = refl
  unchanged lo hi (u ∷ us) n h =
      rw (other, unchanged (suc u.id) hi us n.1 (omega (arith, n.0, h))) refl
    where
      other : (u.id == id) ≡ false
      other = ground (arith, n.0, h)

  abbrev taken : List User → Bool
  taken us = any (λ u. not (u.id == id) && text_eq u.sub_key_hash hash) us

  -- The changed row clashes with no later one.
  changed_head :
      (u : User) (lo hi : ℕ) (us : List User)
      → IsNumbered (λ u. u.id) lo hi us
      → suc id ≤ lo
      → taken us ≡ false
      → any (clashes u) us ≡ false
      → any (clashes (f u)) us ≡ false
  changed_head u lo hi [] n h t c = refl
  changed_head u lo hi (v ∷ vs) n h t c =
      rw (names u, sets u) ground
        (arith, t, c, n.0, h, changed_head u (suc v.id) hi vs n.1 (omega (arith, n.0, h)))

  -- Nor does an earlier one with the changed row.
  kept_head :
      (u : User) (us : List User)
      → text_eq u.sub_key_hash hash ≡ false
      → any (clashes u) us ≡ false
      → any (clashes u) (update_user f id us) ≡ false
  unfolding update_user
  kept_head u [] t c = refl
  kept_head u (v ∷ vs) t c = elim (Bool-cases (v.id == id)) [
    | inl e ↦
        rw (e, names v, sets v) ground
          (arith, text_eq_symm hash u.sub_key_hash, t, c, kept_head u vs t)
    | inr e ↦ rw e ground (arith, c, kept_head u vs t)
  ]

  pub set_hash-IsDistinct :
      (lo hi : ℕ) (us : List User)
      → IsNumbered (λ u. u.id) lo hi us
      → taken us ≡ false
      → IsDistinct clashes us
      → IsDistinct clashes (update_user f id us)
  unfolding update_user
  set_hash-IsDistinct lo hi [] n t d = tt
  set_hash-IsDistinct lo hi (u ∷ us) n t d = elim (Bool-cases (u.id == id)) [
    | inl e ↦
        rw (e, unchanged (suc u.id) hi us n.1 (above e))
          (changed_head u (suc u.id) hi us n.1 (above e) (ground (arith, t)) d.0, d.1)
    | inr e ↦ rw e (
      kept_head u us (ground (arith, t, e)) d.0,
      set_hash-IsDistinct (suc u.id) hi us n.1 (ground (arith, t)) d.1,
    )
  ]
    where
      above : (u.id == id) ≡ true → suc id ≤ suc u.id
      above e = ground (arith, e)

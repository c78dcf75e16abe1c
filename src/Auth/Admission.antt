-- ===== src/Auth/Admission.antt =====
-- SubKeyAuth of internal/auth/middleware.go: who is admitted.
use shimiaocheng_llm.Prelude.{
  ℕ, ◌≤◌, ◌≡◌, ◌≢◌, ◌↔◌, ◌⊎◌, inl, inr, refl, sym, ap, subst, ◌∙◌, Bool, true, false, List, [], ◌∷◌,
  ◌++◌, Option, none, some, Text, text, text_eq, text_eq_iff, ltb, if◌then◌else◌, arith, Bool-cases,
  Option-cases,
}
use shimiaocheng_llm.GoTime.{Time, Layout}
use shimiaocheng_llm.Proxy.Body.{after_prefix}
use shimiaocheng_llm.Auth.{
  User, AuthResult, AuthError, key_revoked, key_expired, invalid_api_key, denied, admitted,
  parse_expiry, find_by_hash, is_revoked, is_over, is_expired, check_user, sub_key_auth,
}

after_prefix_eq : (p s r : Text) → after_prefix p s ≡ some r → s ≡ p ++ r
unfolding after_prefix
after_prefix_eq [] s r h = cc
after_prefix_eq (c ∷ p) [] r h = cc
after_prefix_eq (c ∷ p) (d ∷ s) r h = ground (arith, after_prefix_eq p s r)

after_prefix_append : (p r : Text) → after_prefix p (p ++ r) ≡ some r
unfolding after_prefix
after_prefix_append [] r = refl
after_prefix_append (c ∷ p) r = ground (arith, after_prefix_append p r)

-- A user who has not been disabled or deleted.
abbrev pub IsLive : User → Type 0
IsLive u = (u.status ≢ text "disabled") × (u.status ≢ text "deleted")

-- An administrator, a user without an expiry, or one whose expiry parses and is not over.
abbrev pub IsCurrent : Layout → (Text → Option Time) → Time → User → Type 0
IsCurrent l parse_date now u =
    (u.role ≡ text "admin")
    ⊎ (u.expires_at ≡ [])
    ⊎ ((e : Time) × (parse_expiry l parse_date u.expires_at ≡ some e) × (now.nanos ≤ e.nanos))

-- A header that carries a key of a user who may call.
pub record MayPass (l : Layout) (parse_date : Text → Option Time) (hash : Text → Text)
    (header : Text) (now : Time) (users : List User) (u : User) : Type 0 where
  pub rest : Text
  pub bearer : header ≡ text "Bearer " ++ text "sk-" ++ rest
  pub found : find_by_hash (hash (text "sk-" ++ rest)) users ≡ some u
  pub live : IsLive u
  pub current : IsCurrent l parse_date now u

is_revoked_iff : (u : User) → (is_revoked u ≡ false) ↔ IsLive u
unfolding is_revoked
is_revoked_iff u =
    ground (arith, text_eq_iff u.status (text "disabled"), text_eq_iff u.status (text "deleted"))

over_cases :
    (l : Layout) (parse_date : Text → Option Time) (now : Time) (u : User)
    → is_over l parse_date now u ≡ false
    → (e : Time) × (parse_expiry l parse_date u.expires_at ≡ some e) × (now.nanos ≤ e.nanos)
unfolding is_over
over_cases l parse_date now u h = elim (Option-cases (parse_expiry l parse_date u.expires_at)) [
  | inl e ↦ absurd (apart (rw (e, is_over) at h))
  | inr (t, e) ↦ (t, e, below t (rw (e, is_over) at h))
]
  where
    apart : true ≡ false → ⊥
    apart k = cc

    below : (t : Time) → ltb t.nanos now.nanos ≡ false → now.nanos ≤ t.nanos
    below t k = ground arith

over_within :
    (l : Layout) (parse_date : Text → Option Time) (now e : Time) (u : User)
    → parse_expiry l parse_date u.expires_at ≡ some e
    → now.nanos ≤ e.nanos
    → is_over l parse_date now u ≡ false
unfolding is_over
over_within l parse_date now e u p h = rw (p, is_over) (ground arith)

expired_cases :
    (l : Layout) (parse_date : Text → Option Time) (now : Time) (u : User)
    → is_expired l parse_date now u ≡ false
    → IsCurrent l parse_date now u
unfolding is_expired
expired_cases l parse_date now u h = elim (Bool-cases (text_eq u.role (text "admin"))) [
  | inl a ↦ inl ((text_eq_iff u.role (text "admin")).0 a)
  | inr a ↦ elim (Bool-cases (text_eq u.expires_at [])) [
    | inl b ↦ inr (inl ((text_eq_iff u.expires_at []).0 b))
    | inr b ↦ inr (inr (over_cases l parse_date now u (ground (arith, a, b, h))))
  ]
]

current-expired :
    (l : Layout) (parse_date : Text → Option Time) (now : Time) (u : User)
    → IsCurrent l parse_date now u
    → is_expired l parse_date now u ≡ false
unfolding is_expired
current-expired l parse_date now u (inl a) =
    let k = (text_eq_iff u.role (text "admin")).1 a in rw k refl
current-expired l parse_date now u (inr (inl b)) =
    let k = (text_eq_iff u.expires_at []).1 b in ground (arith, k)
current-expired l parse_date now u (inr (inr (e, p, h))) =
    let k = over_within l parse_date now e u p h in ground (arith, k)

check_user-cases :
    (l : Layout) (parse_date : Text → Option Time) (now : Time) (u v : User)
    → check_user l parse_date now u ≡ admitted v
    → (u ≡ v) × (is_revoked u ≡ false) × (is_expired l parse_date now u ≡ false)
unfolding check_user
check_user-cases l parse_date now u v h = chosen (is_revoked u) (is_expired l parse_date now u) h
  where
    chosen :
        (a b : Bool)
        → ◌≡◌ {A = AuthResult}
            (if a then denied 403 key_revoked else if b then denied 403 key_expired else admitted u)
            (admitted v)
        → (u ≡ v) × (a ≡ false) × (b ≡ false)
    chosen true b e = cc
    chosen false true e = cc
    chosen false false e = (cc, refl, refl)

check_user-admits :
    (l : Layout) (parse_date : Text → Option Time) (now : Time) (u : User)
    → IsLive u
    → IsCurrent l parse_date now u
    → check_user l parse_date now u ≡ admitted u
unfolding check_user
check_user-admits l parse_date now u live current =
    rw ((is_revoked_iff u).1 live, current-expired l parse_date now u current) refl

-- A request is let through as a user exactly when its header is "Bearer " and a key that begins with
-- "sk-", the hash of the key finds that user, who is neither disabled nor deleted, and who is an
-- administrator, has no expiry, or one that parses and is not over. It takes that the table can
-- be read.
pub sub_key_auth_iff :
    (l : Layout) (parse_date : Text → Option Time) (hash : Text → Text) (header : Text) (now : Time)
    (users : List User) (u : User)
    → (sub_key_auth l parse_date hash true header now users ≡ admitted u)
      ↔ MayPass l parse_date hash header now users u
unfolding sub_key_auth
sub_key_auth_iff l parse_date hash header now users u = (into, back)
  where
    into :
        sub_key_auth l parse_date hash true header now users ≡ admitted u
        → MayPass l parse_date hash header now users u
    into h = elim (Option-cases (after_prefix (text "Bearer ") header)) [
      | inl e ↦ absurd (no (rw (e, sub_key_auth) at h))
      | inr (key, e) ↦ elim (Option-cases (after_prefix (text "sk-") key)) [
        | inl e' ↦ absurd (no (rw (e, sub_key_auth, e') at h))
        | inr (rest, e') ↦ elim (Option-cases (find_by_hash (hash key) users)) [
          | inl e'' ↦ absurd (no (rw (e, sub_key_auth, e', e'') at h))
          | inr (v, e'') ↦ passed key rest v e e' e'' (rw (e, sub_key_auth, e', e'') at h)
        ]
      ]
    ]
      where
        no : {n : ℕ} {a : AuthError} → denied n a ≡ admitted u → ⊥
        no k = cc

        passed :
            (key rest : Text) (v : User)
            → after_prefix (text "Bearer ") header ≡ some key
            → after_prefix (text "sk-") key ≡ some rest
            → find_by_hash (hash key) users ≡ some v
            → check_user l parse_date now v ≡ admitted u
            → MayPass l parse_date hash header now users u
        passed key rest v e e' e'' k =
            let (same, live, current) = check_user-cases l parse_date now v u k in
            let key-eq = after_prefix_eq (text "sk-") key rest e' in
            record {
              rest = rest;
              bearer =
                  after_prefix_eq (text "Bearer ") header key e
                  ∙ ap (λ t. text "Bearer " ++ t) key-eq;
              found = ap (λ t. find_by_hash (hash t) users) (sym key-eq) ∙ e'' ∙ ap some same;
              live = subst (λ w. IsLive w) same ((is_revoked_iff v).0 live);
              current =
                  subst (λ w. IsCurrent l parse_date now w) same
                    (expired_cases l parse_date now v current);
            }

    back :
        MayPass l parse_date hash header now users u
        → sub_key_auth l parse_date hash true header now users ≡ admitted u
    back m =
        let carried : after_prefix (text "Bearer ") header ≡ some (text "sk-" ++ m.rest) =
          ap (after_prefix (text "Bearer ")) m.bearer
          ∙ after_prefix_append (text "Bearer ") (text "sk-" ++ m.rest) in
        let prefixed : after_prefix (text "sk-") (text "sk-" ++ m.rest) ≡ some m.rest =
          after_prefix_append (text "sk-") m.rest in
        rw (carried, sub_key_auth, prefixed, m.found)
          (check_user-admits l parse_date now u m.live m.current)

-- A key whose hash finds nobody is rejected.
pub unknown_key-denied :
    (l : Layout) (parse_date : Text → Option Time) (hash : Text → Text) (rest : Text) (now : Time)
    (users : List User)
    → find_by_hash (hash (text "sk-" ++ rest)) users ≡ none
    → sub_key_auth l parse_date hash true (text "Bearer " ++ text "sk-" ++ rest) now users
      ≡ denied 401 invalid_api_key
unfolding sub_key_auth
unknown_key-denied l parse_date hash rest now users h = rw (carried, sub_key_auth, prefixed, h) refl
  where
    carried :
        after_prefix (text "Bearer ") (text "Bearer " ++ text "sk-" ++ rest)
        ≡ some (text "sk-" ++ rest)
    carried = after_prefix_append (text "Bearer ") (text "sk-" ++ rest)

    prefixed : after_prefix (text "sk-") (text "sk-" ++ rest) ≡ some rest
    prefixed = after_prefix_append (text "sk-") rest

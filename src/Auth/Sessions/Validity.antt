-- ===== src/Auth/Sessions/Validity.antt =====
-- How long a session of the panel lasts.
use shimiaocheng_llm.Prelude.{
  ℕ, ◌+◌, ◌*◌, ◌/◌, ◌%◌, ◌^◌, ◌<◌, ◌≤◌, ◌≡◌, refl, ap, sym, ◌∙◌, subst, inl, inr, Bool, true, false,
  not, ◌&&◌, List, [], ◌∷◌, ◌++◌, Option, none, some, Text, text_eq_refl, text_lt, text_le,
  text_lt_trans, text_lt_connected, ltb, if◌then◌else◌, any, keep, Bool-cases, arith, ok,
  ok_not_err,
}
use shimiaocheng_llm.GoTime.{Time, Layout, IsLayout, HasFourDigits, hour, second}
use shimiaocheng_llm.Auth.Sessions.{
  AdminSession, SessionTable, session_end, has_token, session_row, create_session, find_valid,
  get_valid_session, delete_session, clean_expired_sessions, PanelResult, as_admin, refused,
  session_expired, admin_session_auth_api, api_answer,
}

find_valid-last :
    (token now : Text) (ss : List AdminSession) (s : AdminSession)
    → any (has_token token) ss ≡ false
    → has_token token s ≡ true
    → find_valid token now (ss ++ s ∷ []) ≡ (if text_lt now s.expires_at then some s else none)
unfolding find_valid
find_valid-last token now [] s h k = rw k refl
find_valid-last token now (r ∷ ss) s h k = elim (Bool-cases (has_token token r)) [
  | inl e ↦ cc
  | inr e ↦ rw e (find_valid-last token now ss s (rw e at h) k)
]

-- No row of the token is left.
find_valid-deleted :
    (token now : Text) (ss : List AdminSession)
    → find_valid token now (keep (λ s. not (has_token token s)) ss) ≡ none
unfolding find_valid
find_valid-deleted token now [] = refl
find_valid-deleted token now (s ∷ ss) = elim (Bool-cases (has_token token s)) [
  | inl e ↦ rw e (find_valid-deleted token now ss)
  | inr e ↦ rw (e, e) (find_valid-deleted token now ss)
]

-- What is over at a text is over at a later one.
over_later :
    (now later expires : Text)
    → text_lt later now ≡ false
    → text_lt now expires ≡ false
    → text_lt later expires ≡ false
over_later now later expires o h = elim (Bool-cases (text_lt later expires)) [
  | inr e ↦ e
  | inl e ↦ elim (Bool-cases (text_lt expires now)) [
    | inl k ↦ absurd (differ (sym (text_lt_trans later expires now e k) ∙ o))
    | inr k ↦ absurd (
        differ (sym e ∙ subst (λ t. text_lt later t ≡ false) (text_lt_connected now expires h k) o))
  ]
]
  where
    differ : true ≡ false → ⊥
    differ h = cc

find_valid-cleaned :
    (token now later : Text) (ss : List AdminSession)
    → text_lt later now ≡ false
    → find_valid token later (keep (λ s. not (text_le s.expires_at now)) ss)
      ≡ find_valid token later ss
unfolding find_valid
find_valid-cleaned token now later [] o = refl
find_valid-cleaned token now later (s ∷ ss) o = elim (Bool-cases (text_lt now s.expires_at)) [
  | inl e ↦ elim (Bool-cases (has_token token s && text_lt later s.expires_at)) [
    | inl k ↦ rw (e, k) refl
    | inr k ↦ rw (e, k) (find_valid-cleaned token now later ss o)
  ]
  | inr e ↦
      rw (e, over_later now later s.expires_at o e)
        (find_valid-cleaned token now later ss o ∙ skipped (has_token token s))
]
  where
    skipped :
        (b : Bool)
        → find_valid token later ss ≡ (if b && false then some s else find_valid token later ss)
    skipped true = refl
    skipped false = refl

-- The cleaning of expired sessions is never noticed: every request to the panel at the same instant
-- or a later one, on a clock of the same zone and before the year 10000, is answered as without it.
pub clean_expired_sessions_unnoticed :
    (l : Layout) (now later : Time) (writes reads : Bool) (cookie : Option Text) (t : SessionTable)
    → IsLayout l
    → now.zone ≡ later.zone
    → HasFourDigits now
    → HasFourDigits later
    → now.nanos ≤ later.nanos
    → admin_session_auth_api l reads later cookie (clean_expired_sessions l writes now t).0
      ≡ admin_session_auth_api l reads later cookie t
unfolding admin_session_auth_api get_valid_session clean_expired_sessions
clean_expired_sessions_unnoticed l now later writes reads none t law z y y' o = refl
clean_expired_sessions_unnoticed l now later false reads (some token) t law z y y' o = refl
clean_expired_sessions_unnoticed l now later true false (some token) t law z y y' o = refl
clean_expired_sessions_unnoticed l now later true true (some token) t law z y y' o =
    ap (λ f. api_answer (ok f))
      (find_valid-cleaned token (l.format now) (l.format later) t.rows
        (law.format_lt later now (sym z) y' y ∙ not_before))
  where
    not_before : ltb (later.nanos / second) (now.nanos / second) ≡ false
    not_before = ground (arith, o)

session_end-short :
    (hours : ℕ) (now : Time)
    → hours * hour < 2 ^ 63
    → session_end hours now ≡ record now { nanos = now.nanos + hours * hour }
unfolding session_end
session_end-short hours now h = rw (small, below) refl
  where
    small : hours * hour % 2 ^ 64 ≡ hours * hour
    small = omega (arith, h)

    below : ltb (hours * hour) (2 ^ 63) ≡ true
    below = ground (arith, h)

-- A session that was created for a number of hours whose duration does not overflow, and that ends
-- before the year 10000, lets the requests with its token through, on a clock of the same zone and
-- at instants before that year, exactly while the seconds of its end are not
-- reached, and none from the moment on that it was deleted.
pub create_session-lifetime :
    (l : Layout) (now later : Time) (writes : Bool) (hours : ℕ) (token : Text) (t : SessionTable)
    (s : AdminSession)
    → IsLayout l
    → now.zone ≡ later.zone
    → HasFourDigits later
    → HasFourDigits (record now { nanos = now.nanos + hours * hour })
    → hours * hour < 2 ^ 63
    → (create_session l writes now hours token t).1 ≡ ok s
    → (admin_session_auth_api l true later
          (some token)
          (create_session l writes now hours token t).0
        ≡ (if ltb (later.nanos / second) ((now.nanos + hours * hour) / second)
            then as_admin
            else refused 401 session_expired))
      × (admin_session_auth_api l true later
            (some token)
            (delete_session true token (create_session l writes now hours token t).0).0
          ≡ refused 401 session_expired)
unfolding admin_session_auth_api get_valid_session delete_session create_session
create_session-lifetime l now later writes hours token t s law z y y' h done =
    elim (Bool-cases (writes && not (any (has_token token) t.rows))) [
      | inr b ↦ absurd (ok_not_err (sym (rw (b, create_session) at done)))
      | inl b ↦ (
        rw (b, create_session)
            (ap (λ f. api_answer (ok f))
                (find_valid-last token (l.format later) t.rows
                  (session_row l now hours token t.next_id) (ground (arith, b))
                  (text_eq_refl token))
              ∙ answered (text_lt (l.format later) (l.format (session_end hours now)))
              ∙ lasting),
        ap (λ f. api_answer (ok f)) (find_valid-deleted token (l.format later) _),
      )
    ]
  where
    answered :
        (b : Bool)
        → api_answer (ok (if b then some (session_row l now hours token t.next_id) else none))
          ≡ (if b then as_admin else refused 401 session_expired)
    answered true = refl
    answered false = refl

    lasting :
        ◌≡◌ {A = PanelResult}
          (if text_lt (l.format later) (l.format (session_end hours now))
            then as_admin
            else refused 401 session_expired)
          (if ltb (later.nanos / second) ((now.nanos + hours * hour) / second)
            then as_admin
            else refused 401 session_expired)
    lasting =
        ap
          (λ e.
            if text_lt (l.format later) (l.format e) then as_admin else refused 401 session_expired)
          (session_end-short hours now h)
        ∙ ap (λ b. if b then as_admin else refused 401 session_expired)
            (law.format_lt later (record now { nanos = now.nanos + hours * hour }) (sym z) y y')

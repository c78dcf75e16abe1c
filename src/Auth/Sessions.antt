-- ===== src/Auth/Sessions.antt =====
-- internal/models/session.go, and AdminSessionAuth and AdminSessionAuthAPI of
-- internal/auth/middleware.go: the sessions of the administration panel.
pub mod Validity
use shimiaocheng_llm.Prelude.{
  ℕ, ◌+◌, ◌-◌, ◌*◌, ◌%◌, ◌^◌, Bool, true, false, not, ◌&&◌, List, [], ◌∷◌, ◌++◌, Option, none, some,
  Text, text_eq, text_lt, text_le, ltb, if◌then◌else◌, any, keep, length, Result, ok, err,
}
use shimiaocheng_llm.GoTime.{Time, Layout, hour, add, sub}

pub record AdminSession : Type 0 where
  pub id : ℕ
  pub session_token : Text
  pub created_at : Text
  pub expires_at : Text

-- The table: its rows, and the next id.
pub record SessionTable : Type 0 where
  pub rows : List AdminSession
  pub next_id : ℕ

pub data SessionError : Type 0 where
  create_failed query_failed delete_failed clean_failed : SessionError

-- `now.Add(time.Duration(hours) * time.Hour)`: the product wraps around at 64 bits.
unfoldable pub session_end : ℕ → Time → Time
session_end hours now =
    let d = hours * hour % 2 ^ 64 in if ltb d (2 ^ 63) then add now d else sub now (2 ^ 64 - d)

abbrev pub has_token : Text → AdminSession → Bool
has_token token s = text_eq s.session_token token

abbrev pub session_row : Layout → Time → ℕ → Text → ℕ → AdminSession
session_row l now hours token id = record {
  id = id;
  session_token = token;
  created_at = l.format now;
  expires_at = l.format (session_end hours now);
}

-- `CreateSession`: `session_token` is UNIQUE.
unfoldable pub create_session :
    Layout
    → (writes : Bool) → Time
    → (hours : ℕ) → Text
    → SessionTable
    → SessionTable × Result SessionError AdminSession
create_session l writes now hours token t =
    if writes && not (any (has_token token) t.rows)
    then (
      record {
        rows = t.rows ++ session_row l now hours token t.next_id ∷ [];
        next_id = t.next_id + 1;
      },
      ok (session_row l now hours token t.next_id),
    )
    else (t, err create_failed)

-- The first row of a token that is not over at the instant whose text is given.
unfoldable pub find_valid : Text → Text → List AdminSession → Option AdminSession
find_valid token now [] = none
find_valid token now (s ∷ ss) =
    if has_token token s && text_lt now s.expires_at then some s else find_valid token now ss

-- `GetValidSession`.
unfoldable pub get_valid_session :
    Layout → (reads : Bool) → Time → Text → SessionTable → Result SessionError (Option AdminSession)
unfolding find_valid
get_valid_session l reads now token t =
    if reads then ok (find_valid token (l.format now) t.rows) else err query_failed

-- `DeleteSession`.
unfoldable pub delete_session :
    (writes : Bool) → Text → SessionTable → SessionTable × Option SessionError
delete_session writes token t =
    if writes
    then (record t { rows = keep (λ s. not (has_token token s)) t.rows }, none)
    else (t, some delete_failed)

-- `CleanExpiredSessions`, with the number of rows that went.
unfoldable pub clean_expired_sessions :
    Layout → (writes : Bool) → Time → SessionTable → SessionTable × Result SessionError ℕ
clean_expired_sessions l writes now t =
    let rest = keep (λ s. not (text_le s.expires_at (l.format now))) t.rows in
    if writes
    then (record t { rows = rest }, ok (length t.rows - length rest))
    else (t, err clean_failed)

pub data PanelError : Type 0 where
  not_authenticated internal_error session_expired : PanelError

-- What becomes of a request to the panel: it goes on as the administrator's, it is sent to the login
-- page, with its cookie cleared or not, or it gets an error.
pub data PanelResult : Type 0 where
  as_admin : PanelResult
  to_login : (clears_cookie : Bool) → PanelResult
  refused : ℕ → PanelError → PanelResult

abbrev pub page_answer : Result SessionError (Option AdminSession) → PanelResult
page_answer (err e) = to_login false
page_answer (ok none) = to_login true
page_answer (ok (some s)) = as_admin

abbrev pub api_answer : Result SessionError (Option AdminSession) → PanelResult
api_answer (err e) = refused 500 internal_error
api_answer (ok none) = refused 401 session_expired
api_answer (ok (some s)) = as_admin

-- `AdminSessionAuth` and `AdminSessionAuthAPI` on the cookie of a request.
unfoldable pub admin_session_auth :
    Layout → (reads : Bool) → Time → Option Text → SessionTable → PanelResult
unfolding get_valid_session
admin_session_auth l reads now none t = to_login false
admin_session_auth l reads now (some token) t = page_answer (get_valid_session l reads now token t)

unfoldable pub admin_session_auth_api :
    Layout → (reads : Bool) → Time → Option Text → SessionTable → PanelResult
unfolding get_valid_session
admin_session_auth_api l reads now none t = refused 401 not_authenticated
admin_session_auth_api l reads now (some token) t =
    api_answer (get_valid_session l reads now token t)

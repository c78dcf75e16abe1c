-- ===== src/Auth.antt =====
-- SubKeyAuth of internal/auth/middleware.go, with GetUserBySubKeyHash of internal/models/user.go and
-- NormalizeExpiry and ParseExpiry of internal/models/expiry.go. The hash of keys, SHA-256, and the
-- parser of bare dates are arguments; a bare date is parsed to its midnight, UTC.
pub mod Sessions
pub mod Admission
pub mod Expiry
use shimiaocheng_llm.Prelude.{
  ℕ, ◌+◌, ◌*◌, Bool, true, false, not, ◌&&◌, ◌||◌, List, [], ◌∷◌, Option, none, some, Text, text,
  text_eq, ltb, if◌then◌else◌, pos,
}
use shimiaocheng_llm.GoTime.{Time, Layout, second}
use shimiaocheng_llm.TimeUtil.{trim_space}
use shimiaocheng_llm.Proxy.Body.{after_prefix}

pub record User : Type 0 where
  pub id : ℕ
  pub username : Text
  pub password_hash : Text
  pub sub_key_hash : Text
  pub sub_key_preview : Text
  pub role : Text
  pub status : Text
  pub created_at : Text
  pub updated_at : Text
  pub expires_at : Text
  pub route_mode : Text
  pub fixed_provider : Text
  pub max_body_size : ℕ
  pub max_concurrency : ℕ

-- `t.In(timeutil.ShanghaiTZ)`, eight hours east of UTC at every instant: neither the local mean time
-- before 1901 nor the summer times before 1992 are modelled.
abbrev pub in_shanghai : Time → Time
in_shanghai t = record t { zone = pos 28800 }

-- 23:59:59 in Shanghai on the day of a midnight, UTC.
abbrev pub end_of_day : Time → Time
end_of_day t = record { nanos = t.nanos + 57599 * second; zone = pos 28800 }

-- The instant that a text which is not empty stands for.
unfoldable pub expiry_time : Layout → (Text → Option Time) → Text → Option Time
expiry_time l parse_date s = elim (l.parse s) [
  | some t ↦ some (in_shanghai t)
  | none ↦ elim (parse_date s) [ none ↦ none | some t ↦ some (end_of_day t) ]
]

-- `ParseExpiry`; `none` is its false.
unfoldable pub parse_expiry : Layout → (Text → Option Time) → Text → Option Time
unfolding expiry_time
parse_expiry l parse_date [] = none
parse_expiry l parse_date (c ∷ s) = expiry_time l parse_date (c ∷ s)

-- `NormalizeExpiry`; `none` is an error.
unfoldable pub normalize_expiry : Layout → (Text → Option Time) → Text → Option Text
unfolding expiry_time
normalize_expiry l parse_date s = elim (trim_space s) [
  | [] ↦ some []
  | c ∷ t ↦ elim (expiry_time l parse_date (c ∷ t)) [ none ↦ none | some e ↦ some (l.format e) ]
]

pub data AuthError : Type 0 where
  invalid_api_key internal_error key_revoked key_expired : AuthError

-- An error response, or the user whose data the request goes on with.
pub data AuthResult : Type 0 where
  denied : ℕ → AuthError → AuthResult
  admitted : User → AuthResult

-- `GetUserBySubKeyHash` on the table users.
unfoldable pub find_by_hash : Text → List User → Option User
find_by_hash hash [] = none
find_by_hash hash (u ∷ us) =
    if text_eq u.sub_key_hash hash && not (text_eq u.status (text "deleted"))
    then some u
    else find_by_hash hash us

unfoldable pub is_revoked : User → Bool
is_revoked u = text_eq u.status (text "disabled") || text_eq u.status (text "deleted")

-- The expiry of a user who is no administrator; one that does not parse is over.
unfoldable pub is_over : Layout → (Text → Option Time) → Time → User → Bool
is_over l parse_date now u = elim (parse_expiry l parse_date u.expires_at) [
  | none ↦ true
  | some e ↦ ltb e.nanos now.nanos
]

unfoldable pub is_expired : Layout → (Text → Option Time) → Time → User → Bool
unfolding is_over
is_expired l parse_date now u =
    not (text_eq u.role (text "admin"))
    && not (text_eq u.expires_at [])
    && is_over l parse_date now u

unfoldable pub check_user : Layout → (Text → Option Time) → Time → User → AuthResult
unfolding is_revoked is_expired
check_user l parse_date now u =
    if is_revoked u
    then denied 403 key_revoked
    else if is_expired l parse_date now u
    then denied 403 key_expired
    else admitted u

-- `SubKeyAuth` on the header, up to the next handler.
unfoldable pub sub_key_auth :
    Layout
    → (Text → Option Time)
    → (Text → Text)
    → (reads : Bool) → Text
    → Time
    → List User
    → AuthResult
unfolding find_by_hash check_user
sub_key_auth l parse_date hash reads header now users =
    elim (after_prefix (text "Bearer ") header) [
      | none ↦ denied 401 invalid_api_key
      | some key ↦ elim (after_prefix (text "sk-") key) [
        | none ↦ denied 401 invalid_api_key
        | some _ ↦
            if not reads then denied 500 internal_error else elim (find_by_hash (hash key) users) [
              | none ↦ denied 401 invalid_api_key
              | some u ↦ check_user l parse_date now u
            ]
      ]
    ]

-- ===== src/Examples/Keys.antt =====
-- Keys and their expiry.
use shimiaocheng_llm.Prelude.{
  ◌≡◌, ◌↔◌, refl, true, [], ◌∷◌, Option, none, some, Text, text, arith, subst,
}
use shimiaocheng_llm.GoTime.{Time, HasFourDigits}
use shimiaocheng_llm.TimeUtil.{trim_space, trim_left, trim_right, is_space}
use shimiaocheng_llm.Auth.{
  User, admitted, sub_key_auth, normalize_expiry, expiry_time, in_shanghai, parse_expiry,
}
use shimiaocheng_llm.Auth.Admission.{MayPass, sub_key_auth_iff}
use shimiaocheng_llm.Auth.Expiry.{Normalized, normalize_expiry-Normalized}
use shimiaocheng_llm.Examples.Data.{layout, layout-IsLayout, now, later, decode}

-- Bare dates are not parsed here.
abbrev pub no_date : Text → Option Time
no_date s = none

-- A hash that hides nothing.
abbrev pub hash : Text → Text
hash s = s

abbrev user : User
user = record {
  id = 7;
  username = text "ann";
  password_hash = [];
  sub_key_hash = text "sk-1";
  sub_key_preview = [];
  role = text "user";
  status = text "active";
  created_at = [];
  updated_at = [];
  expires_at = layout.format later;
  route_mode = text "auto";
  fixed_provider = [];
  max_body_size = 0;
  max_concurrency = 2;
}

sub_key_auth_iff_example :
    (sub_key_auth layout no_date hash true (text "Bearer sk-1") now (user ∷ []) ≡ admitted user)
    ↔ MayPass layout no_date hash (text "Bearer sk-1") now (user ∷ []) user
sub_key_auth_iff_example =
    sub_key_auth_iff layout no_date hash (text "Bearer sk-1") now (user ∷ []) user

expiry-normal :
    normalize_expiry layout no_date (layout.format later) ≡ some (layout.format (in_shanghai later))
unfolding normalize_expiry expiry_time trim_space trim_left trim_right is_space decode
expiry-normal = refl

expiry-HasFourDigits :
    (e : Time)
    → parse_expiry layout no_date (trim_space (layout.format later)) ≡ some e
    → HasFourDigits e
unfolding parse_expiry expiry_time trim_space trim_left trim_right is_space decode
expiry-HasFourDigits e h =
    let same : in_shanghai later ≡ e = cc in subst HasFourDigits same (omega arith, omega arith)

normalize_expiry-Normalized_example :
    Normalized layout no_date (layout.format later) (layout.format (in_shanghai later))
normalize_expiry-Normalized_example =
    normalize_expiry-Normalized layout layout-IsLayout no_date (layout.format later)
      (layout.format (in_shanghai later)) expiry-HasFourDigits expiry-normal

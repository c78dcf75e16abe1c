-- ===== src/Examples/Accounts.antt =====
-- Users: one is created, gets another key, and is listed.
use shimiaocheng_llm.Prelude.{
  ◌≡◌, refl, inl, inr, true, false, List, [], ◌∷◌, ◌++◌, none, some, text, text_eq, arith, keep, ok,
  pos,
}
use shimiaocheng_llm.GoTime.{Time}
use shimiaocheng_llm.Quota.{find}
use shimiaocheng_llm.Auth.{admitted, denied, invalid_api_key, sub_key_auth}
use shimiaocheng_llm.Provider.Audit.{newest_first}
use shimiaocheng_llm.Users.{
  UserTables, UserSteps, UserWithQuota, NewUser, user_row, quota_row, created_user, create_user,
  commit_user, with_quota, insert_user, insert_quota,
}
use shimiaocheng_llm.Users.Changes.{find_id, regenerate_user_key}
use shimiaocheng_llm.Users.Query.{list_users}
use shimiaocheng_llm.Users.Invariant.{IsSound}
use shimiaocheng_llm.Users.Reachable.{UserOperation, create, set_status, remove, run, run-IsSound}
use shimiaocheng_llm.Users.Keys.{create_user-admits, regenerate_user_key-revokes}
use shimiaocheng_llm.Users.Listing.{Entries, is_listed, list_users-lists}
use shimiaocheng_llm.Examples.Data.{layout, now, later}
use shimiaocheng_llm.Examples.Keys.{no_date, hash}

abbrev no_users : UserTables
no_users = record { users = []; quotas = []; next_user = 1 }

no_users-IsSound : IsSound no_users
no_users-IsSound = record {
  unique = tt;
  user_ids = omega arith;
  quota_ids = omega arith;
  quotas = tt;
}

abbrev steps : UserSteps
steps = record { begins = true; writes = true; writes_quota = true; commits = true }

abbrev new : NewUser
new = record {
  username = text "ann";
  password_hash = text "p";
  sub_key_hash = text "sk-1";
  sub_key_preview = text "sk-1";
  role = text "user";
  status = text "active";
  expires_at = [];
  route_mode = [];
  fixed_provider = [];
  quota_5h_limit = 10;
  quota_total_limit = 100;
  fixed_multiplier = none;
  max_body_size = pos 0;
  max_concurrency = 2;
}

abbrev operations : List (UserOperation × Time)
operations =
    (create steps new, now)
    ∷ (create (record steps { writes_quota = false }) (record new { username = text "bob" }), now)
    ∷ (set_status true 1 (text "disabled"), now)
    ∷ (remove true true 1, later)
    ∷ []

run-IsSound_example : IsSound (run layout operations no_users)
run-IsSound_example = run-IsSound layout operations no_users no_users-IsSound

ann_created : (create_user layout steps now new no_users).1 ≡ ok (created_user layout now new 1)
unfolding create_user commit_user with_quota insert_user insert_quota find
ann_created = refl

create_user-admits_example :
    (sub_key_auth layout no_date hash true
        (text "Bearer " ++ text "sk-" ++ text "1")
        later
        (create_user layout steps now new no_users).0.users
      ≡ admitted (user_row layout now new 1))
    × (find 1 (create_user layout steps now new no_users).0.quotas
        ≡ some (quota_row layout now new 1))
unfolding text_eq
create_user-admits_example =
    create_user-admits layout no_date hash steps now later new no_users
      (created_user layout now new 1) (text "1") refl refl (inr (inl refl)) ann_created

abbrev one_user : UserTables
one_user = record {
  users = user_row layout now new 1 ∷ [];
  quotas = quota_row layout now new 1 ∷ [];
  next_user = 2;
}

one_user-IsSound : IsSound one_user
one_user-IsSound = record {
  unique = (refl, tt);
  user_ids = (omega arith, omega arith);
  quota_ids = (omega arith, omega arith);
  quotas = (refl, tt);
}

ann_found : find_id 1 one_user.users ≡ some (user_row layout now new 1)
unfolding find_id
ann_found = refl

ann_rekeyed : (regenerate_user_key layout true now 1 (text "sk-2") (text "sk-2") one_user).1 ≡ none
unfolding regenerate_user_key text_eq
ann_rekeyed = refl

regenerate_user_key-revokes_example :
    sub_key_auth layout no_date hash true
      (text "Bearer " ++ text "sk-" ++ text "1")
      later
      (regenerate_user_key layout true now 1 (text "sk-2") (text "sk-2") one_user).0.users
    ≡ denied 401 invalid_api_key
unfolding text_eq
regenerate_user_key-revokes_example =
    regenerate_user_key-revokes layout no_date hash now later true 1 (text "sk-2") (text "sk-2")
      (text "1") one_user (user_row layout now new 1) one_user-IsSound ann_found refl refl
      ann_rekeyed

list_users-lists_example :
    (es : List UserWithQuota) × (list_users true [] one_user ≡ ok es)
    × Entries one_user.quotas [] (newest_first (keep is_listed one_user.users)) es
list_users-lists_example = list_users-lists [] one_user one_user-IsSound

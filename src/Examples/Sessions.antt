-- ===== src/Examples/Sessions.antt =====
-- A session of the panel: an hour long, cleaned after two.
use shimiaocheng_llm.Prelude.{
  ◌≡◌, refl, true, [], some, text, ok, arith, ltb, if◌then◌else◌, ◌/◌, ◌+◌, ◌*◌,
}
use shimiaocheng_llm.GoTime.{hour, second}
use shimiaocheng_llm.Auth.Sessions.{
  SessionTable, session_row, create_session, delete_session, clean_expired_sessions,
  admin_session_auth_api, as_admin, refused, session_expired,
}
use shimiaocheng_llm.Auth.Sessions.Validity.{
  clean_expired_sessions_unnoticed, create_session-lifetime,
}
use shimiaocheng_llm.Examples.Data.{layout, layout-IsLayout, later-HasFourDigits, now, later}

abbrev no_sessions : SessionTable
no_sessions = record { rows = []; next_id = 1 }

session_created :
    (create_session layout true now 2 (text "t") no_sessions).1
    ≡ ok (session_row layout now 2 (text "t") 1)
unfolding create_session
session_created = refl

create_session-lifetime_example :
    (admin_session_auth_api layout true later
        (some (text "t"))
        (create_session layout true now 2 (text "t") no_sessions).0
      ≡ (if ltb (later.nanos / second) ((now.nanos + 2 * hour) / second)
          then as_admin
          else refused 401 session_expired))
    × (admin_session_auth_api layout true later
          (some (text "t"))
          (delete_session true
            (text "t")
            (create_session layout true now 2 (text "t") no_sessions).0).0
        ≡ refused 401 session_expired)
create_session-lifetime_example =
    create_session-lifetime layout now later true 2 (text "t") no_sessions
      (session_row layout now 2 (text "t") 1) layout-IsLayout refl later-HasFourDigits
      (omega arith, omega arith) (omega arith) session_created

clean_expired_sessions_unnoticed_example :
    admin_session_auth_api layout true later
      (some (text "t"))
      (clean_expired_sessions layout true now
        (create_session layout true now 2 (text "t") no_sessions).0).0
    ≡ admin_session_auth_api layout true later
        (some (text "t"))
        (create_session layout true now 2 (text "t") no_sessions).0
clean_expired_sessions_unnoticed_example =
    clean_expired_sessions_unnoticed layout now later true true (some (text "t"))
      (create_session layout true now 2 (text "t") no_sessions).0 layout-IsLayout refl
      (omega arith, omega arith) later-HasFourDigits (omega arith)

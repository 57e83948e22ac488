-- ===== src/Session/Tests.antt =====
-- Runs of the session, and its theorems at concrete inputs.
use frontdashboard.Prelude.{◌≡◌, refl, true, false, some, inl}
use frontdashboard.Session.{
  Session, User, fresh, complete_login, retry_logout, complete_update_preferences,
  complete_update_profile, complete_confirm_email_change, complete_delete_account,
  handle_session_expired,
}
use frontdashboard.Session.Answers.{now, later, expired, late_answers_lem}

abbrev ann : User
ann = record { id = "ann"; email = "a"; display_name = "Ann" }

abbrev bob : User
bob = record { id = "bob"; email = "b"; display_name = "Bob" }

abbrev of_ann : Session
of_ann = complete_login ann fresh

abbrev of_bob : Session
of_bob = complete_login bob (handle_session_expired of_ann)

expires_once :
    handle_session_expired (handle_session_expired of_ann) ≡ handle_session_expired of_ann
unfolding handle_session_expired complete_login
expires_once = refl

late_answers_lem_example :
    (complete_update_preferences of_ann.generation (some ann) of_bob ≡ of_bob)
    × (complete_update_profile of_ann.generation (inl ann) of_bob ≡ (of_bob, false))
    × (complete_confirm_email_change of_ann.generation (some (some ann)) of_bob ≡ of_bob)
    × (complete_delete_account of_ann.generation of_bob ≡ of_bob)
    × (retry_logout of_ann.generation of_bob ≡ false)
late_answers_lem_example =
    late_answers_lem of_ann (handle_session_expired of_ann) of_bob bob true (later now expired) now
      ann

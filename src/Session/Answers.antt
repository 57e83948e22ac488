-- ===== src/Session/Answers.antt =====
-- Answers to requests of an earlier session.
use frontdashboard.Prelude.{
  ℕ, ◌≡◌, ◌≤◌, ◌<◌, refl, String, Bool, true, false, Option, none, some, if◌then◌else◌, ◌⊎◌, inl,
  inr, arith,
}
use frontdashboard.Session.{
  Session, User, shown_if, begin_init, complete_init, complete_login, complete_register, logout,
  complete_logout, retry_logout, complete_update_preferences, complete_update_profile,
  complete_confirm_email_change, complete_delete_account, handle_session_expired,
}

-- What happens in a tab. A generation is that of the session in which the request began.
pub data SessionStep (s : Session) : Session → Type 0 where
  init_began : SessionStep s (begin_init s).0
  init_answered : (answer : Option (Option User)) → SessionStep s (complete_init answer s)
  logged_in : (user : User) → SessionStep s (complete_login user s)
  registered : SessionStep s (complete_register s)
  logged_out : SessionStep s (logout s).0
  logout_answered : (gen : ℕ) (reached : Bool) → SessionStep s (complete_logout gen reached s)
  preferences_answered :
      (gen : ℕ) (user : Option User) → SessionStep s (complete_update_preferences gen user s)
  profile_answered :
      (gen : ℕ) (r : User ⊎ Option String) → SessionStep s (complete_update_profile gen r s).0
  email_answered :
      (gen : ℕ) (me : Option (Option User)) → SessionStep s (complete_confirm_email_change gen me s)
  account_deleted : (gen : ℕ) → SessionStep s (complete_delete_account gen s)
  expired : SessionStep s (handle_session_expired s)

-- What has happened since.
pub data Since (s : Session) : Session → Type 0 where
  now : Since s s
  later : {s' s'' : Session} → Since s s' → SessionStep s' s'' → Since s s''

shown_if-generation :
    (gen : ℕ) (user : User) (s : Session) → (shown_if gen user s).generation ≡ s.generation
shown_if-generation gen user s = ground arith

SessionStep-grows : {s s' : Session} → SessionStep s s' → s.generation ≤ s'.generation
unfolding begin_init complete_init complete_login complete_register logout complete_logout
    complete_update_preferences complete_update_profile complete_confirm_email_change
    complete_delete_account handle_session_expired
SessionStep-grows {s} init_began = ground arith
SessionStep-grows {s} (init_answered none) = omega arith
SessionStep-grows {s} (init_answered (some none)) = omega arith
SessionStep-grows {s} (init_answered (some (some user))) = omega arith
SessionStep-grows {s} (logged_in user) = omega arith
SessionStep-grows {s} registered = omega arith
SessionStep-grows {s} logged_out = omega arith
SessionStep-grows {s} (logout_answered gen true) = omega arith
SessionStep-grows {s} (logout_answered gen false) = omega arith
SessionStep-grows {s} (preferences_answered gen none) = omega arith
SessionStep-grows {s} (preferences_answered gen (some user)) =
    omega (arith, shown_if-generation gen user s)
SessionStep-grows {s} (profile_answered gen (inl user)) =
    omega (arith, shown_if-generation gen user s)
SessionStep-grows {s} (profile_answered gen (inr error)) = omega arith
SessionStep-grows {s} (email_answered gen none) = omega arith
SessionStep-grows {s} (email_answered gen (some none)) = omega arith
SessionStep-grows {s} (email_answered gen (some (some user))) =
    omega (arith, shown_if-generation gen user s)
SessionStep-grows {s} (account_deleted gen) = ground arith
SessionStep-grows {s} expired = ground arith

Since-grows : {s s' : Session} → Since s s' → s.generation ≤ s'.generation
Since-grows now = omega arith
Since-grows (later h step) = omega (arith, Since-grows h, SessionStep-grows step)

shown_if-late : (gen : ℕ) (user : User) (s : Session) → gen < s.generation → shown_if gen user s ≡ s
shown_if-late gen user s h = ground arith

-- Once someone has signed in, or the user has signed out, however much has happened before and
-- since: an answer to a request of before changes neither the status nor the user, whether it brings
-- the account with new preferences, a new profile or a new address, or the account was deleted; and
-- the offer to end the earlier session again asks the server for nothing.
pub late_answers_lem :
    (s s₁ s₂ : Session) (user : User) (b : Bool)
    → Since s s₁
    → Since (if b then complete_login user s₁ else (logout s₁).0) s₂
    → (old : User)
    → (complete_update_preferences s.generation (some old) s₂ ≡ s₂)
      × (complete_update_profile s.generation (inl old) s₂ ≡ (s₂, false))
      × (complete_confirm_email_change s.generation (some (some old)) s₂ ≡ s₂)
      × (complete_delete_account s.generation s₂ ≡ s₂)
      × (retry_logout s.generation s₂ ≡ false)
unfolding complete_login logout complete_update_preferences complete_update_profile
    complete_confirm_email_change complete_delete_account retry_logout
late_answers_lem s s₁ s₂ user b before after old =
    let crossed : s.generation < s₂.generation =
      ground (arith, Since-grows before, Since-grows after) in
    let still = shown_if-late s.generation old s₂ crossed in
    (still, rw still refl, still, ground arith, ground arith)

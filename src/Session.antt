-- ===== src/Session.antt =====
-- frontend/src/stores/auth.ts with frontend/src/stores/sessionGeneration.ts: who is signed in. An
-- action is split at the await of its request; it keeps the generation that it began under. The
-- caches that an auth boundary clears are cleared by their own modules; here it moves the generation.
mod Answers
mod Tests
use frontdashboard.Prelude.{
  ℕ, suc, String, Bool, true, false, not, ◌&&◌, ◌||◌, ◌==◌, Option, none, some, List, [], ◌∷◌,
  if◌then◌else◌, or_else, ◌⊎◌, inl, inr,
}

pub data Status : Type 0 where
  booting authenticated unauthenticated unreachable : Status

-- The account's id and what its owner can change.
pub record User : Type 0 where
  pub id : String
  pub email : String
  pub display_name : String

-- A message of an error; that of a failed sign-out offers to try again, for its generation.
pub data Message : Type 0 where
  said : String → Message
  retry_offered : ℕ → Message

pub record Session : Type 0 where
  pub status : Status
  pub user : Option User
  pub generation : ℕ
  pub init_pending : Bool
  pub messages : List Message

abbrev pub fresh : Session
fresh = record {
  status = booting;
  user = none;
  generation = 0;
  init_pending = false;
  messages = [];
}

abbrev pub tell : Message → Session → Session
tell message s = record s { messages = message ∷ s.messages }

-- `resetSessionData`: the resets of the notifications and of the dashboards each move the generation.
abbrev pub reset_session_data : Session → Session
reset_session_data s = record s { generation = suc (suc s.generation) }

abbrev pub signed_in : User → Session → Session
signed_in user s = record (reset_session_data s) { status = authenticated; user = some user }

abbrev pub signed_out : Session → Session
signed_out s = record (reset_session_data s) { status = unauthenticated; user = none }

abbrev pub may_init : Status → Bool
may_init booting = true
may_init authenticated = false
may_init unauthenticated = false
may_init unreachable = true

-- `init`, with whether it asks the server who is signed in.
unfoldable pub begin_init : Session → Session × Bool
begin_init s =
    if not (may_init s.status) || s.init_pending
    then (s, false)
    else (record s { init_pending = true }, true)

-- The answer: none where the server was not reached.
abbrev pub booted : Option (Option User) → Session → Session
booted none s = record s { status = unreachable; user = none }
booted (some (some user)) s = record s { status = authenticated; user = some user }
booted (some none) s = signed_out s

unfoldable pub complete_init : Option (Option User) → Session → Session
complete_init answer s = record (booted answer s) { init_pending = false }

-- `login` and `verifyEmail`, whose failures are the caller's.
unfoldable pub complete_login : User → Session → Session
complete_login user s = signed_in user s

-- `register`; the account is to be verified first.
unfoldable pub complete_register : Session → Session
complete_register s = record s { status = unauthenticated; user = none }

-- `logout` up to the request of `endServerSession`, with the generation that it keeps.
unfoldable pub logout : Session → Session × ℕ
logout s = let out = signed_out s in (out, out.generation)

-- `endServerSession`, once it is answered.
unfoldable pub complete_logout : ℕ → Bool → Session → Session
complete_logout generation true s = s
complete_logout generation false s = tell (retry_offered generation) s

-- The action of the offer: whether the server is asked again.
unfoldable pub retry_logout : ℕ → Session → Bool
retry_logout generation s = generation == s.generation

-- A user that a request of a generation brought.
abbrev pub shown_if : ℕ → User → Session → Session
shown_if generation user s =
    if not (generation == s.generation) then s else record s { user = some user }

unfoldable pub complete_update_preferences : ℕ → Option User → Session → Session
complete_update_preferences generation none s = tell (said "Failed to update preferences.") s
complete_update_preferences generation (some user) s = shown_if generation user s

-- The caller's outcome is whether the error is thrown on.
unfoldable pub complete_update_profile : ℕ → User ⊎ Option String → Session → Session × Bool
complete_update_profile generation (inl user) s = (shown_if generation user s, false)
complete_update_profile generation (inr error) s =
    (tell (said (or_else error "Failed to update profile.")) s, true)

abbrev pub is_authenticated : Status → Bool
is_authenticated authenticated = true
is_authenticated _ = false

-- `confirmEmailChange` once the change is confirmed: whether the account is read again.
unfoldable pub reads_confirmed : Session → Bool
reads_confirmed s = is_authenticated s.status

-- The answer to that; none where it failed.
unfoldable pub complete_confirm_email_change : ℕ → Option (Option User) → Session → Session
complete_confirm_email_change generation none s = s
complete_confirm_email_change generation (some none) s = s
complete_confirm_email_change generation (some (some user)) s = shown_if generation user s

unfoldable pub complete_delete_account : ℕ → Session → Session
complete_delete_account generation s = if not (generation == s.generation) then s else signed_out s

abbrev pub is_unauthenticated : Status → Bool
is_unauthenticated unauthenticated = true
is_unauthenticated _ = false

unfoldable pub handle_session_expired : Session → Session
handle_session_expired s = if is_unauthenticated s.status then s else signed_out s

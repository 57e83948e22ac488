-- ===== src/Sse.antt =====
-- frontend/src/hooks/useSSE.ts and frontend/src/utils/shared/clientInstance.ts: the activity frame,
-- and whether it echoes a write of this tab. Of the payload, the keys that the modelled handlers
-- read; a JSON value that is only passed on (a widget's config) is its text.
use frontdashboard.Prelude.{
  ℕ, String, Bool, false, Option, none, some, List, str_eq, if◌then◌else◌, not, ◌||◌, opt_eq,
}

-- A key of `values` with its value, which is of the type of the item's field of that name; any other
-- key is one constructor.
pub data FieldValue : Type 0 where
  set_text : String → FieldValue
  set_checked : Bool → FieldValue
  set_due_date set_priority set_category set_assigned_to : Option String → FieldValue
  set_other : String → FieldValue

pub record Payload : Type 0 where
  pub dashboard_id : Option String
  pub changed_fields : Option (List String)
  pub share_action : Option String
  pub widget_id : Option String
  pub config : Option String
  pub list_id : Option String
  pub item_ids : Option (List String)
  pub list_ids : Option (List String)
  pub values : Option (List FieldValue)
  pub origin_client_id : Option String

pub record SseEvent : Type 0 where
  pub event_id : ℕ
  pub event_type : String
  pub entity_type : String
  pub entity_id : String
  pub entity_version : ℕ
  pub actor_id : String
  pub created_at : String
  pub payload : Payload

-- A frame of the server, or the local signal that frames may have been missed.
pub data ResourceEvent : Type 0 where
  resync : ResourceEvent
  frame : SseEvent → ResourceEvent

-- `client` is the tab's `CLIENT_INSTANCE_ID`. A missing or empty user is nobody.
unfoldable pub is_own_frame : String → SseEvent → Option String → Bool
is_own_frame client event none = false
is_own_frame client event (some user) =
    if str_eq user "" || not (str_eq event.actor_id user)
    then false
    else opt_eq event.payload.origin_client_id client

-- ===== src/Feed.antt =====
-- frontend/src/utils/notifications/notificationFeedUtils.ts: the rows of the activity feed, which
-- collapse runs of the same churn. `parse` stands for the time of a date, none where it has none.
pub mod Sentences
pub mod Runs
mod Tests
use frontdashboard.Prelude.{
  ℕ, ◌+◌, String, Bool, true, false, not, ◌&&◌, ◌||◌, leb, Option, none, some, List, [], ◌∷◌, ◌++◌,
  map, if◌then◌else◌, for_each, includes, length, str_eq,
}
use frontdashboard.Prelude.Dict.{get}
use frontdashboard.Prelude.Texts.{prefixed}
use frontdashboard.ChangedFields.{ChangedField, layout, widgets, is_only}

-- A JSON value of a payload: of an array, the texts in it; of an object, its members that are true or
-- false.
pub data Json : Type 0 where
  text : String → Json
  flag : Bool → Json
  texts : List String → Json
  object : List (String × Bool) → Json
  other : Json

-- `ActivityEvent`
pub record FeedEvent : Type 0 where
  pub event_type : String
  pub entity_id : String
  pub created_at : String
  pub payload : List (String × Json)

-- `blank` is whether a text is empty once trimmed.
abbrev pub text_of : (String → Bool) → Option Json → Option String
text_of blank (some (text value)) = if blank value then none else some value
text_of blank _ = none

unfoldable pub payload_string : (String → Bool) → List (String × Json) → String → Option String
payload_string blank payload key = text_of blank (get key payload)

abbrev pub flag_of : Option Json → Option Bool
flag_of (some (flag value)) = some value
flag_of _ = none

abbrev pub payload_boolean : List (String × Json) → String → Option Bool
payload_boolean payload key = flag_of (get key payload)

abbrev pub texts_of : Option Json → List String
texts_of (some (texts values)) = values
texts_of _ = []

unfoldable pub payload_strings : List (String × Json) → String → List String
payload_strings payload key = texts_of (get key payload)

-- `COLLAPSE_SUBJECT_FIELD`
abbrev pub collapse_subject_field : List (String × String)
collapse_subject_field =
    ("list.item.checked", "list_id")
    ∷ ("list.item.reordered", "list_id")
    ∷ ("list.reordered", "dashboard_id")
    ∷ []

abbrev pub collapse_on_entity : List String
collapse_on_entity =
    "list.updated" ∷ "list.item.updated" ∷ "calendar.event.updated"
    ∷ "calendar.event.occurrence.updated" ∷ []

-- `${kind}:${id}`
abbrev pub key_text : String → String → String
key_text kind id = prefixed kind (prefixed ":" id)

abbrev pub key_with : String → Option String → Option String
key_with kind none = none
key_with kind (some id) = some (key_text kind id)

abbrev pub dashboard_key : (String → Bool) → FeedEvent → Option String
dashboard_key blank e =
    let changed_fields = payload_strings e.payload "changed_fields" in
    if is_only changed_fields layout
    then some (key_text "dashboard.layout" e.entity_id)
    else if is_only changed_fields widgets
    then key_with "dashboard.widget" (payload_string blank e.payload "widget_id")
    else none

unfoldable pub collapse_key : (String → Bool) → FeedEvent → Option String
unfolding payload_string payload_strings is_only
collapse_key blank e =
    if includes collapse_on_entity e.event_type
    then some (key_text e.event_type e.entity_id)
    else elim (get e.event_type collapse_subject_field) [
      | some field ↦ key_with e.event_type (payload_string blank e.payload field)
      | none ↦ if not (str_eq e.event_type "dashboard.updated") then none else dashboard_key blank e
    ]

abbrev pub collapse_window_ms : ℕ
collapse_window_ms = 300000

-- `ActivityGroup`
pub record ActivityGroup : Type 0 where
  pub event : FeedEvent
  pub members : List FeedEvent
  pub entities : ℕ

-- The variables of the loop; the last group is apart from those before it.
pub record Run : Type 0 where
  pub done : List ActivityGroup
  pub last : Option ActivityGroup
  pub run_key : Option String
  pub run_previous_at : Option ℕ
  pub run_entities : List String

abbrev pub same_key : Option String → Option String → Bool
same_key (some a) (some b) = str_eq a b
same_key _ _ = false

-- `runPreviousAt - at <= COLLAPSE_WINDOW_MS`, which fails on a time that is not a number.
abbrev pub within_window : Option ℕ → Option ℕ → Bool
within_window (some previous) (some at_) = leb previous (at_ + collapse_window_ms)
within_window _ _ = false

-- `Set.add`
abbrev pub add : List String → String → List String
add set_ id = if includes set_ id then set_ else set_ ++ id ∷ []

abbrev pub groups_of : List ActivityGroup → Option ActivityGroup → List ActivityGroup
groups_of done none = done
groups_of done (some group) = done ++ group ∷ []

abbrev pub alone : FeedEvent → ActivityGroup
alone e = record { event = e; members = e ∷ []; entities = 1 }

abbrev pub joined_by : ActivityGroup → List String → FeedEvent → ActivityGroup
joined_by group run_entities e = record group {
  members = group.members ++ e ∷ [];
  entities = length run_entities;
}

module _ (blank : String → Bool) (parse : String → Option ℕ) where
  abbrev pub start_run : FeedEvent → Run → Run
  start_run e r = record {
    done = groups_of r.done r.last;
    last = some (alone e);
    run_key = collapse_key blank e;
    run_previous_at = parse e.created_at;
    run_entities = e.entity_id ∷ [];
  }

  -- One round of the loop.
  unfoldable pub collapse_step : Run → FeedEvent → Run
  unfolding collapse_key
  collapse_step r e =
      let joins =
        same_key (collapse_key blank e) r.run_key
        && within_window r.run_previous_at (parse e.created_at) in
      let ids = add r.run_entities e.entity_id in
      elim r.last [
        | none ↦ start_run e r
        | some group ↦
            if joins
            then record r {
              last = some (joined_by group ids e);
              run_entities = ids;
              run_previous_at = parse e.created_at;
            }
            else start_run e r
      ]

  abbrev pub no_run : Run
  no_run = record {
    done = [];
    last = none;
    run_key = none;
    run_previous_at = some 0;
    run_entities = [];
  }

  unfoldable pub group_activity_events : List FeedEvent → List ActivityGroup
  unfolding collapse_step
  group_activity_events events =
      let end_ = for_each collapse_step no_run events in groups_of end_.done end_.last

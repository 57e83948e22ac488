-- ===== src/Feed/Sentences.antt =====
-- frontend/src/utils/notifications/notificationFeedUtils.ts: what a row of the activity feed says.
-- `day_of` stands for the day of a date in the reader's words, none where it has none; `spaced`,
-- `trimmed` and `capitalised` for the built-in operations on texts that `humanizeEventType` uses.
use frontdashboard.Prelude.{
  String, Bool, true, false, not, ◌&&◌, ltb, Option, none, some, List, [], ◌∷◌, if◌then◌else◌,
  or_else, opt_eq, length, str_eq,
}
use frontdashboard.Prelude.Dict.{get}
use frontdashboard.Prelude.Texts.{prefixed}
use frontdashboard.ChangedFields.{layout, widgets, name, restored, shares, primary_changed_field}
use frontdashboard.Feed.{
  object, FeedEvent, ActivityGroup, payload_string, payload_strings, payload_boolean,
}

pub record ActivityPresentation : Type 0 where
  pub badge : String
  pub summary : String
  pub detail : Option String

abbrev pub joined : List String → String
joined [] = ""
joined (t ∷ ts) = prefixed t (joined ts)

abbrev pub said : String → List String → ActivityPresentation
said badge words = record { badge = badge; summary = joined words; detail = none }

abbrev pub quoted : Option String → String → String
quoted none fallback = fallback
quoted (some value) fallback = joined ("\"" ∷ value ∷ "\"" ∷ [])

abbrev pub widget_labels : List (String × String)
widget_labels =
    ("agenda", "an Agenda widget")
    ∷ ("calendar", "a Calendar widget")
    ∷ ("clock", "a Clock widget")
    ∷ ("list", "a List widget")
    ∷ []

module _ (blank : String → Bool) where
  unfoldable pub is_layout_event : FeedEvent → Bool
  unfolding primary_changed_field payload_strings
  is_layout_event e =
      if not (str_eq e.event_type "dashboard.updated")
      then false
      else elim (primary_changed_field (payload_strings e.payload "changed_fields")) [
        | some layout ↦ true
        | some widgets ↦ false
        | some name ↦ false
        | some restored ↦ false
        | some shares ↦ false
        | none ↦ false
      ]

  abbrev pub string_of : FeedEvent → String → Option String
  string_of e = payload_string blank e.payload

  abbrev pub widget_label : FeedEvent → String
  widget_label e = or_else (get (or_else (string_of e "widget_type") "") widget_labels) "a widget"

  -- The name of a list, where the event has one.
  abbrev pub in_list : String → FeedEvent → String
  in_list preposition e = elim (string_of e "list_name") [
    | none ↦ ""
    | some list_name ↦ joined (" " ∷ preposition ∷ " \"" ∷ list_name ∷ "\"" ∷ [])
  ]

  -- `dashboard.updated`
  abbrev pub widgets_sentence : FeedEvent → String → ActivityPresentation
  widgets_sentence e name_ =
      let action = string_of e "widget_action" in
      if opt_eq action "added"
      then said "Dashboard" ("You added " ∷ widget_label e ∷ " to " ∷ name_ ∷ "." ∷ [])
      else if opt_eq action "removed"
      then said "Dashboard" ("You removed " ∷ widget_label e ∷ " from " ∷ name_ ∷ "." ∷ [])
      else said "Dashboard" ("You reconfigured " ∷ widget_label e ∷ " on " ∷ name_ ∷ "." ∷ [])

  abbrev pub layout_sentence : FeedEvent → String → ActivityPresentation
  layout_sentence e name_ =
      let action = string_of e "layout_action" in
      if opt_eq action "moved"
      then said "Dashboard" ("You moved " ∷ widget_label e ∷ " on " ∷ name_ ∷ "." ∷ [])
      else if opt_eq action "resized"
      then said "Dashboard" ("You resized " ∷ widget_label e ∷ " on " ∷ name_ ∷ "." ∷ [])
      else said "Dashboard" ("You rearranged widgets on " ∷ name_ ∷ "." ∷ [])

  unfoldable pub updated_sentence : FeedEvent → ActivityPresentation
  unfolding primary_changed_field payload_strings payload_string
  updated_sentence e =
      let name_ = quoted (string_of e "name") "a dashboard" in
      elim (primary_changed_field (payload_strings e.payload "changed_fields")) [
        | some restored ↦ said "Dashboard" ("You restored " ∷ name_ ∷ " from the trash." ∷ [])
        | some name ↦ said "Dashboard" ("You renamed " ∷ name_ ∷ "." ∷ [])
        | some widgets ↦ widgets_sentence e name_
        | some layout ↦ layout_sentence e name_
        | some shares ↦ said "Dashboard" ("You updated " ∷ name_ ∷ "." ∷ [])
        | none ↦ said "Dashboard" ("You updated " ∷ name_ ∷ "." ∷ [])
      ]

  -- The events of sharing, where the actor is either side.
  unfoldable pub sharing_sentence : FeedEvent → Option ActivityPresentation
  unfolding payload_string
  sharing_sentence e =
      let dashboard_name = quoted (string_of e "dashboard_name") "a dashboard" in
      let role = string_of e "role" in
      let action = string_of e "share_action" in
      if str_eq e.event_type "dashboard.share_added"
      then if opt_eq action "joined"
        then elim role [
          | none ↦ some (said "Sharing" ("You joined " ∷ dashboard_name ∷ "." ∷ []))
          | some r ↦ some (said "Sharing" ("You joined " ∷ dashboard_name ∷ " as " ∷ r ∷ "." ∷ []))
        ]
        else some (
            said "Sharing"
              ("You granted " ∷ or_else role "shared" ∷ " access to " ∷ dashboard_name ∷ "." ∷ []))
      else if str_eq e.event_type "dashboard.share_updated"
      then if opt_eq action "transferred"
        then some (said "Sharing" ("You handed over " ∷ dashboard_name ∷ " to its new owner." ∷ []))
        else some (record (said "Sharing" ("You changed access on " ∷ dashboard_name ∷ "." ∷ [])) {
          detail = elim role [ none ↦ none | some r ↦ some (joined ("New role: " ∷ r ∷ "." ∷ [])) ];
        })
      else if str_eq e.event_type "dashboard.share_removed"
      then if opt_eq action "left"
        then some (said "Sharing" ("You left " ∷ dashboard_name ∷ "." ∷ []))
        else some (said "Sharing" ("You removed access from " ∷ dashboard_name ∷ "." ∷ []))
      else none

  -- The events of lists and of their items.
  abbrev pub checked_value : FeedEvent → Option Bool
  checked_value e = elim (get "values" e.payload) [
    | some (object members) ↦ get "checked" members
    | some value ↦ none
    | none ↦ none
  ]

  unfoldable pub list_sentence : FeedEvent → Option ActivityPresentation
  unfolding payload_string
  list_sentence e =
      let list = quoted (string_of e "name") "a list" in
      if str_eq e.event_type "list.created"
      then if or_else (payload_boolean e.payload "restored") false
        then some (said "List" ("You restored " ∷ list ∷ " from the trash." ∷ []))
        else some (said "List" ("You created " ∷ list ∷ "." ∷ []))
      else if str_eq e.event_type "list.updated"
      then some (said "List" ("You renamed " ∷ list ∷ "." ∷ []))
      else if str_eq e.event_type "list.deleted"
      then some (said "List" ("You deleted " ∷ list ∷ "." ∷ []))
      else if str_eq e.event_type "list.reordered"
      then elim (string_of e "dashboard_name") [
        | none ↦ some (said "List" ("You reordered your lists." ∷ []))
        | some dashboard_name ↦ some (
            said "List"
              ("You reordered lists in " ∷ quoted (some dashboard_name) "a dashboard" ∷ "." ∷ []))
      ]
      else none

  unfoldable pub item_sentence : FeedEvent → Option ActivityPresentation
  unfolding payload_string
  item_sentence e =
      let item = quoted (string_of e "text") "a list item" in
      if str_eq e.event_type "list.item.created"
      then some (said "List item" ("You added " ∷ item ∷ in_list "to" e ∷ "." ∷ []))
      else if str_eq e.event_type "list.item.updated"
      then some (said "List item" ("You updated " ∷ item ∷ in_list "in" e ∷ "." ∷ []))
      else if str_eq e.event_type "list.item.checked"
      then if or_else (checked_value e) true
        then some (said "List item" ("You checked " ∷ item ∷ in_list "in" e ∷ "." ∷ []))
        else some (said "List item" ("You unchecked " ∷ item ∷ in_list "in" e ∷ "." ∷ []))
      else if str_eq e.event_type "list.item.deleted"
      then some (said "List item" ("You deleted " ∷ item ∷ in_list "from" e ∷ "." ∷ []))
      else if str_eq e.event_type "list.item.reordered"
      then some (
          said "List item"
            ("You reordered items in " ∷ quoted (string_of e "list_name") "a list" ∷ "." ∷ []))
      else none

  module _ (day_of : String → Option String) where
    abbrev pub occurrence_label : FeedEvent → String
    occurrence_label e = elim (string_of e "occurrence_start") [
      | none ↦ "occurrence"
      | some start ↦ elim (day_of start) [
        | none ↦ "occurrence"
        | some day ↦ joined (day ∷ " occurrence" ∷ [])
      ]
    ]

    unfoldable pub calendar_sentence : FeedEvent → Option ActivityPresentation
    unfolding payload_string
    calendar_sentence e =
        let event = quoted (string_of e "title") "an event" in
        if str_eq e.event_type "calendar.event.created"
        then some (said "Calendar" ("You created " ∷ event ∷ "." ∷ []))
        else if str_eq e.event_type "calendar.event.updated"
        then some (said "Calendar" ("You updated " ∷ event ∷ "." ∷ []))
        else if str_eq e.event_type "calendar.event.deleted"
        then some (said "Calendar" ("You deleted " ∷ event ∷ "." ∷ []))
        else if str_eq e.event_type "calendar.event.occurrence.updated"
        then some
            (said "Calendar" ("You updated the " ∷ occurrence_label e ∷ " of " ∷ event ∷ "." ∷ []))
        else if str_eq e.event_type "calendar.event.occurrence.cancelled"
        then some (
            said "Calendar" ("You cancelled the " ∷ occurrence_label e ∷ " of " ∷ event ∷ "." ∷ []))
        else none

    module _ (spaced trimmed capitalised : String → String) where
      abbrev pub humanize_event_type : String → String
      humanize_event_type event_type =
          let words = trimmed (spaced event_type) in
          if str_eq words "" then "You made a change." else joined (capitalised words ∷ "." ∷ [])

      abbrev pub first_said :
          List (Option ActivityPresentation) → ActivityPresentation → ActivityPresentation
      first_said [] fallback = fallback
      first_said (some p ∷ rest) fallback = p
      first_said (none ∷ rest) fallback = first_said rest fallback

      -- The cases of the switch exclude each other; they are tried by kind.
      unfoldable pub format_activity_event : FeedEvent → ActivityPresentation
      unfolding payload_string updated_sentence sharing_sentence list_sentence item_sentence
          calendar_sentence
      format_activity_event e =
          let dashboard = quoted (string_of e "name") "a dashboard" in
          if str_eq e.event_type "dashboard.created"
          then said "Dashboard" ("You created " ∷ dashboard ∷ "." ∷ [])
          else if str_eq e.event_type "dashboard.deleted"
          then said "Dashboard" ("You deleted " ∷ dashboard ∷ "." ∷ [])
          else if str_eq e.event_type "dashboard.updated"
          then updated_sentence e
          else first_said
              (sharing_sentence e ∷ list_sentence e ∷ item_sentence e ∷ calendar_sentence e ∷ [])
              (said "Activity" (humanize_event_type e.event_type ∷ []))

      unfoldable pub format_activity_group : ActivityGroup → ActivityPresentation
      unfolding format_activity_event is_layout_event payload_string
      format_activity_group g =
          if ltb 1 (length g.members) && is_layout_event g.event
          then said "Dashboard" (
              "You rearranged widgets on "
              ∷ quoted (string_of g.event "name") "a dashboard"
              ∷ "."
              ∷ [])
          else if ltb 1 g.entities && str_eq g.event.event_type "list.item.checked"
          then said "List item" ("You updated checkboxes" ∷ in_list "in" g.event ∷ "." ∷ [])
          else format_activity_event g.event

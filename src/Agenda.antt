-- ===== src/Agenda.antt =====
-- frontend/src/resources/agendaData.ts: the reminders of a dashboard, derived from its lists, and
-- the agenda that shows them with the calendar's occurrences. The query's scope is the dashboard's id.
-- `date_lt a b` stands for `a < b` on the texts of days, `parse` for the time of a date, and
-- `today_key` for the present day. Participants are left out: they are only passed on.
mod Rows
pub mod Refetch
pub mod Removals
mod Tests
use frontdashboard.Prelude.{
  ℕ, String, Bool, true, false, not, ◌&&◌, ◌||◌, ◌==◌, ltb, leb, Option, none, some, List, [], ◌∷◌,
  ◌++◌, map, filter, if◌then◌else◌, str_eq, includes, starts_with,
}
use frontdashboard.Prelude.Texts.{prefixed}
use frontdashboard.Prelude.Sort.{sort}
use frontdashboard.ListTypes.{ListItem, ListDetail}
use frontdashboard.OccurrenceStore.{Occurrence}
use frontdashboard.Sse.{SseEvent, ResourceEvent, resync, frame}
use frontdashboard.Query.{QueryState, Cache, Request, update_where, invalidate_where}

pub data Status : Type 0 where
  overdue : Status
  today : Status

-- The two kinds of `AgendaItem`.
pub record Reminder : Type 0 where
  pub id : String
  pub title : String
  pub due_date : String
  pub list_id : String
  pub list_name : String
  pub priority : Option String
  pub status : Status

pub record AgendaEvent : Type 0 where
  pub id : String
  pub title : String
  pub starts_at : String
  pub ends_at : String
  pub all_day : Bool
  pub recurring : Bool

pub data AgendaItem : Type 0 where
  event : AgendaEvent → AgendaItem
  reminder : Reminder → AgendaItem

abbrev pub id_of : AgendaItem → String
id_of (event e) = e.id
id_of (reminder r) = r.id

-- `Pick<ListSummary, 'id' | 'name'>`
pub record ListName : Type 0 where
  pub id : String
  pub name : String

abbrev pub Agenda : Type 0
Agenda = Cache String (List AgendaItem)

-- The key of the scope, and the number of scopes that a query caches.
abbrev pub scope_key : String → String
scope_key dashboard_id = dashboard_id

abbrev pub max_cached_scopes : ℕ
max_cached_scopes = 32

abbrev pub rank : AgendaItem → ℕ
rank (event e) = 2
rank (reminder r) = elim r.status [ overdue ↦ 0 | today ↦ 1 ]

abbrev pub time_of : (String → ℕ) → AgendaItem → ℕ
time_of parse (event e) = parse e.starts_at
time_of parse (reminder r) = parse r.due_date

-- `compareAgendaItems(a, b) <= 0`
abbrev pub agenda_leq : (String → ℕ) → AgendaItem → AgendaItem → Bool
agenda_leq parse a b =
    ltb (rank a) (rank b) || rank a == rank b && leb (time_of parse a) (time_of parse b)

abbrev pub occurrence_to_agenda_item : Occurrence → AgendaItem
occurrence_to_agenda_item o = event (record {
  id = prefixed "event:" (prefixed o.event_id (prefixed ":" o.original_start));
  title = o.title;
  starts_at = o.occurrence_start;
  ends_at = o.occurrence_end;
  all_day = o.all_day;
  recurring = o.recurring;
})

abbrev pub entry_id : ListItem → String
entry_id item = prefixed "reminder:" item.id

-- The reminder of an item that is due on a day.
abbrev pub due_on :
    (String → String → Bool) → String → ListItem → ListName → String → Option AgendaItem
due_on date_lt today_key item list due =
    if item.checked || str_eq due "" || date_lt today_key due
    then none
    else some (
        reminder (record {
          id = entry_id item;
          title = item.text;
          due_date = due;
          list_id = list.id;
          list_name = list.name;
          priority = item.priority;
          status = if date_lt due today_key then overdue else today;
        }))

unfoldable pub list_item_to_agenda_item :
    (String → String → Bool) → String → ListItem → ListName → Option AgendaItem
list_item_to_agenda_item date_lt today_key item list = elim item.due_date [
  | none ↦ none
  | some due ↦ due_on date_lt today_key item list due
]

-- A change of the data that is held.
abbrev pub on_data :
    (List AgendaItem → List AgendaItem)
    → QueryState (List AgendaItem)
    → QueryState (List AgendaItem)
on_data change state = elim state.data_ [
  | none ↦ state
  | some entries ↦ record state { data_ = some (change entries) }
]

abbrev pub appended : Option AgendaItem → List AgendaItem
appended none = []
appended (some entry) = entry ∷ []

-- The entries once the item's own is derived again.
unfoldable pub patch_entries : String → Option AgendaItem → List AgendaItem → List AgendaItem
patch_entries id next entries =
    filter (λ entry. not (str_eq (id_of entry) id)) entries ++ appended next

unfoldable pub apply_agenda_item_update :
    (String → String → Bool) → String → String → ListItem → ListName → Agenda → Agenda
unfolding list_item_to_agenda_item patch_entries update_where
apply_agenda_item_update date_lt today_key dashboard_id item list agenda =
    let next = list_item_to_agenda_item date_lt today_key item list in
    update_where (λ scope. str_eq scope dashboard_id)
      (λ state scope. on_data (patch_entries (entry_id item) next) state) agenda

abbrev pub drop_items : List String → List AgendaItem → List AgendaItem
drop_items item_ids =
    filter (λ entry. not (includes (map (prefixed "reminder:") item_ids) (id_of entry)))

-- Drops the entries of items that no longer exist.
unfoldable pub remove_agenda_items : List String → Agenda → Agenda
unfolding update_where
remove_agenda_items item_ids agenda =
    update_where (λ scope. true) (λ state scope. on_data (drop_items item_ids) state) agenda

abbrev pub rename_entry : String → String → AgendaItem → AgendaItem
rename_entry list_id name (event e) = event e
rename_entry list_id name (reminder r) =
    if str_eq r.list_id list_id then reminder (record r { list_name = name }) else reminder r

unfoldable pub rename_agenda_list_entries : String → String → Agenda → Agenda
unfolding update_where
rename_agenda_list_entries list_id name agenda =
    update_where (λ scope. true) (λ state scope. on_data (map (rename_entry list_id name)) state)
      agenda

abbrev pub is_of_list : String → AgendaItem → Bool
is_of_list list_id (event e) = false
is_of_list list_id (reminder r) = str_eq r.list_id list_id

unfoldable pub remove_agenda_items_for_list : String → Agenda → Agenda
unfolding update_where
remove_agenda_items_for_list list_id agenda =
    update_where (λ scope. true)
      (λ state scope. on_data (filter (λ entry. not (is_of_list list_id entry))) state) agenda

unfoldable pub invalidate_agenda_reminders : String → Agenda → Agenda × List (Request String)
unfolding invalidate_where
invalidate_agenda_reminders dashboard_id =
    invalidate_where scope_key max_cached_scopes (λ scope. str_eq scope dashboard_id) true none

-- The items of a list that are on the agenda, in order.
abbrev pub reminders_of :
    (String → String → Bool) → String → ListName → List ListItem → List AgendaItem
reminders_of date_lt today_key list [] = []
reminders_of date_lt today_key list (item ∷ items) =
    appended (list_item_to_agenda_item date_lt today_key item list)
    ++ reminders_of date_lt today_key list items

abbrev pub name_of : ListDetail → ListName
name_of detail = record { id = detail.id; name = detail.name }

-- `fetchAgendaReminders`, on the details that the server answers.
unfoldable pub fetch_agenda_reminders :
    (String → String → Bool) → String → List ListDetail → List AgendaItem
fetch_agenda_reminders date_lt today_key [] = []
fetch_agenda_reminders date_lt today_key (detail ∷ details) =
    reminders_of date_lt today_key (name_of detail) detail.items
    ++ fetch_agenda_reminders date_lt today_key details

-- `occurrencesError ?? remindersState.error`
abbrev pub first_error : Option String → Option String → Option String
first_error none e = e
first_error (some e) _ = some e

abbrev pub merge_data :
    (String → ℕ) → Option (List Occurrence) → Option (List AgendaItem) → Option (List AgendaItem)
merge_data parse none reminders = none
merge_data parse (some occurrences) none = none
merge_data parse (some occurrences) (some reminders) =
    some (sort (agenda_leq parse) (reminders ++ map occurrence_to_agenda_item occurrences))

unfoldable pub merge_agenda_state :
    (String → ℕ)
    → Option (List Occurrence)
    → QueryState (List AgendaItem)
    → Bool
    → Option String
    → QueryState (List AgendaItem)
merge_agenda_state parse occurrences reminders loading error = record {
  data_ = merge_data parse occurrences reminders.data_;
  loading = loading || reminders.loading;
  error = first_error error reminders.error;
}

-- Whether the event's scopes include a dashboard: all do where it names none, or an empty id.
abbrev pub names_dashboard : SseEvent → String → Bool
names_dashboard e scope = elim e.payload.dashboard_id [
  | none ↦ true
  | some id ↦ str_eq id "" || str_eq scope id
]

unfoldable pub handle_agenda_resource_event :
    ResourceEvent → Bool → Agenda → Agenda × List (Request String)
unfolding invalidate_where
handle_agenda_resource_event resync own_echo agenda =
    invalidate_where scope_key max_cached_scopes (λ scope. true) true none agenda
handle_agenda_resource_event (frame e) own_echo agenda =
    if own_echo || not (starts_with e.event_type "list.")
    then (agenda, [])
    else invalidate_where scope_key max_cached_scopes (names_dashboard e) true none agenda

-- ===== src/Lists/Tests.antt =====
-- Runs of the lists, and their theorems at concrete inputs.
use frontdashboard.Prelude.{
  ◌≡◌, refl, String, Bool, true, false, none, some, List, [], ◌∷◌, inl, All, any, str_eq,
}
use frontdashboard.Prelude.Dict.{get}
use frontdashboard.ListTypes.{ListItem, ListSummary, ListDetail}
use frontdashboard.Sse.{SseEvent, Payload, set_text, set_checked, set_other, frame, resync}
use frontdashboard.Query.{QueryEntry, new_entry}
use frontdashboard.Agenda.{is_of_list, handle_agenda_resource_event}
use frontdashboard.Lists.{Lists}
use frontdashboard.Lists.Mutations.{create_list, delete_list, add_list_item, delete_list_item}
use frontdashboard.Lists.Reorders.{
  other_error, begin_reorder_list_items, complete_reorder_list_items,
}
use frontdashboard.Lists.Events.{pick_patchable_item_fields, handle_list_resource_event}
use frontdashboard.Lists.Deletion.{shows, lists_id, delete_list_lem}
use frontdashboard.Lists.Rollback.{reorder_failure_lem}
use frontdashboard.Lists.RoundTrip.{delete-add_list_item}
use frontdashboard.Lists.Histories.Resync.{AllRefresh, resync_lem}
use frontdashboard.Lists.Histories.Steps.{no_lists, created, item_added, start, after, ListReach}

abbrev item : String → ListItem
item id = record {
  id = id;
  text = id;
  checked = false;
  due_date = none;
  priority = none;
  category = none;
  assigned_to = none;
}

abbrev summary : ListSummary
summary = record {
  id = "shopping";
  name = "Shopping";
  dashboard_id = "home";
  item_count = 0;
  updated_at = "a";
}

abbrev detail : List ListItem → ListDetail
detail items = record {
  id = "shopping";
  name = "Shopping";
  dashboard_id = "home";
  item_count = 2;
  updated_at = "a";
  items = items;
}

abbrev two : ListDetail
two = detail (item "milk" ∷ item "bread" ∷ [])

abbrev entry : ListDetail → QueryEntry String ListDetail
entry d = record (new_entry 0 "shopping") {
  state = record { data_ = some d; loading = false; error = none };
}

abbrev lists : ListDetail → Lists
lists d = record no_lists { details = record { entries = ("shopping", entry d) ∷ []; next = 1 } }

abbrev payload : Payload
payload = record {
  dashboard_id = some "home";
  changed_fields = none;
  share_action = none;
  widget_id = none;
  config = none;
  list_id = some "shopping";
  item_ids = some ("bread" ∷ "milk" ∷ []);
  list_ids = none;
  values = some (set_checked true ∷ set_other "id" ∷ []);
  origin_client_id = none;
}

abbrev bought : SseEvent
bought = record {
  event_id = 1;
  event_type = "list.item.checked";
  entity_type = "list_item";
  entity_id = "milk";
  entity_version = 2;
  actor_id = "u";
  created_at = "a";
  payload = payload;
}

ids_stay : pick_patchable_item_fields (set_other "id" ∷ set_text "x" ∷ []) ≡ set_text "x" ∷ []
unfolding pick_patchable_item_fields
ids_stay = refl

bought_shown :
    get "shopping" (handle_list_resource_event (frame bought) false (lists two)).0.details.entries
    ≡ some (entry (detail (record (item "milk") { checked = true } ∷ item "bread" ∷ [])))
unfolding handle_list_resource_event
bought_shown = refl

own_frame_ignored : handle_list_resource_event (frame bought) true (lists two) ≡ (lists two, [])
unfolding handle_list_resource_event
own_frame_ignored = refl

abbrev day_lt : String → String → Bool
day_lt a b = false

delete_list_lem_example :
    let gone = (delete_list "shopping" none (lists two)).0 in
    All (λ e. shows (lists_id "shopping") e.1.state ≡ false) gone.summaries.entries
    × All
        (λ e.
          str_eq e.1.scope "shopping" ≡ true
          → (e.1.state.data_ ≡ none) × (e.1.state.loading ≡ false))
        gone.details.entries
    × All (λ e. shows (any (is_of_list "shopping")) e.1.state ≡ false) gone.agenda.entries
delete_list_lem_example = delete_list_lem "shopping" (lists two)

-- A third item came while the order was saved.
abbrev three : ListDetail
three = record (detail (item "milk" ∷ item "bread" ∷ item "eggs" ∷ [])) { item_count = 3 }

reorder_failure_lem_example :
    let previous = (begin_reorder_list_items "shopping" ("bread" ∷ "milk" ∷ []) (lists two)).1 in
    let failed = complete_reorder_list_items "shopping" previous (some other_error) (lists three) in
    (get "shopping" failed.0.details.entries ≡ some (entry (record two { item_count = 3 })))
    × (failed.1 ≡ [])
reorder_failure_lem_example =
    reorder_failure_lem "shopping" ("bread" ∷ "milk" ∷ []) (entry two) (entry three) two three
      (lists two) (lists three) refl refl refl refl refl

abbrev history :
    ListReach day_lt "a"
      (add_list_item day_lt "a" "shopping"
        (inl (item "milk"))
        (create_list (inl summary) no_lists)).0
history = after (after start (created (inl summary))) (item_added "shopping" (inl (item "milk")))

resync_lem_example :
    let ls =
      (add_list_item day_lt "a" "shopping"
        (inl (item "milk"))
        (create_list (inl summary) no_lists)).0 in
    AllRefresh (handle_list_resource_event resync false ls).0.summaries
    × AllRefresh (handle_list_resource_event resync false ls).0.details
    × AllRefresh (handle_agenda_resource_event resync false ls.agenda).0
resync_lem_example = resync_lem day_lt "a" false history

delete-add_list_item_example :
    get "shopping"
      (delete_list_item "shopping" "eggs" true
        (add_list_item day_lt "a" "shopping" (inl (item "eggs")) (lists two)).0).details.entries
    ≡ some (entry two)
delete-add_list_item_example =
    delete-add_list_item day_lt "a" "shopping" (item "eggs") (entry two) two (lists two) refl refl
      refl refl

-- ===== src/Agenda/Tests.antt =====
-- Runs of the agenda, and its theorems at concrete inputs.
use frontdashboard.Prelude.{
  arith, map, ◌&&◌, ◌||◌, ◌≡◌, refl, true, false, Bool, none, some, List, [], ◌∷◌, String, str_eq,
  not, filter,
}
use frontdashboard.ListTypes.{ListItem, ListDetail}
use frontdashboard.Agenda.{
  AgendaItem, ListName, entry_id, is_of_list, rename_entry, drop_items, on_data,
  list_item_to_agenda_item, patch_entries, fetch_agenda_reminders, id_of,
}
use frontdashboard.Query.{QueryState}
use frontdashboard.Agenda.Removals.{without_items, without_list, renamed, agenda_patches_lem}
use frontdashboard.Agenda.Rows.{entry_of, updated_detail}
use frontdashboard.Agenda.Refetch.{patch_entries-eq-refetch}

-- Days written as one letter.
abbrev day_lt : String → String → Bool
day_lt a b = str_eq a "a" && not (str_eq b "a") || str_eq a "b" && str_eq b "c"

abbrev milk : ListItem
milk = record {
  id = "milk";
  text = "Milk";
  checked = false;
  due_date = some "b";
  priority = none;
  category = none;
  assigned_to = none;
}

abbrev bread : ListItem
bread = record milk { id = "bread"; text = "Bread"; due_date = some "a" }

abbrev shopping : ListDetail
shopping = record {
  id = "shopping";
  name = "Shopping";
  dashboard_id = "home";
  item_count = 2;
  updated_at = "a";
  items = milk ∷ bread ∷ [];
}

abbrev shopping_name : ListName
shopping_name = record { id = "shopping"; name = "Shopping" }

abbrev bought : ListItem
bought = record milk { checked = true }

two_reminders :
    map id_of (fetch_agenda_reminders day_lt "b" (shopping ∷ []))
    ≡ "reminder:milk" ∷ "reminder:bread" ∷ []
unfolding fetch_agenda_reminders list_item_to_agenda_item
two_reminders = refl

patch_entries-eq-refetch_example :
    entry_of "reminder:milk" (
      patch_entries
        (entry_id bought)
        (list_item_to_agenda_item day_lt "b" bought shopping_name)
        (fetch_agenda_reminders day_lt "b" (shopping ∷ [])))
    ≡ entry_of "reminder:milk"
        (fetch_agenda_reminders day_lt "b" (map (updated_detail "shopping" bought) (shopping ∷ [])))
patch_entries-eq-refetch_example =
    patch_entries-eq-refetch day_lt "b" bought shopping_name (shopping ∷ []) "reminder:milk" refl
      refl (λ e. refl, (λ e. absurd (ground arith), tt))

abbrev held : QueryState (List AgendaItem)
held = record {
  data_ = some (fetch_agenda_reminders day_lt "b" (shopping ∷ []));
  loading = false;
  error = none;
}

agenda_patches_lem_example :
    ((on_data (drop_items ("milk" ∷ [])) held).data_
      ≡ some
          (fetch_agenda_reminders day_lt "b" (map (without_items ("milk" ∷ [])) (shopping ∷ []))))
    × ((on_data (map (rename_entry "shopping" "Food")) held).data_
        ≡ some
            (fetch_agenda_reminders day_lt "b" (map (renamed "shopping" "Food") (shopping ∷ []))))
    × ((on_data (filter (λ e. not (is_of_list "shopping" e))) held).data_
        ≡ some (fetch_agenda_reminders day_lt "b" (without_list "shopping" (shopping ∷ []))))
agenda_patches_lem_example =
    agenda_patches_lem day_lt "b" (shopping ∷ []) held ("milk" ∷ []) "shopping" "Food" refl

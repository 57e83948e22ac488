-- ===== src/Lists.antt =====
-- frontend/src/resources/listData.ts: the caches of the lists, by dashboard and by list, with the
-- agenda that is derived from them and the messages shown. A call of the server is where a definition
-- starts: it takes what came back. An error is its message, or none where it is no `Error`.
-- `date_lt` and `today_key` are the agenda's.
pub mod Mutations
pub mod Reorders
pub mod Events
pub mod Histories
pub mod Deletion
pub mod Rollback
pub mod Convergence
pub mod RoundTrip
mod Tests
use frontdashboard.Prelude.{
  ℕ, suc, ◌-◌, String, Bool, true, false, not, ◌&&◌, ◌||◌, Option, none, some, List, [], ◌∷◌, ◌++◌,
  map, filter, any, if◌then◌else◌, or_else, str_eq, ◌⊎◌, inl, inr,
}
use frontdashboard.ListTypes.{ListItem, ListSummary, ListDetail}
use frontdashboard.Query.{
  QueryState, Cache, Request, ensure_entry, update_where, invalidate_where, seed, reset,
}
use frontdashboard.Agenda.{Agenda, scope_key, max_cached_scopes}

-- The state of `listSummariesQuery` and of `listDetailQuery`, whose scopes are a dashboard's and a
-- list's id; of the agenda; and the messages, the newest first.
pub record Lists : Type 0 where
  pub summaries : Cache String (List ListSummary)
  pub details : Cache String ListDetail
  pub agenda : Agenda
  pub toasts : List String

-- The requests that an operation sends.
pub data Sent : Type 0 where
  summaries_request detail_request reminders_request : Request String → Sent

abbrev pub toast : String → Lists → Lists
toast message ls = record ls { toasts = message ∷ ls.toasts }

-- The message is shown and the error thrown on, with a message of its own where it is none.
abbrev pub thrown : String → String → Option String → Lists → Lists × Option String
thrown message fallback error ls = (toast message ls, some (or_else error fallback))

-- The rows once the named one is updated, or left out.
abbrev pub patched_rows :
    String → (ListSummary → Option ListSummary) → List ListSummary → List ListSummary
patched_rows list_id updater [] = []
patched_rows list_id updater (list ∷ rest) =
    let others = patched_rows list_id updater rest in
    if str_eq list.id list_id
    then elim (updater list) [ none ↦ others | some next ↦ next ∷ others ]
    else list ∷ others

abbrev pub patched_summaries :
    String
    → (ListSummary → Option ListSummary)
    → QueryState (List ListSummary)
    → QueryState (List ListSummary)
patched_summaries list_id updater state = elim state.data_ [
  | none ↦ state
  | some lists ↦
      if any (λ list. str_eq list.id list_id) lists
      then record state { data_ = some (patched_rows list_id updater lists) }
      else state
]

unfoldable pub patch_list_summary_by_id :
    String → (ListSummary → Option ListSummary) → Lists → Lists
unfolding update_where
patch_list_summary_by_id list_id updater ls = record ls {
  summaries =
      update_where (λ scope. true) (λ state scope. patched_summaries list_id updater state)
        ls.summaries;
}

abbrev pub patched_detail :
    (ListDetail → ListDetail) → QueryState ListDetail → QueryState ListDetail
patched_detail updater state = elim state.data_ [
  | none ↦ state
  | some detail ↦ record state { data_ = some (updater detail); loading = false }
]

-- No updater of the code gives `null`, so the state never turns into an error here.
unfoldable pub patch_list_detail_by_id : String → (ListDetail → ListDetail) → Lists → Lists
unfolding update_where
patch_list_detail_by_id list_id updater ls = record ls {
  details =
      update_where (λ scope. str_eq scope list_id) (λ state scope. patched_detail updater state)
        ls.details;
}

abbrev pub not_found : QueryState ListDetail
not_found = record { data_ = none; loading = false; error = some "List not found" }

unfoldable pub remove_list_from_caches : String → Lists → Lists
unfolding patch_list_summary_by_id update_where
remove_list_from_caches list_id ls =
    let without = patch_list_summary_by_id list_id (λ list. none) ls in
    record without {
      details =
          update_where (λ scope. str_eq scope list_id) (λ state scope. not_found) without.details;
    }

-- `listDetailQuery.getState({ listId }).data`; to read makes an entry where there is none.
unfoldable pub read_detail : String → Lists → Lists × Option ListDetail
unfolding ensure_entry
read_detail list_id ls =
    let (details, entry) = ensure_entry scope_key max_cached_scopes list_id ls.details in
    (record ls { details = details }, entry.state.data_)

unfoldable pub read_summaries : String → Lists → Lists × Option (List ListSummary)
unfolding ensure_entry
read_summaries dashboard_id ls =
    let (summaries, entry) = ensure_entry scope_key max_cached_scopes dashboard_id ls.summaries in
    (record ls { summaries = summaries }, entry.state.data_)

unfoldable pub invalidate_summaries : (String → Bool) → Lists → Lists × List Sent
unfolding invalidate_where
invalidate_summaries holds ls =
    let (summaries, requests) =
      invalidate_where scope_key max_cached_scopes holds true none ls.summaries in
    (record ls { summaries = summaries }, map summaries_request requests)

unfoldable pub invalidate_details : (String → Bool) → Lists → Lists × List Sent
unfolding invalidate_where
invalidate_details holds ls =
    let (details, requests) =
      invalidate_where scope_key max_cached_scopes holds true none ls.details in
    (record ls { details = details }, map detail_request requests)

unfoldable pub reset_list_data : Lists → Lists
unfolding reset
reset_list_data ls = record ls { summaries = reset ls.summaries; details = reset ls.details }

-- ===== src/Lists/Deletion.antt =====
-- What a deletion of a list leaves in the caches and on the agenda.
use frontdashboard.Prelude.{
  ◌≡◌, refl, String, Bool, true, false, not, none, some, List, [], ◌∷◌, filter, any, All, arith,
  Bool-cases, Option-cases, inl, inr, str_eq,
}
use frontdashboard.ListTypes.{ListSummary}
use frontdashboard.Query.{QueryState}
use frontdashboard.Query.Updates.{All-update_where}
use frontdashboard.Agenda.{AgendaItem, on_data, is_of_list, remove_agenda_items_for_list}
use frontdashboard.Lists.{
  Lists, patched_rows, patched_summaries, not_found, patch_list_summary_by_id,
  remove_list_from_caches,
}
use frontdashboard.Lists.Mutations.{delete_list}

-- Whether data that is held passes a test.
abbrev pub shows : {A : Type 0} → (A → Bool) → QueryState A → Bool
shows test state = elim state.data_ [ none ↦ false | some d ↦ test d ]

abbrev pub lists_id : String → List ListSummary → Bool
lists_id id = any (λ list. str_eq list.id id)

lists_id-patched :
    (id : String) (rows : List ListSummary)
    → lists_id id (patched_rows id (λ list. none) rows) ≡ false
lists_id-patched id [] = refl
lists_id-patched id (list ∷ rows) = ground (arith, lists_id-patched id rows)

shows-patched :
    (id : String) (state : QueryState (List ListSummary))
    → shows (lists_id id) (patched_summaries id (λ list. none) state) ≡ false
shows-patched id state = elim (Option-cases state.data_) [
  | inl e ↦ rw e refl
  | inr (lists, e) ↦ elim (Bool-cases (any (λ list. str_eq list.id id) lists)) [
    | inl p ↦ rw (e, p) (lists_id-patched id lists)
    | inr p ↦ rw (e, p) p
  ]
]

any-dropped :
    (id : String) (entries : List AgendaItem)
    → any (is_of_list id) (filter (λ entry. not (is_of_list id entry)) entries) ≡ false
any-dropped id [] = refl
any-dropped id (entry ∷ entries) = ground (arith, any-dropped id entries)

shows-dropped :
    (id : String) (state : QueryState (List AgendaItem))
    → shows (any (is_of_list id)) (on_data (filter (λ entry. not (is_of_list id entry))) state)
      ≡ false
shows-dropped id state = elim (Option-cases state.data_) [
  | inl e ↦ rw e refl
  | inr (entries, e) ↦ rw e (any-dropped id entries)
]

-- Once the server has deleted a list: no dashboard shows a summary of it, no entry of its scope holds
-- a detail or shows a spinner, and no agenda shows a reminder of it.
pub delete_list_lem :
    (id : String) (ls : Lists)
    → let gone = (delete_list id none ls).0 in
      All (λ e. shows (lists_id id) e.1.state ≡ false) gone.summaries.entries
      × All
          (λ e. str_eq e.1.scope id ≡ true → (e.1.state.data_ ≡ none) × (e.1.state.loading ≡ false))
          gone.details.entries
      × All (λ e. shows (any (is_of_list id)) e.1.state ≡ false) gone.agenda.entries
unfolding delete_list remove_list_from_caches patch_list_summary_by_id remove_agenda_items_for_list
delete_list_lem id ls = (
  All-update_where (λ scope. true) (λ state scope. patched_summaries id (λ list. none) state)
      (λ s scope. shows (lists_id id) s ≡ false) ls.summaries (λ s scope p. shows-patched id s)
      (λ s scope p. absurd (cc)),
  All-update_where (λ scope. str_eq scope id) (λ state scope. not_found)
      (λ s scope. str_eq scope id ≡ true → (s.data_ ≡ none) × (s.loading ≡ false)) ls.details
      (λ s scope p q. (refl, refl)) (λ s scope p q. absurd (cc)),
  All-update_where (λ scope. true)
      (λ state scope. on_data (filter (λ entry. not (is_of_list id entry))) state)
      (λ s scope. shows (any (is_of_list id)) s ≡ false) ls.agenda (λ s scope p. shows-dropped id s)
      (λ s scope p. absurd (cc)),
)

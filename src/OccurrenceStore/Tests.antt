-- ===== src/OccurrenceStore/Tests.antt =====
-- Runs of the occurrence cache, and its theorems at concrete inputs.
use frontdashboard.Prelude.{
  ℕ, ◌≡◌, refl, false, Bool, not, some, [], ◌∷◌, arith, String, if◌then◌else◌, str_eq,
}
use frontdashboard.Prelude.Dict.{get, keep_if, values}
use frontdashboard.Intervals.{interval, overlaps, gaps_in}
use frontdashboard.OccurrenceStore.{
  Occurrence, Entry, new_entry, span_of, reconcile, complete_fetch, reload,
}
use frontdashboard.OccurrenceStore.Reconcile.{last_with_key, first_some, get-reconcile}
use frontdashboard.OccurrenceStore.Validity.{
  IsValid, handle, Reach, here, next, load_began, Reach-IsValid,
}
use frontdashboard.OccurrenceStore.Loads.{gaps_in-complete_fetch, Requested, reload_lem}

-- Instants written as one letter.
abbrev parse : String → ℕ
parse s = if str_eq s "a" then 5 else if str_eq s "b" then 15 else 25

abbrev standup : Occurrence
standup = record {
  event_id = "e";
  original_start = "a";
  occurrence_start = "a";
  occurrence_end = "b";
  title = "Standup";
  all_day = false;
  recurring = false;
}

abbrev empty : Entry
empty = new_entry (some "d")

empty-IsValid : IsValid empty
empty-IsValid = record { separated = tt; dict = refl; flights = tt }

abbrev leq : String → String → Bool
leq a b = not (str_eq a b)

abbrev asked : Entry
asked = record empty { in_flight = interval 0 10 ∷ [] }

asked-Reach : Reach parse leq empty (handle parse leq (load_began (interval 0 10)) empty)
asked-Reach = next (load_began (interval 0 10)) here tt

get-reconcile_example :
    get "e|a" (reconcile parse (interval 0 10) [] (("e|a", standup) ∷ []))
    ≡ first_some
        (last_with_key "e|a" [])
        (keep_if (λ o. not (overlaps (span_of parse o) (interval 0 10))) (some standup))
get-reconcile_example = get-reconcile parse (interval 0 10) [] (("e|a", standup) ∷ []) "e|a" refl

gaps_in-complete_fetch_example :
    gaps_in
      (complete_fetch parse empty (interval 0 10) (some (standup ∷ []))).covered
      (interval 0 10)
    ≡ []
gaps_in-complete_fetch_example =
    gaps_in-complete_fetch parse empty (interval 0 10) (standup ∷ []) empty-IsValid (omega arith)

abbrev watched : Entry
watched = record empty { windows = ("w0", interval 0 10) ∷ []; covered = interval 0 10 ∷ [] }

reload_lem_example :
    ((reload watched).covered ≡ [])
    × ((reload watched).state ≡ watched.state)
    × ((reload watched).by_key ≡ watched.by_key)
    × Requested
        (values watched.windows)
        watched.pending
        watched.flush_scheduled
        ((reload watched).pending, (reload watched).flush_scheduled)
reload_lem_example = reload_lem watched

Reach-IsValid_example : IsValid (handle parse leq (load_began (interval 0 10)) empty)
Reach-IsValid_example = Reach-IsValid parse leq (some "d") asked-Reach

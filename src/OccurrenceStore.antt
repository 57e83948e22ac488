-- ===== src/OccurrenceStore.antt =====
-- frontend/src/resources/occurrenceStore.ts: the per-dashboard occurrence cache.
-- An asynchronous function is split at its `await`s: a `begin_` step issues the requests, and a
-- step per response resumes it. `Date.parse` and `localeCompare` are parameters. A `Promise` that
-- the entry holds is modelled by its presence, an `Error` by its message, and listeners are left
-- out: they only re-render. Requests in flight are keyed by the interval itself.
pub mod Reconcile
pub mod Loads
pub mod Validity
mod Tests
use Prim.Native.String
use frontdashboard.Prelude.{
  ℕ, Bool, true, false, not, Option, none, some, List, [], ◌∷◌, ◌++◌, ltb, leb, ◌==◌, ◌&&◌,
  if◌then◌else◌, length, any, filter, for_each, String, or_else, map,
}
use frontdashboard.Prelude.Sort.{sort}
use frontdashboard.Prelude.Dict.{set, delete, values, get}
use frontdashboard.Intervals.{
  Interval, interval, hull, width, overlaps, add_interval, gaps_in, trim_coverage, watched_interval,
  max_covered_ms, watched_from,
}

-- The fields of `CalendarOccurrence` that the store and the agenda read.
pub record Occurrence : Type 0 where
  pub event_id : String
  pub original_start : String
  pub occurrence_start : String
  pub occurrence_end : String
  pub title : String
  pub all_day : Bool
  pub recurring : Bool

pub record OccurrenceState : Type 0 where
  pub occurrences : List Occurrence
  pub loaded : Bool
  pub loading : Bool
  pub error : Option String

pub record Entry : Type 0 where
  pub dashboard_id : Option String
  pub by_key : List (String × Occurrence)
  pub covered : List Interval
  pub windows : List (String × Interval)
  pub pending : List Interval
  pub flush_scheduled : Bool
  pub in_flight : List Interval
  pub state : OccurrenceState

abbrev pub empty_state : OccurrenceState
empty_state = record { occurrences = []; loaded = false; loading = false; error = none }

abbrev pub new_entry : Option String → Entry
new_entry dashboard_id = record {
  dashboard_id = dashboard_id;
  by_key = [];
  covered = [];
  windows = [];
  pending = [];
  flush_scheduled = false;
  in_flight = [];
  state = empty_state;
}

abbrev pub occurrence_key : Occurrence → String
occurrence_key o = String.◌++◌ o.event_id (String.◌++◌ "|" o.original_start)

abbrev pub entry_key : Option String → String
entry_key dashboard_id = or_else dashboard_id "personal"

-- `ensureEntry` on the map of entries: the entries and the one for the dashboard.
unfoldable pub ensure_entry : Option String → List (String × Entry) → List (String × Entry) × Entry
ensure_entry dashboard_id entries = elim (get (entry_key dashboard_id) entries) [
  | some existing ↦ (entries, existing)
  | none ↦ (set (entry_key dashboard_id) (new_entry dashboard_id) entries, new_entry dashboard_id)
]

abbrev pub same_interval : Interval → Interval → Bool
same_interval a b = a.start == b.start && a.end == b.end

abbrev pub span_of : (String → ℕ) → Occurrence → Interval
span_of date_parse o = interval (date_parse o.occurrence_start) (date_parse o.occurrence_end)

unfoldable pub republish_occurrences : (String → String → Bool) → Entry → Entry
republish_occurrences locale_leq entry =
    let sorted =
      sort (λ (a b : Occurrence). locale_leq a.occurrence_start b.occurrence_start)
        (values entry.by_key) in
    record entry { state = record (entry.state) { occurrences = sorted } }

-- `trim`: the coverage, and the occurrences that none of what is retained overlaps.
unfoldable pub trim : (String → ℕ) → Entry → Interval → Entry
trim date_parse entry keep = elim (trim_coverage max_covered_ms entry.covered keep) [
  | none ↦ entry
  | some retained ↦ record entry {
    by_key =
        filter
          (λ (e : String × Occurrence). any (λ i. overlaps i (span_of date_parse e.1)) retained)
          entry.by_key;
    covered = retained;
  }
]

-- The occurrences that remain while the server's answer for the interval is inserted.
unfoldable pub insert_fetched :
    List Occurrence → List (String × Occurrence) → List (String × Occurrence)
insert_fetched fetched by_key = for_each (λ m o. set (occurrence_key o) o m) by_key fetched

unfoldable pub reconcile :
    (String → ℕ)
    → Interval
    → List Occurrence
    → List (String × Occurrence)
    → List (String × Occurrence)
unfolding insert_fetched
reconcile date_parse i fetched by_key =
    insert_fetched fetched
      (filter (λ (e : String × Occurrence). not (overlaps (span_of date_parse e.1) i)) by_key)

-- `fetchInterval` up to its `await`: an interval in flight is not requested again.
unfoldable pub begin_fetch : Entry → Interval → Entry × Bool
begin_fetch entry i =
    if any (same_interval i) entry.in_flight
    then (entry, false)
    else (record entry { in_flight = entry.in_flight ++ i ∷ [] }, true)

abbrev settle_flight : Entry → Interval → Entry
settle_flight entry i = record entry {
  in_flight = filter (λ j. not (same_interval i j)) entry.in_flight;
}

-- `fetchInterval` from its response on; `none` is a rejected request.
unfoldable pub complete_fetch : (String → ℕ) → Entry → Interval → Option (List Occurrence) → Entry
unfolding reconcile trim
complete_fetch date_parse entry i none = settle_flight entry i
complete_fetch date_parse entry i (some fetched) =
    settle_flight
      (trim date_parse
        (record entry {
          by_key = reconcile date_parse i fetched entry.by_key;
          covered = add_interval entry.covered i;
        })
        i)
      i

-- What `runLoad` publishes before its requests: nothing where no gap is left.
unfoldable pub report_loading : Entry → List Interval → Entry
report_loading entry [] = entry
report_loading entry (_ ∷ _) = record entry {
  state = record (entry.state) { loading = length entry.by_key == 0; error = none };
}

-- `runLoad` up to its requests: the entry and the gaps to fetch.
unfoldable pub begin_load : Entry → Interval → Entry × List Interval
unfolding report_loading
begin_load entry wanted =
    let gaps = gaps_in entry.covered wanted in (report_loading entry gaps, gaps)

-- `runLoad` after its requests: all settled (`none`), or the first rejection's message.
unfoldable pub complete_load : (String → String → Bool) → Entry → Option String → Entry
unfolding republish_occurrences
complete_load locale_leq entry none =
    let published = republish_occurrences locale_leq entry in
    record published {
      state = record (published.state) { loaded = true; loading = false; error = none };
    }
complete_load locale_leq entry (some message) = record entry {
  state = record (entry.state) { loading = false; error = some message };
}

-- The requests of a load: every gap begins its fetch before the first response.
unfoldable pub begin_gaps : Entry → List Interval → Entry
unfolding begin_fetch
begin_gaps entry gaps = for_each (λ e gap. (begin_fetch e gap).0) entry gaps

-- `loadWindow` up to the flush that it schedules.
unfoldable pub load_window : Entry → Interval → Entry
load_window entry wanted = record entry {
  pending = entry.pending ++ wanted ∷ [];
  flush_scheduled = true;
}

-- The flush: one load of the span of the batch, or one for each window where the span is over the
-- cap. The batch is never empty, so the case of no window is not reached.
unfoldable pub flush_plan : ℕ → List Interval → List Interval
unfolding watched_from
flush_plan cap [] = []
flush_plan cap (w ∷ rest) =
    let span = watched_from w rest in if ltb cap (width span) then w ∷ rest else span ∷ []

unfoldable pub flush : Entry → Entry × List Interval
unfolding flush_plan
flush entry = (
  record entry { pending = []; flush_scheduled = false },
  flush_plan max_covered_ms entry.pending,
)

-- The effect of `useOccurrences` that registers a window, and its clean-up.
unfoldable pub watch : Entry → String → Interval → Entry
unfolding load_window
watch entry watcher_id wanted =
    load_window (record entry { windows = set watcher_id wanted entry.windows }) wanted

unfoldable pub unwatch : Entry → String → Entry
unwatch entry watcher_id = record entry { windows = delete watcher_id entry.windows }

unfoldable pub refetch : Entry → Interval → Entry
unfolding load_window
refetch entry wanted = load_window (record entry { covered = [] }) wanted

unfoldable pub reload : Entry → Entry
unfolding load_window watched_interval
reload entry =
    let cleared = record entry { covered = [] } in
    elim (watched_interval max_covered_ms (values entry.windows)) [
      | none ↦ cleared
      | some watched ↦ load_window cleared watched
    ]

-- `data` of `useOccurrences`: the published occurrences that overlap the window.
unfoldable pub visible : (String → ℕ) → Entry → Interval → List Occurrence
visible date_parse entry wanted =
    filter (λ o. overlaps (span_of date_parse o) wanted) entry.state.occurrences

-- ===== src/OccurrenceStore/Validity.antt =====
-- The invariant of an entry, and that every operation keeps it.
use frontdashboard.Prelude.{
  ℕ, ◌≡◌, Bool, true, Option, none, some, List, [], ◌∷◌, String, refl, arith, All, Option-cases,
  any, All-append, All-filter, Bool-cases, inl, inr,
}
use frontdashboard.Prelude.Dict.{is_dict, is_dict-filter, values}
use frontdashboard.Intervals.{
  Interval, add_interval, gaps_in, trim_coverage, max_covered_ms, watched_interval,
}
use frontdashboard.Intervals.Gaps.{gaps_in-IsProper}
use frontdashboard.Intervals.Order.{IsProper, IsSeparated, add_interval-IsSeparated}
use frontdashboard.Intervals.TrimOrder.{trim_coverage-IsSeparated}
use frontdashboard.OccurrenceStore.{
  Occurrence, Entry, new_entry, reconcile, trim, begin_fetch, complete_fetch, begin_load,
  complete_load, load_window, flush, watch, unwatch, refetch, reload, republish_occurrences,
  begin_gaps, same_interval, report_loading,
}
use frontdashboard.OccurrenceStore.Reconcile.{reconcile-is_dict}

-- The coverage is ascending without empty or touching intervals, no key is held twice, and no
-- empty interval is being fetched.
pub record IsValid (entry : Entry) : Type 0 where
  pub separated : IsSeparated entry.covered
  pub dict : is_dict entry.by_key ≡ true
  pub flights : All IsProper entry.in_flight

-- Everything that happens to an entry.
pub data Event : Type 0 where
  mounted : String → Interval → Event
  unmounted : String → Event
  refetched : Interval → Event
  invalidated : Event
  flushed : Event
  load_began : Interval → Event
  fetch_settled : Interval → Option (List Occurrence) → Event
  load_settled : Option String → Event

-- A response settles a fetch that is in flight.
abbrev pub IsPossible : Event → Entry → Type 0
IsPossible (fetch_settled i _) entry = any (same_interval i) entry.in_flight ≡ true
IsPossible _ entry = Unit

module _ (date_parse : String → ℕ) (locale_leq : String → String → Bool) where
  unfoldable pub handle : Event → Entry → Entry
  unfolding begin_gaps begin_load complete_fetch complete_load flush watch unwatch refetch reload
  handle (mounted watcher wanted) entry = watch entry watcher wanted
  handle (unmounted watcher) entry = unwatch entry watcher
  handle (refetched wanted) entry = refetch entry wanted
  handle invalidated entry = reload entry
  handle flushed entry = (flush entry).0
  handle (load_began wanted) entry = let (e, gaps) = begin_load entry wanted in begin_gaps e gaps
  handle (fetch_settled i response) entry = complete_fetch date_parse entry i response
  handle (load_settled failure) entry = complete_load locale_leq entry failure

  pub data Reach (start : Entry) : Entry → Type 0 where
    here : Reach start start
    next :
        {entry : Entry} (event : Event)
        → Reach start entry
        → IsPossible event entry
        → Reach start (handle event entry)

begin_gaps-IsValid :
    (entry : Entry) (gaps : List Interval)
    → All IsProper gaps
    → IsValid entry
    → IsValid (begin_gaps entry gaps)
unfolding begin_gaps begin_fetch
begin_gaps-IsValid entry [] p v = v
begin_gaps-IsValid entry (g ∷ gs) (p, ps) v =
    begin_gaps-IsValid (begin_fetch entry g).0 gs ps
      (elim (Bool-cases (any (same_interval g) entry.in_flight)) [
        | inl old ↦ rw old v
        | inr new ↦ rw new (record {
          separated = v.separated;
          dict = v.dict;
          flights = All-append IsProper entry.in_flight (g ∷ []) v.flights (p, tt);
        })
      ])

report_loading-IsValid :
    (entry : Entry) (gaps : List Interval) → IsValid entry → IsValid (report_loading entry gaps)
unfolding report_loading
report_loading-IsValid entry [] v = v
report_loading-IsValid entry (_ ∷ _) v = record {
  separated = v.separated;
  dict = v.dict;
  flights = v.flights;
}

module _ (date_parse : String → ℕ) where
  trim-IsValid :
      (entry : Entry) (keep : Interval) → IsValid entry → IsValid (trim date_parse entry keep)
  unfolding trim
  trim-IsValid entry keep v =
      elim (Option-cases (trim_coverage max_covered_ms entry.covered keep)) [
        | inl e ↦ rw (e, trim) v
        | inr (kept, e) ↦
            rw (e, trim)
              (record {
                separated =
                    trim_coverage-IsSeparated max_covered_ms entry.covered keep kept v.separated e;
                dict = is_dict-filter _ entry.by_key v.dict;
                flights = v.flights;
              })
      ]

same_interval-eq : (i j : Interval) → same_interval i j ≡ true → i ≡ j
same_interval-eq i j h = ground arith

-- An interval in flight is not empty.
flight-IsProper :
    (i : Interval) (flights : List Interval)
    → All IsProper flights
    → any (same_interval i) flights ≡ true
    → IsProper i
flight-IsProper i [] p h = cc
flight-IsProper i (j ∷ js) (p, ps) h = ground (arith, flight-IsProper i js ps)

module _ (date_parse : String → ℕ) where
  pub complete_fetch-IsValid :
      (entry : Entry) (i : Interval) (response : Option (List Occurrence))
      → IsValid entry
      → IsProper i
      → IsValid (complete_fetch date_parse entry i response)
  unfolding complete_fetch
  complete_fetch-IsValid entry i none v p = record {
    separated = v.separated;
    dict = v.dict;
    flights = All-filter IsProper _ _ v.flights;
  }
  complete_fetch-IsValid entry i (some fetched) v p =
      let merged : Entry = record entry {
        by_key = reconcile date_parse i fetched entry.by_key;
        covered = add_interval entry.covered i;
      } in
      let t : IsValid (trim date_parse merged i) = trim-IsValid date_parse merged i (record {
        separated = add_interval-IsSeparated entry.covered i v.separated p;
        dict = reconcile-is_dict date_parse i fetched entry.by_key v.dict;
        flights = v.flights;
      }) in
      record { separated = t.separated; dict = t.dict; flights = All-filter IsProper _ _ t.flights }

reload-IsValid : (entry : Entry) → IsValid entry → IsValid (reload entry)
unfolding reload load_window
reload-IsValid entry v =
    elim (Option-cases (watched_interval max_covered_ms (values entry.windows))) [
      | inl e ↦ rw (e, reload) (record { separated = tt; dict = v.dict; flights = v.flights })
      | inr (w, e) ↦ rw (e, reload) (record { separated = tt; dict = v.dict; flights = v.flights })
    ]

-- Every event that is possible in a valid entry keeps it valid.
pub handle-IsValid :
    (date_parse : String → ℕ) (locale_leq : String → String → Bool) (event : Event) (entry : Entry)
    → IsPossible event entry
    → IsValid entry
    → IsValid (handle date_parse locale_leq event entry)
unfolding handle load_window republish_occurrences
handle-IsValid dp leq (mounted watcher wanted) entry h v = record {
  separated = v.separated;
  dict = v.dict;
  flights = v.flights;
}
handle-IsValid dp leq (unmounted watcher) entry h v = record {
  separated = v.separated;
  dict = v.dict;
  flights = v.flights;
}
handle-IsValid dp leq (refetched wanted) entry h v = record {
  separated = tt;
  dict = v.dict;
  flights = v.flights;
}
handle-IsValid dp leq invalidated entry h v = reload-IsValid entry v
handle-IsValid dp leq flushed entry h v = record {
  separated = v.separated;
  dict = v.dict;
  flights = v.flights;
}
handle-IsValid dp leq (load_began wanted) entry h v =
    let gaps = gaps_in entry.covered wanted in
    begin_gaps-IsValid (report_loading entry gaps) gaps (gaps_in-IsProper entry.covered wanted)
      (report_loading-IsValid entry gaps v)
handle-IsValid dp leq (fetch_settled i response) entry h v =
    complete_fetch-IsValid dp entry i response v (flight-IsProper i entry.in_flight v.flights h)
handle-IsValid dp leq (load_settled none) entry h v = record {
  separated = v.separated;
  dict = v.dict;
  flights = v.flights;
}
handle-IsValid dp leq (load_settled (some message)) entry h v = record {
  separated = v.separated;
  dict = v.dict;
  flights = v.flights;
}

-- Whatever happens to a new entry, in whatever order responses arrive, the invariant holds.
pub Reach-IsValid :
    (date_parse : String → ℕ) (locale_leq : String → String → Bool) (dashboard_id : Option String)
    {entry : Entry}
    → Reach date_parse locale_leq (new_entry dashboard_id) entry
    → IsValid entry
Reach-IsValid dp leq d here = record { separated = tt; dict = refl; flights = tt }
Reach-IsValid dp leq d (next {entry = e} event r h) =
    handle-IsValid dp leq event e h (Reach-IsValid dp leq d r)

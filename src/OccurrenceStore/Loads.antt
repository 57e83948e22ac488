-- ===== src/OccurrenceStore/Loads.antt =====
-- Loading a window: what is requested, what is covered afterwards, and what a flush and an
-- invalidation schedule.
use frontdashboard.Prelude.{
  ℕ, ◌≤◌, ◌<◌, ◌≡◌, ◌⊎◌, Bool, true, none, some, List, [], ◌∷◌, ◌++◌, String, refl, arith, All,
  Option-cases, any, for_each, Bool-cases, inl, inr, ltb, any-append, ◌↔◌, ap, All_imp, ltb→lt, sym,
  subst,
}
use frontdashboard.Prelude.Dict.{values}
use frontdashboard.Prelude.Sort.{any-sort}
use frontdashboard.Intervals.{
  Interval, hull, width, add_interval, merge_step, gaps_in, trim_coverage, max_covered_ms,
  watched_interval, watched_from, starts_before,
}
use frontdashboard.Intervals.Coverage.{holds, covers}
use frontdashboard.Intervals.Gaps.{gaps_in_of_covered, covers-gaps_in}
use frontdashboard.Intervals.Order.{IsProper, add_interval-IsSeparated}
use frontdashboard.Intervals.Trim.{contains, trim_coverage-contains}
use frontdashboard.OccurrenceStore.{
  Occurrence, Entry, trim, complete_fetch, begin_load, load_window, flush_plan, reload,
  report_loading,
}
use frontdashboard.OccurrenceStore.Validity.{IsValid, complete_fetch-IsValid}

-- The interval that absorbs contains the added one, before and after each round.
merge_loop-contains :
    (keep : Interval) (s : List Interval × Interval) (xs : List Interval)
    → contains keep s.1 ≡ true
    → contains keep (for_each merge_step s xs).1 ≡ true
unfolding merge_step
merge_loop-contains keep s [] h = h
merge_loop-contains keep (merged, current) (i ∷ xs) h =
    merge_loop-contains keep (merge_step (merged, current) i) xs (ground arith)

add_interval-contains :
    (covered : List Interval) (next : Interval)
    → any (contains next) (add_interval covered next) ≡ true
unfolding add_interval
add_interval-contains covered next =
    let s : List Interval × Interval = for_each merge_step ([], next) covered in
    ground (
      arith,
      any-sort starts_before (contains next) (s.0 ++ s.1 ∷ []),
      any-append (contains next) s.0 (s.1 ∷ []),
      merge_loop-contains next ([], next) covered,
    )

covers_of_contains :
    (keep : Interval) (xs : List Interval) (t : ℕ)
    → any (contains keep) xs ≡ true
    → holds t keep ≡ true
    → covers xs t ≡ true
covers_of_contains keep [] t h k = h
covers_of_contains keep (x ∷ xs) t h k = ground (arith, covers_of_contains keep xs t)

complete_fetch-contains :
    (date_parse : String → ℕ) (entry : Entry) (i : Interval) (fetched : List Occurrence)
    → IsValid entry
    → IsProper i
    → any (contains i) (complete_fetch date_parse entry i (some fetched)).covered ≡ true
unfolding complete_fetch
complete_fetch-contains dp entry i fetched v p =
    let covered : List Interval = add_interval entry.covered i in
    elim (Option-cases (trim_coverage max_covered_ms covered i)) [
      | inl e ↦ rw (e, trim) (add_interval-contains entry.covered i)
      | inr (kept, e) ↦
          rw (e, trim)
            (trim_coverage-contains max_covered_ms covered i kept
              (add_interval-IsSeparated entry.covered i v.separated p) p
              (add_interval-contains entry.covered i) e)
    ]

-- In a valid entry, once the response for a non-empty interval is in, the interval has no gap:
-- neither the merge nor the trim that follows it loses what was just fetched.
pub gaps_in-complete_fetch :
    (date_parse : String → ℕ) (entry : Entry) (i : Interval) (fetched : List Occurrence)
    → IsValid entry
    → IsProper i
    → gaps_in (complete_fetch date_parse entry i (some fetched)).covered i ≡ []
gaps_in-complete_fetch dp entry i fetched v p =
    gaps_in_of_covered (complete_fetch dp entry i (some fetched)).covered i
      (complete_fetch-IsValid dp entry i (some fetched) v p).separated
      λ t h.
        covers_of_contains i (complete_fetch dp entry i (some fetched)).covered t
          (complete_fetch-contains dp entry i fetched v p) h

-- A load of a valid entry requests nothing, and changes nothing, exactly if the coverage contains
-- the window.
pub begin_load-eq_iff :
    (entry : Entry) (wanted : Interval)
    → IsValid entry
    → (begin_load entry wanted ≡ (entry, []))
      ↔ ((t : ℕ) → holds t wanted ≡ true → covers entry.covered t ≡ true)
unfolding begin_load report_loading
begin_load-eq_iff entry wanted v = (
  λ e t h.
      (let none_left : gaps_in entry.covered wanted ≡ [] =
          ap (λ (p : Entry × List Interval). p.1) e in
        let same = covers-gaps_in entry.covered wanted t v.separated in
        ground (arith, ap (λ gs. covers gs t) none_left)),
  λ c. rw (gaps_in_of_covered entry.covered wanted v.separated c, report_loading) refl,
)

watched_from_grows :
    (p : Interval) (acc : Interval) (ws : List Interval)
    → contains p acc ≡ true
    → contains p (watched_from acc ws) ≡ true
unfolding watched_from
watched_from_grows p acc [] h = h
watched_from_grows p acc (w ∷ ws) h = watched_from_grows p (hull acc w) ws (ground arith)

watched_from-contains :
    (acc : Interval) (ws : List Interval) → All (λ w. contains w (watched_from acc ws) ≡ true) ws
unfolding watched_from
watched_from-contains acc [] = tt
watched_from-contains acc (w ∷ ws) =
    (watched_from_grows w (hull acc w) ws (ground arith), watched_from-contains (hull acc w) ws)

-- The span of some windows contains each of them.
hull-contains :
    (w : Interval) (ws : List Interval) → All (λ x. contains x (watched_from w ws) ≡ true) (w ∷ ws)
hull-contains w ws = (watched_from_grows w w ws (ground arith), watched_from-contains w ws)

itself : (ws : List Interval) → All (λ w. any (contains w) ws ≡ true) ws
itself [] = tt
itself (w ∷ ws) = (ground arith, All_imp ws (λ x h. ground (arith, h)) (itself ws))

-- A plan for a batch loads every window of it, and nothing over the limit but a window that was
-- asked for itself.
pub record IsPlan (limit : ℕ) (batch plan : List Interval) : Type 0 where
  pub complete : All (λ w. any (contains w) plan ≡ true) batch
  pub bounded : (plan ≡ batch) ⊎ All (λ w. width w ≤ limit) plan

-- A flush loads every window of its batch, and loads a span of several only up to the cap.
pub flush_plan-IsPlan :
    (limit : ℕ) (batch : List Interval) → IsPlan limit batch (flush_plan limit batch)
unfolding flush_plan
flush_plan-IsPlan limit [] = record { complete = tt; bounded = inl refl }
flush_plan-IsPlan limit (w ∷ ws) = elim (Bool-cases (ltb limit (width (watched_from w ws)))) [
  | inl over ↦
      subst (IsPlan limit (w ∷ ws)) {x = w ∷ ws} (rw over)
        (record { complete = itself (w ∷ ws); bounded = inl refl })
  | inr fits ↦ subst (IsPlan limit (w ∷ ws)) {x = watched_from w ws ∷ []} (rw fits) (record {
    complete = All_imp (w ∷ ws) (λ x h. ground (arith, h)) (hull-contains w ws);
    bounded = inr (ground arith, tt);
  })
]

-- The interval is the span of the windows: it contains each of them, and lies in whatever does.
pub record IsSpan (windows : List Interval) (w : Interval) : Type 0 where
  pub contains_all : All (λ x. contains x w ≡ true) windows
  pub least : (v : Interval) → All (λ x. contains x v ≡ true) windows → contains w v ≡ true

watched_from-least :
    (acc v : Interval) (ws : List Interval)
    → contains acc v ≡ true
    → All (λ x. contains x v ≡ true) ws
    → contains (watched_from acc ws) v ≡ true
unfolding watched_from
watched_from-least acc v [] h hs = h
watched_from-least acc v (w ∷ ws) h (k, hs) =
    watched_from-least (hull acc w) v ws (ground (arith, h, k)) hs

watched_from-IsSpan : (w : Interval) (ws : List Interval) → IsSpan (w ∷ ws) (watched_from w ws)
watched_from-IsSpan w ws = record {
  contains_all = hull-contains w ws;
  least = λ v hs. watched_from-least w v ws hs.0 hs.1;
}

-- What an invalidation asks for, as the windows that wait and whether a flush is to come: nothing
-- where no window is on screen or their span is over the cap, else one load of their span.
pub data Requested (windows pending : List Interval) (flush : Bool)
    : List Interval × Bool → Type 0 where
  no_window :
      {after : List Interval × Bool}
      → windows ≡ []
      → after ≡ (pending, flush)
      → Requested windows pending flush after
  too_wide :
      {after : List Interval × Bool} (w : Interval)
      → max_covered_ms < width w
      → IsSpan windows w
      → after ≡ (pending, flush)
      → Requested windows pending flush after
  one_load :
      {after : List Interval × Bool} (w : Interval)
      → width w ≤ max_covered_ms
      → IsSpan windows w
      → after ≡ (pending ++ w ∷ [], true)
      → Requested windows pending flush after

watched-Requested :
    (windows pending : List Interval) (flush : Bool)
    → Requested windows pending flush (elim (watched_interval max_covered_ms windows) [
      | none ↦ (pending, flush)
      | some w ↦ (pending ++ w ∷ [], true)
    ])
unfolding watched_interval
watched-Requested [] pending flush = no_window refl refl
watched-Requested (w ∷ ws) pending flush =
    elim (Bool-cases (ltb max_covered_ms (width (watched_from w ws)))) [
      | inl over ↦
          too_wide (watched_from w ws) (ltb→lt _ _ over) (watched_from-IsSpan w ws) (rw over)
      | inr fits ↦ one_load (watched_from w ws) (ground arith) (watched_from-IsSpan w ws) (rw fits)
    ]

abbrev waits : Entry → List Interval × Bool
waits entry = (entry.pending, entry.flush_scheduled)

reload-waits :
    (entry : Entry)
    → waits (reload entry) ≡ elim (watched_interval max_covered_ms (values entry.windows)) [
      | none ↦ waits entry
      | some w ↦ (entry.pending ++ w ∷ [], true)
    ]
unfolding reload load_window
reload-waits entry = elim (Option-cases (watched_interval max_covered_ms (values entry.windows))) [
  | inl e ↦ rw (reload, e) refl
  | inr (w, e) ↦ rw (reload, e) refl
]

-- An invalidation empties the coverage, keeps the occurrences that are held and shown, and schedules
-- one load, of exactly the span of the windows on screen; it asks for nothing only where there is no
-- window, or where that span is over the cap.
pub reload_lem :
    (entry : Entry)
    → ((reload entry).covered ≡ [])
      × ((reload entry).state ≡ entry.state)
      × ((reload entry).by_key ≡ entry.by_key)
      × Requested
          (values entry.windows)
          entry.pending
          entry.flush_scheduled
          ((reload entry).pending, (reload entry).flush_scheduled)
unfolding reload load_window
reload_lem entry = (
  ground arith,
  ground arith,
  ground arith,
  subst (Requested (values entry.windows) entry.pending entry.flush_scheduled)
      (sym (reload-waits entry))
      (watched-Requested (values entry.windows) entry.pending entry.flush_scheduled),
)

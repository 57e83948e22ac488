-- ===== src/Intervals.antt =====
-- frontend/src/resources/occurrenceStore.ts: the interval arithmetic of the occurrence cache.
-- Instants are milliseconds after the epoch as natural numbers. A width `end - start` is never
-- negative on the intervals that the cache holds (`IsSeparated`), so `-` on ℕ is the code's.
pub mod Coverage
pub mod Order
pub mod Gaps
pub mod Trim
pub mod TrimOrder
mod Tests
use frontdashboard.Prelude.{
  ℕ, ◌+◌, ◌-◌, ◌≤◌, min, max, Bool, ◌&&◌, ◌||◌, List, [], ◌∷◌, ◌++◌, ltb, leb, if◌then◌else◌,
  length, for_each, Option, none, some,
}
use frontdashboard.Prelude.Sort.{sort}

pub record Interval : Type 0 where
  pub start : ℕ
  pub end : ℕ

abbrev pub interval : ℕ → ℕ → Interval
interval s e = record { start = s; end = e }

-- `MAX_COVERED_DAYS * 24 * 60 * 60 * 1000`
abbrev pub max_covered_ms : ℕ
max_covered_ms = 31622400000

unfoldable pub overlaps : Interval → Interval → Bool
overlaps a b = ltb a.start b.end && ltb b.start a.end

-- `current` after it has absorbed an interval that it touches.
abbrev pub hull : Interval → Interval → Interval
hull current i = interval (min current.start i.start) (max current.end i.end)

-- One round of the loop of `addInterval`, on `(merged, current)`.
unfoldable pub merge_step : List Interval × Interval → Interval → List Interval × Interval
merge_step (merged, current) i =
    if ltb i.end current.start || ltb current.end i.start
    then (merged ++ i ∷ [], current)
    else (merged, hull current i)

abbrev pub starts_before : Interval → Interval → Bool
starts_before a b = leb a.start b.start

unfoldable pub add_interval : List Interval → Interval → List Interval
unfolding merge_step
add_interval covered next =
    let (merged, current) = for_each merge_step ([], next) covered in
    sort starts_before (merged ++ current ∷ [])

-- The gap that is left once no covered interval remains, if there is one.
abbrev pub last_gap : Interval → ℕ → List Interval
last_gap wanted cursor = if ltb cursor wanted.end then interval cursor wanted.end ∷ [] else []

-- The loop of `gapsIn` from a cursor on: `continue` keeps the cursor, `break` leaves the loop for
-- the last gap. The gaps are listed in the order in which they are pushed.
unfoldable pub gaps_from : Interval → ℕ → List Interval → List Interval
gaps_from wanted cursor [] = last_gap wanted cursor
gaps_from wanted cursor (i ∷ rest) =
    let skipped = gaps_from wanted cursor rest in
    let gap = if ltb cursor i.start then interval cursor (min i.start wanted.end) ∷ [] else [] in
    let cursor' = max cursor i.end in
    let further = gaps_from wanted cursor' rest in
    if leb i.end cursor
    then skipped
    else if leb wanted.end i.start
    then last_gap wanted cursor
    else if leb wanted.end cursor'
    then gap ++ last_gap wanted cursor'
    else gap ++ further

unfoldable pub gaps_in : List Interval → Interval → List Interval
unfolding gaps_from
gaps_in covered wanted = gaps_from wanted wanted.start covered

abbrev pub width : Interval → ℕ
width i = i.end - i.start

unfoldable pub covered_span : List Interval → ℕ
covered_span [] = 0
covered_span (i ∷ rest) = width i + covered_span rest

-- `Math.max(0, …)` of the two signed differences: truncated subtraction.
abbrev pub distance : Interval → Interval → ℕ
distance keep i = max (keep.start - i.end) (i.start - keep.end)

abbrev pub nearer : Interval → Interval → Interval → Bool
nearer keep a b = leb (distance keep a) (distance keep b)

-- One round of the retention loop of `trim`, on `(retained, span)`.
unfoldable pub retain_step : ℕ → List Interval × ℕ → Interval → List Interval × ℕ
retain_step cap (retained, span) i =
    if ltb cap (span + width i) && ltb 0 (length retained)
    then (retained, span)
    else (retained ++ i ∷ [], span + width i)

-- `trim` on the coverage, for a cap on the span: `none` is the early return that drops nothing.
unfoldable pub trim_coverage : ℕ → List Interval → Interval → Option (List Interval)
unfolding covered_span retain_step
trim_coverage cap covered keep =
    if leb (covered_span covered) cap
    then none
    else some
        (sort starts_before (for_each (retain_step cap) ([], 0) (sort (nearer keep) covered)).0)

-- `watchedInterval`: the hull of the windows on screen, or null for none or a span over the cap.
-- The code's start value is the empty hull (+∞, -∞); here it is the first window.
unfoldable pub watched_from : Interval → List Interval → Interval
watched_from acc [] = acc
watched_from acc (w ∷ rest) = watched_from (hull acc w) rest

unfoldable pub watched_interval : ℕ → List Interval → Option Interval
unfolding watched_from
watched_interval cap [] = none
watched_interval cap (w ∷ rest) =
    let all_windows = watched_from w rest in
    if ltb cap (width all_windows) then none else some all_windows

-- ===== src/Intervals/Coverage.antt =====
-- Which instants a list of intervals covers, and what adding an interval does to them.
use frontdashboard.Prelude.{
  ℕ, ◌≤◌, ◌≡◌, ◌∙◌, Bool, ◌&&◌, ◌||◌, List, [], ◌∷◌, ◌++◌, ltb, leb, for_each, any, All, any-append,
  arith,
}
use frontdashboard.Prelude.Sort.{any-sort}
use frontdashboard.Intervals.{Interval, hull, merge_step, starts_before, add_interval}

-- The instant lies in the half-open interval.
abbrev pub holds : ℕ → Interval → Bool
holds t i = leb i.start t && ltb t i.end

abbrev pub covers : List Interval → ℕ → Bool
covers xs t = any (holds t) xs

-- No interval ends before it starts.
abbrev pub IsForward : Interval → Type 0
IsForward i = i.start ≤ i.end

hull-IsForward : (a b : Interval) → IsForward a → IsForward b → IsForward (hull a b)
hull-IsForward a b h k = ground arith

-- What the loop's state covers.
abbrev state_covers : List Interval × Interval → ℕ → Bool
state_covers (merged, current) t = covers merged t || holds t current

merge_step-IsForward :
    (s : List Interval × Interval) (i : Interval)
    → IsForward s.1
    → IsForward i
    → IsForward (merge_step s i).1
unfolding merge_step
merge_step-IsForward (merged, current) i h k = ground arith

merge_step-covers :
    (s : List Interval × Interval) (i : Interval) (t : ℕ)
    → IsForward s.1
    → IsForward i
    → state_covers (merge_step s i) t ≡ (state_covers s t || holds t i)
unfolding merge_step
merge_step-covers (merged, current) i t h k = ground (arith, any-append (holds t) merged (i ∷ []))

merge_loop-covers :
    (s : List Interval × Interval) (xs : List Interval) (t : ℕ)
    → IsForward s.1
    → All IsForward xs
    → state_covers (for_each merge_step s xs) t ≡ (state_covers s t || covers xs t)
merge_loop-covers s [] t h k = ground arith
merge_loop-covers s (i ∷ xs) t h (p, k) = ground (
  arith,
  merge_loop-covers (merge_step s i) xs t (merge_step-IsForward s i h p) k,
  merge_step-covers s i t h p,
)

-- Where no interval ends before it starts, adding one covers what was covered, the interval, and
-- nothing else.
pub covers-add_interval :
    (covered : List Interval) (next : Interval) (t : ℕ)
    → All IsForward covered
    → IsForward next
    → covers (add_interval covered next) t ≡ (covers covered t || holds t next)
unfolding add_interval
covers-add_interval covered next t h k =
    let s : List Interval × Interval = for_each merge_step ([], next) covered in
    any-sort starts_before (holds t) (s.0 ++ s.1 ∷ [])
    ∙ ground
        (arith, any-append (holds t) s.0 (s.1 ∷ []), merge_loop-covers ([], next) covered t k h)

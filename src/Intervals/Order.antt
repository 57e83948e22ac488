-- ===== src/Intervals/Order.antt =====
-- The invariant of a coverage: ascending intervals, none empty, none touching the next.
use frontdashboard.Prelude.{
  ◌<◌, ◌⊎◌, inl, inr, Bool, true, false, ◌||◌, List, [], ◌∷◌, ◌++◌, ltb, for_each, All, All-append,
  All_imp, Bool-cases, if◌then◌else◌, arith,
}
use frontdashboard.Prelude.Sort.{insert, sort, All-insert, All-sort}
use frontdashboard.Intervals.{Interval, hull, merge_step, starts_before, add_interval}
use frontdashboard.Intervals.Coverage.{IsForward}

abbrev pub IsProper : Interval → Type 0
IsProper i = i.start < i.end

-- The interval ends strictly before the first of the list begins.
abbrev pub IsBelow : Interval → List Interval → Type 0
IsBelow i [] = Unit
IsBelow i (j ∷ _) = i.end < j.start

abbrev pub IsSeparated : List Interval → Type 0
IsSeparated [] = Unit
IsSeparated (i ∷ rest) = IsProper i × IsBelow i rest × IsSeparated rest

-- Neither overlapping nor abutting, in either order.
abbrev pub Apart : Interval → Interval → Type 0
Apart a b = (a.end < b.start) ⊎ (b.end < a.start)

abbrev pub AllApart : List Interval → Type 0
AllApart [] = Unit
AllApart (i ∷ rest) = All (Apart i) rest × AllApart rest

pub Apart-sym : (a b : Interval) → Apart a b → Apart b a
Apart-sym a b h = ground arith

pub IsSeparated-IsForward : (xs : List Interval) → IsSeparated xs → All IsForward xs
IsSeparated-IsForward [] h = tt
IsSeparated-IsForward (i ∷ xs) (p, b, h) = (omega arith, IsSeparated-IsForward xs h)

pub IsSeparated-IsProper : (xs : List Interval) → IsSeparated xs → All IsProper xs
IsSeparated-IsProper [] h = tt
IsSeparated-IsProper (i ∷ xs) (p, b, h) = (p, IsSeparated-IsProper xs h)

-- What ends below the first of a separated list ends below each of them.
below_all :
    (i : Interval) (xs : List Interval)
    → IsBelow i xs
    → IsSeparated xs
    → All (λ j. i.end < j.start) xs
below_all i [] b h = tt
below_all i (j ∷ []) b h = (b, tt)
below_all i (j ∷ k ∷ xs) b (p, b', h) = (b, below_all i (k ∷ xs) (omega arith) h)

pub IsSeparated-AllApart : (xs : List Interval) → IsSeparated xs → AllApart xs
IsSeparated-AllApart [] h = tt
IsSeparated-AllApart (i ∷ xs) (p, b, h) =
    (All_imp xs (λ j q. inl q) (below_all i xs b h), IsSeparated-AllApart xs h)

pub AllApart-snoc :
    (xs : List Interval) (i : Interval) → All (Apart i) xs → AllApart xs → AllApart (xs ++ i ∷ [])
AllApart-snoc [] i h k = (tt, tt)
AllApart-snoc (x ∷ xs) i (p, h) (q, k) =
    (All-append (Apart x) xs (i ∷ []) q (Apart-sym i x p, tt), AllApart-snoc xs i h k)

module _ (leq : Interval → Interval → Bool) where
  AllApart-insert :
      (x : Interval) (xs : List Interval)
      → All (Apart x) xs
      → AllApart xs
      → AllApart (insert leq x xs)
  AllApart-insert x [] h k = (h, k)
  AllApart-insert x (y ∷ ys) (p, h) (q, k) =
      place (leq x y) (All-insert leq (Apart y) x ys (Apart-sym x y p) q, AllApart-insert x ys h k)
    where
      place :
          (b : Bool)
          → All (Apart y) (insert leq x ys) × AllApart (insert leq x ys)
          → AllApart (if b then x ∷ y ∷ ys else y ∷ insert leq x ys)
      place true r = ((p, h), (q, k))
      place false r = r

-- Sorting by start turns intervals that are apart from one another into a separated list.
IsSeparated-insert :
    (x : Interval) (xs : List Interval)
    → IsProper x
    → All (Apart x) xs
    → IsSeparated xs
    → IsSeparated (insert starts_before x xs)
IsSeparated-insert x [] p a h = (p, tt, tt)
IsSeparated-insert x (y ∷ []) p a h = ground arith
IsSeparated-insert x (y ∷ z ∷ ys) p (a, a') (q, b, h) =
    ground (arith, IsSeparated-insert x (z ∷ ys) p a' h)

pub IsSeparated-sort :
    (xs : List Interval) → All IsProper xs → AllApart xs → IsSeparated (sort starts_before xs)
IsSeparated-sort [] p a = tt
IsSeparated-sort (x ∷ xs) (p, ps) (a, as') =
    IsSeparated-insert x (sort starts_before xs) p (All-sort starts_before (Apart x) xs a)
      (IsSeparated-sort xs ps as')

pub AllApart-sort :
    (leq : Interval → Interval → Bool) (xs : List Interval) → AllApart xs → AllApart (sort leq xs)
AllApart-sort leq [] a = tt
AllApart-sort leq (x ∷ xs) (a, as') =
    AllApart-insert leq x (sort leq xs) (All-sort leq (Apart x) xs a) (AllApart-sort leq xs as')

-- The invariant of the loop of `addInterval`, with the intervals that it has still to visit.
record Merging (s : List Interval × Interval) (rest : List Interval) : Type 0 where
  proper : All IsProper s.0
  apart : AllApart s.0
  current_proper : IsProper s.1
  current_apart : All (λ m. Apart m s.1) s.0
  below : All (λ m. IsBelow m rest) s.0

hull-Apart :
    (current i : Interval) (ms : List Interval)
    → IsProper i
    → ¬ (i.end < current.start)
    → ¬ (current.end < i.start)
    → All IsProper ms
    → All (λ m. m.end < i.start) ms
    → All (λ m. Apart m current) ms
    → All (λ m. Apart m (hull current i)) ms
hull-Apart current i [] p h k q b a = tt
hull-Apart current i (m ∷ ms) p h k (q, qs) (b, bs) (a, as') =
    (ground arith, hull-Apart current i ms p h k qs bs as')

-- What ends below an interval ends below the one after it.
next-IsBelow :
    (i : Interval) (rest ms : List Interval)
    → IsProper i
    → IsBelow i rest
    → All (λ m. m.end < i.start) ms
    → All (λ m. IsBelow m rest) ms
next-IsBelow i rest [] p b h = tt
next-IsBelow i [] (m ∷ ms) p b (h, hs) = (tt, next-IsBelow i [] ms p b hs)
next-IsBelow i (j ∷ rest) (m ∷ ms) p b (h, hs) = (omega arith, next-IsBelow i (j ∷ rest) ms p b hs)

merge_step-Merging :
    (s : List Interval × Interval) (i : Interval) (rest : List Interval)
    → IsSeparated (i ∷ rest)
    → Merging s (i ∷ rest)
    → Merging (merge_step s i) rest
unfolding merge_step
merge_step-Merging (merged, current) i rest (p, b, h) m =
    elim (Bool-cases (ltb i.end current.start || ltb current.end i.start)) [
      | inl e ↦ rw e (record {
        proper = All-append IsProper merged (i ∷ []) m.proper (p, tt);
        apart = AllApart-snoc merged i (All_imp merged (λ j q. inr q) m.below) m.apart;
        current_proper = m.current_proper;
        current_apart =
            All-append (λ j. Apart j current) merged (i ∷ []) m.current_apart (ground arith, tt);
        below =
            All-append (λ j. IsBelow j rest) merged (i ∷ [])
              (next-IsBelow i rest merged p b m.below) (b, tt);
      })
      | inr e ↦ rw e (record {
        proper = m.proper;
        apart = m.apart;
        current_proper = let q = m.current_proper in ground arith;
        current_apart =
            hull-Apart current i merged p (ground arith) (ground arith) m.proper m.below
              m.current_apart;
        below = next-IsBelow i rest merged p b m.below;
      })
    ]

merge_loop-Merging :
    (s : List Interval × Interval) (xs : List Interval)
    → IsSeparated xs
    → Merging s xs
    → Merging (for_each merge_step s xs) []
merge_loop-Merging s [] h m = m
merge_loop-Merging s (i ∷ xs) h m =
    merge_loop-Merging (merge_step s i) xs h.2 (merge_step-Merging s i xs h m)

-- Adding a non-empty interval to a separated coverage gives a separated coverage.
pub add_interval-IsSeparated :
    (covered : List Interval) (next : Interval)
    → IsSeparated covered
    → IsProper next
    → IsSeparated (add_interval covered next)
unfolding add_interval
add_interval-IsSeparated covered next h p =
    let s : List Interval × Interval = for_each merge_step ([], next) covered in
    let m : Merging s [] =
      merge_loop-Merging ([], next) covered h
        (record { proper = tt; apart = tt; current_proper = p; current_apart = tt; below = tt }) in
    IsSeparated-sort (s.0 ++ s.1 ∷ [])
      (All-append IsProper s.0 (s.1 ∷ []) m.proper (m.current_proper, tt))
      (AllApart-snoc s.0 s.1 (All_imp s.0 (λ j a. Apart-sym j s.1 a) m.current_apart) m.apart)

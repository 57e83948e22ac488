-- ===== src/Intervals/TrimOrder.antt =====
-- The order of the coverage after a trim.
use frontdashboard.Prelude.{
  ℕ, ◌+◌, ◌≡◌, inl, inr, ◌&&◌, List, [], ◌∷◌, ◌++◌, ltb, for_each, All, All-append, length,
  Bool-cases, arith, some,
}
use frontdashboard.Prelude.Sort.{sort, All-sort}
use frontdashboard.Intervals.{Interval, width, nearer, starts_before, retain_step, trim_coverage}
use frontdashboard.Intervals.Order.{
  IsProper, Apart, AllApart, IsSeparated, IsSeparated-IsProper, IsSeparated-AllApart, AllApart-snoc,
  AllApart-sort, IsSeparated-sort, Apart-sym,
}

-- The invariant of the retention loop for the order of the result.
record Retaining (s : List Interval × ℕ) (rest : List Interval) : Type 0 where
  proper : All IsProper s.0
  apart : AllApart s.0
  rest_proper : All IsProper rest
  rest_apart : AllApart rest
  between : All (λ i. All (Apart i) s.0) rest

between_snoc :
    (ms rest : List Interval) (i : Interval)
    → All (Apart i) rest
    → All (λ j. All (Apart j) ms) rest
    → All (λ j. All (Apart j) (ms ++ i ∷ [])) rest
between_snoc ms [] i a h = tt
between_snoc ms (j ∷ rest) i (a, as') (h, hs) =
    (All-append (Apart j) ms (i ∷ []) h (Apart-sym i j a, tt), between_snoc ms rest i as' hs)

retain_step-Retaining :
    (cap : ℕ) (s : List Interval × ℕ) (i : Interval) (rest : List Interval)
    → Retaining s (i ∷ rest)
    → Retaining (retain_step cap s i) rest
unfolding retain_step
retain_step-Retaining cap (ms, span) i rest r =
    elim (Bool-cases (ltb cap (span + width i) && ltb 0 (length ms))) [
      | inl e ↦ rw e (record {
        proper = r.proper;
        apart = r.apart;
        rest_proper = r.rest_proper.1;
        rest_apart = r.rest_apart.1;
        between = r.between.1;
      })
      | inr e ↦ rw e (record {
        proper = All-append IsProper ms (i ∷ []) r.proper (r.rest_proper.0, tt);
        apart = AllApart-snoc ms i r.between.0 r.apart;
        rest_proper = r.rest_proper.1;
        rest_apart = r.rest_apart.1;
        between = between_snoc ms rest i r.rest_apart.0 r.between.1;
      })
    ]

retain_loop-Retaining :
    (cap : ℕ) (s : List Interval × ℕ) (xs : List Interval)
    → Retaining s xs
    → Retaining (for_each (retain_step cap) s xs) []
retain_loop-Retaining cap s [] r = r
retain_loop-Retaining cap s (i ∷ xs) r =
    retain_loop-Retaining cap (retain_step cap s i) xs (retain_step-Retaining cap s i xs r)

nothing_between : (xs : List Interval) → All (λ i. All (Apart i) []) xs
nothing_between [] = tt
nothing_between (x ∷ xs) = (tt, nothing_between xs)

-- A trim keeps the invariant of the coverage.
pub trim_coverage-IsSeparated :
    (cap : ℕ) (covered : List Interval) (keep : Interval) (kept : List Interval)
    → IsSeparated covered
    → trim_coverage cap covered keep ≡ some kept
    → IsSeparated kept
unfolding trim_coverage
trim_coverage-IsSeparated cap covered keep kept h e =
    let sorted : List Interval = sort (nearer keep) covered in
    let r : List Interval × ℕ = for_each (retain_step cap) ([], 0) sorted in
    let done : Retaining r [] =
      retain_loop-Retaining cap ([], 0) sorted
        (record {
          proper = tt;
          apart = tt;
          rest_proper = All-sort (nearer keep) IsProper covered (IsSeparated-IsProper covered h);
          rest_apart = AllApart-sort (nearer keep) covered (IsSeparated-AllApart covered h);
          between = nothing_between sorted;
        }) in
    let same : sort starts_before r.0 ≡ kept = ground arith in
    rw same at (IsSeparated-sort r.0 done.proper done.apart)

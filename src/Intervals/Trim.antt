-- ===== src/Intervals/Trim.antt =====
-- `trim` keeps the coverage under the cap, and never drops the interval just fetched.
use frontdashboard.Prelude.{
  ℕ, ◌≤◌, ◌≡◌, ◌⊎◌, refl, inl, inr, Bool, true, ◌&&◌, ◌||◌, List, [], ◌∷◌, leb, for_each, any, All,
  any-append, length, Bool-cases, arith, subst, some,
}
use frontdashboard.Prelude.Sort.{sort, any-sort, All-sort, insert}
use frontdashboard.Intervals.{
  Interval, nearer, starts_before, covered_span, retain_step, trim_coverage,
}
use frontdashboard.Intervals.Coverage.{holds, covers}
use frontdashboard.Intervals.Order.{IsProper, Apart, AllApart, IsSeparated, IsSeparated-AllApart}

-- The invariant of the retention loop: the running total is the span, and it exceeds the cap only
-- where a single interval is kept.
abbrev IsCapped : ℕ → List Interval × ℕ → Type 0
IsCapped cap (retained, span) =
    (span ≡ covered_span retained) × ((span ≤ cap) ⊎ (length retained ≤ 1))

-- The retention loop only selects, and never takes back what it has kept.
retain_loop_selects :
    (cap : ℕ) (p : Interval → Bool) (s : List Interval × ℕ) (xs : List Interval)
    → any p (for_each (retain_step cap) s xs).0 ≡ true
    → (any p s.0 || any p xs) ≡ true
unfolding retain_step
retain_loop_selects cap p s [] e = ground arith
retain_loop_selects cap p (retained, span) (i ∷ xs) e = ground (
  arith,
  retain_loop_selects cap p (retain_step cap (retained, span) i) xs e,
  any-append p retained (i ∷ []),
)

retain_loop_keeps :
    (cap : ℕ) (p : Interval → Bool) (s : List Interval × ℕ) (xs : List Interval)
    → any p s.0 ≡ true
    → any p (for_each (retain_step cap) s xs).0 ≡ true
unfolding retain_step
retain_loop_keeps cap p s [] e = e
retain_loop_keeps cap p (retained, span) (i ∷ xs) e =
    retain_loop_keeps cap p (retain_step cap (retained, span) i) xs
      (ground (arith, any-append p retained (i ∷ [])))

-- A trim covers nothing that was not covered.
pub trim_coverage-covers :
    (cap : ℕ) (covered : List Interval) (keep : Interval) (kept : List Interval) (t : ℕ)
    → trim_coverage cap covered keep ≡ some kept
    → covers kept t ≡ true
    → covers covered t ≡ true
unfolding trim_coverage
trim_coverage-covers cap covered keep kept t e h =
    let sorted : List Interval = sort (nearer keep) covered in
    let r : List Interval × ℕ = for_each (retain_step cap) ([], 0) sorted in
    ground (
      arith,
      any-sort starts_before (holds t) r.0,
      any-sort (nearer keep) (holds t) covered,
      retain_loop_selects cap (holds t) ([], 0) sorted,
    )

-- The interval contains the other one.
abbrev pub contains : Interval → Interval → Bool
contains keep i = leb i.start keep.start && leb keep.end i.end

insert_first :
    (keep x : Interval) (ys : List Interval)
    → IsProper keep
    → contains keep x ≡ true
    → insert (nearer keep) x ys ≡ x ∷ ys
insert_first keep x [] p h = refl
insert_first keep x (y ∷ ys) p h = ground arith

insert_later :
    (keep x i : Interval) (ys : List Interval)
    → IsProper keep
    → contains keep i ≡ true
    → Apart x i
    → insert (nearer keep) x (i ∷ ys) ≡ i ∷ insert (nearer keep) x ys
insert_later keep x i ys p h a = ground arith

-- The interval that contains the one to keep is the nearest, and comes first.
nearest_first :
    (keep : Interval) (xs : List Interval)
    → IsProper keep
    → AllApart xs
    → any (contains keep) xs ≡ true
    → (i : Interval) × (rest : List Interval) × (sort (nearer keep) xs ≡ i ∷ rest)
      × (contains keep i ≡ true)
nearest_first keep [] p a e = cc
nearest_first keep (x ∷ xs) p (a, as') e = elim (Bool-cases (contains keep x)) [
  | inl here ↦ (x, sort (nearer keep) xs, insert_first keep x _ p here, here)
  | inr there ↦
      let (i, rest, same, inside) = nearest_first keep xs p as' (ground arith) in
      let apart : All (Apart x) (i ∷ rest) =
        subst (All (Apart x)) same (All-sort (nearer keep) (Apart x) xs a) in
      (
        i,
        insert (nearer keep) x rest,
        rw same (insert_later keep x i rest p inside apart.0),
        inside,
      )
]

-- Where an interval of a separated coverage contains the non-empty one to keep, some interval still
-- contains it after the trim.
pub trim_coverage-contains :
    (cap : ℕ) (covered : List Interval) (keep : Interval) (kept : List Interval)
    → IsSeparated covered
    → IsProper keep
    → any (contains keep) covered ≡ true
    → trim_coverage cap covered keep ≡ some kept
    → any (contains keep) kept ≡ true
unfolding trim_coverage retain_step
trim_coverage-contains cap covered keep kept h p c e =
    let sorted : List Interval = sort (nearer keep) covered in
    let r : List Interval × ℕ = for_each (retain_step cap) ([], 0) sorted in
    let (i, rest, same, inside) = nearest_first keep covered p (IsSeparated-AllApart covered h) c in
    let first : any (contains keep) r.0 ≡ true =
      rw same
        (retain_loop_keeps cap (contains keep) (retain_step cap ([], 0) i) rest (ground arith)) in
    ground (arith, first, any-sort starts_before (contains keep) r.0)

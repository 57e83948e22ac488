-- ===== src/Intervals/Gaps.antt =====
-- `gapsIn` finds exactly what of a window is not covered.
use frontdashboard.Prelude.{
  ℕ, ◌≤◌, ◌<◌, ◌≡◌, refl, inl, inr, Bool-cases, leb→le, leb-false→lt, Bool, true, false, not, ◌&&◌,
  ◌||◌, List, [], ◌∷◌, ◌++◌, ltb, leb, for_each, All, All-append, min, max, any-append,
  if◌then◌else◌, arith,
}
use frontdashboard.Intervals.{Interval, interval, last_gap, gaps_from, gaps_in, add_interval}
use frontdashboard.Intervals.Coverage.{holds, covers, covers-add_interval}
use frontdashboard.Intervals.Order.{
  IsProper, IsBelow, IsSeparated, IsSeparated-IsForward, add_interval-IsSeparated,
}

-- A separated coverage covers nothing before its first interval.
covers_before :
    (t : ℕ) (i : Interval) (xs : List Interval)
    → IsSeparated (i ∷ xs)
    → t < i.start
    → covers (i ∷ xs) t ≡ false
covers_before t i [] h l = ground arith
covers_before t i (j ∷ xs) h l = ground (arith, covers_before t j xs h.2)

-- Nor up to the end of an interval below it.
covers_below :
    (t : ℕ) (i : Interval) (xs : List Interval)
    → IsBelow i xs
    → IsSeparated xs
    → t ≤ i.end
    → covers xs t ≡ false
covers_below t i [] b h l = refl
covers_below t i (j ∷ xs) b h l = covers_before t j xs h (omega arith)

-- One round of the loop, for a tail whose coverage is the Boolean `later`.
gap_round :
    (i w : Interval) (cursor t : ℕ) (later : Bool) (further : List Interval)
    → IsProper i
    → (t ≤ i.end → later ≡ false)
    → cursor < i.end
    → i.start < w.end
    → covers further t ≡ (leb (max cursor i.end) t && ltb t w.end && not later)
    → covers
        ((if ltb cursor i.start then interval cursor (min i.start w.end) ∷ [] else []) ++ further)
        t
      ≡ (leb cursor t && ltb t w.end && not (holds t i || later))
gap_round i w cursor t later further p b l k e =
    ground (arith, b, any-append (holds t) (interval cursor (min i.start w.end) ∷ []) further)

-- The `break` at an interval behind the window.
gap_past :
    (i w : Interval) (cursor t : ℕ) (later : Bool)
    → IsProper i
    → (t ≤ i.end → later ≡ false)
    → w.end ≤ i.start
    → covers (last_gap w cursor) t ≡ (leb cursor t && ltb t w.end && not (holds t i || later))
gap_past i w cursor t later p b k = ground (arith, b)

-- The `break` once the cursor has passed the window.
gap_over :
    (w : Interval) (cursor t : ℕ) (later : Bool)
    → w.end ≤ cursor
    → covers (last_gap w cursor) t ≡ (leb cursor t && ltb t w.end && not later)
gap_over w cursor t later h = ground arith

gaps_from-covers :
    (w : Interval) (cursor : ℕ) (xs : List Interval) (t : ℕ)
    → IsSeparated xs
    → covers (gaps_from w cursor xs) t ≡ (leb cursor t && ltb t w.end && not (covers xs t))
unfolding gaps_from
gaps_from-covers w cursor [] t h = ground arith
gaps_from-covers w cursor (i ∷ xs) t (p, b, h) =
    let below = covers_below t i xs b h in
    elim (Bool-cases (leb i.end cursor)) [
      | inl skip ↦ rw skip (ground (arith, gaps_from-covers w cursor xs t h))
      | inr stay ↦ elim (Bool-cases (leb w.end i.start)) [
        | inl past ↦ rw (stay, past) (gap_past i w cursor t (covers xs t) p below (leb→le _ _ past))
        | inr inside ↦ elim (Bool-cases (leb w.end (max cursor i.end))) [
          | inl over ↦
              rw (stay, inside, over)
                (gap_round i w cursor t (covers xs t) (last_gap w (max cursor i.end)) p below
                  (leb-false→lt _ _ stay) (leb-false→lt _ _ inside)
                  (gap_over w (max cursor i.end) t (covers xs t) (leb→le _ _ over)))
          | inr more ↦
              rw (stay, inside, more)
                (gap_round i w cursor t (covers xs t) (gaps_from w (max cursor i.end) xs) p below
                  (leb-false→lt _ _ stay) (leb-false→lt _ _ inside)
                  (gaps_from-covers w (max cursor i.end) xs t h))
        ]
      ]
    ]

-- Over a separated coverage, an instant lies in a gap exactly if it lies in the window and nothing
-- covers it.
pub covers-gaps_in :
    (covered : List Interval) (wanted : Interval) (t : ℕ)
    → IsSeparated covered
    → covers (gaps_in covered wanted) t ≡ (holds t wanted && not (covers covered t))
unfolding gaps_in
covers-gaps_in covered wanted t h = ground (arith, gaps_from-covers wanted wanted.start covered t h)

gap-IsProper :
    (i w : Interval) (cursor : ℕ)
    → i.start < w.end
    → All IsProper (if ltb cursor i.start then interval cursor (min i.start w.end) ∷ [] else [])
gap-IsProper i w cursor h = ground arith

last_gap-IsProper : (w : Interval) (cursor : ℕ) → All IsProper (last_gap w cursor)
last_gap-IsProper w cursor = ground arith

gaps_from-IsProper :
    (w : Interval) (cursor : ℕ) (xs : List Interval) → All IsProper (gaps_from w cursor xs)
unfolding gaps_from
gaps_from-IsProper w cursor [] = last_gap-IsProper w cursor
gaps_from-IsProper w cursor (i ∷ xs) = elim (Bool-cases (leb i.end cursor)) [
  | inl skip ↦ rw skip (gaps_from-IsProper w cursor xs)
  | inr stay ↦ elim (Bool-cases (leb w.end i.start)) [
    | inl past ↦ rw (stay, past) (last_gap-IsProper w cursor)
    | inr inside ↦ elim (Bool-cases (leb w.end (max cursor i.end))) [
      | inl over ↦
          rw (stay, inside, over)
            (All-append IsProper _ _ (gap-IsProper i w cursor (leb-false→lt _ _ inside))
              (last_gap-IsProper w (max cursor i.end)))
      | inr more ↦
          rw (stay, inside, more)
            (All-append IsProper _ _ (gap-IsProper i w cursor (leb-false→lt _ _ inside))
              (gaps_from-IsProper w (max cursor i.end) xs))
    ]
  ]
]

pub gaps_in-IsProper :
    (covered : List Interval) (wanted : Interval) → All IsProper (gaps_in covered wanted)
unfolding gaps_in
gaps_in-IsProper covered wanted = gaps_from-IsProper wanted wanted.start covered

-- The coverage after each gap has been added.
abbrev pub add_all : List Interval → List Interval → List Interval
add_all covered gaps = for_each add_interval covered gaps

pub add_all-IsSeparated :
    (covered gaps : List Interval)
    → IsSeparated covered
    → All IsProper gaps
    → IsSeparated (add_all covered gaps)
add_all-IsSeparated covered [] h p = h
add_all-IsSeparated covered (g ∷ gs) h (p, ps) =
    add_all-IsSeparated (add_interval covered g) gs (add_interval-IsSeparated covered g h p) ps

covers-add_all :
    (covered gaps : List Interval) (t : ℕ)
    → IsSeparated covered
    → All IsProper gaps
    → covers (add_all covered gaps) t ≡ (covers covered t || covers gaps t)
covers-add_all covered [] t h p = ground arith
covers-add_all covered (g ∷ gs) t h (p, ps) = ground (
  arith,
  covers-add_all (add_interval covered g) gs t (add_interval-IsSeparated covered g h p) ps,
  covers-add_interval covered g t (IsSeparated-IsForward covered h) (omega arith),
)

-- Over a separated coverage, loading every gap covers the old coverage and the window, and nothing
-- else.
pub covers-add_gaps :
    (covered : List Interval) (wanted : Interval) (t : ℕ)
    → IsSeparated covered
    → covers (add_all covered (gaps_in covered wanted)) t ≡ (covers covered t || holds t wanted)
covers-add_gaps covered wanted t h = ground (
  arith,
  covers-add_all covered (gaps_in covered wanted) t h (gaps_in-IsProper covered wanted),
  covers-gaps_in covered wanted t h,
)

-- Intervals that cover no instant and are not empty are none.
nothing_covered : (gs : List Interval) → All IsProper gs → ((t : ℕ) → covers gs t ≡ false) → gs ≡ []
nothing_covered [] p h = refl
nothing_covered (g ∷ gs) (p, ps) h = absurd (ground (arith, h g.start))

-- A window that the coverage contains has no gap.
pub gaps_in_of_covered :
    (covered : List Interval) (wanted : Interval)
    → IsSeparated covered
    → ((t : ℕ) → holds t wanted ≡ true → covers covered t ≡ true)
    → gaps_in covered wanted ≡ []
gaps_in_of_covered covered wanted h c =
    nothing_covered (gaps_in covered wanted) (gaps_in-IsProper covered wanted)
      λ t. ground (arith, covers-gaps_in covered wanted t h, c t)

-- Once the gaps of a window in a separated coverage are loaded, it has no gap left: asking again
-- costs no request.
pub gaps_in-add_gaps :
    (covered : List Interval) (wanted : Interval)
    → IsSeparated covered
    → gaps_in (add_all covered (gaps_in covered wanted)) wanted ≡ []
gaps_in-add_gaps covered wanted h =
    gaps_in_of_covered (add_all covered (gaps_in covered wanted)) wanted
      (add_all-IsSeparated covered (gaps_in covered wanted) h (gaps_in-IsProper covered wanted))
      λ t e. ground (arith, covers-add_gaps covered wanted t h)

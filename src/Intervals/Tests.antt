-- ===== src/Intervals/Tests.antt =====
-- Runs of the interval arithmetic, and its theorems at concrete inputs.
use frontdashboard.Prelude.{◌≡◌, refl, some, none, List, [], ◌∷◌}
use frontdashboard.Intervals.{
  Interval, interval, overlaps, add_interval, gaps_in, covered_span, trim_coverage,
  watched_interval,
}

program : Unit {0}
unfolding overlaps add_interval gaps_in covered_span trim_coverage watched_interval
program = tt

abbrev two : List Interval
two = interval 10 20 ∷ interval 40 50 ∷ []

runs :
    (add_interval two (interval 20 30) ≡ interval 10 30 ∷ interval 40 50 ∷ [])
    × (add_interval two (interval 15 45) ≡ interval 10 50 ∷ [])
    × (gaps_in two (interval 0 45) ≡ interval 0 10 ∷ interval 20 40 ∷ [])
    × (gaps_in two (interval 12 18) ≡ [])
    × (trim_coverage 15 two (interval 42 44) ≡ some (interval 40 50 ∷ []))
    × (trim_coverage 20 two (interval 42 44) ≡ none)
    × (watched_interval 100 two ≡ some (interval 10 50))
    × (watched_interval 30 two ≡ none)
unfolding program
runs = (refl, refl, refl, refl, refl, refl, refl, refl)

-- A trim after the first of two gaps can drop coverage that the window of the load still needs:
-- the cap is 40, the window 0 to 35; once 0 to 10 is in, the far interval 30 to 65 is dropped, and
-- the second gap does not bring it back.
dropped :
    (gaps_in (interval 10 20 ∷ interval 30 65 ∷ []) (interval 0 35)
      ≡ interval 0 10 ∷ interval 20 30 ∷ [])
    × (trim_coverage 40
          (add_interval (interval 10 20 ∷ interval 30 65 ∷ []) (interval 0 10))
          (interval 0 10)
        ≡ some (interval 0 20 ∷ []))
    × (gaps_in (add_interval (interval 0 20 ∷ []) (interval 20 30)) (interval 0 35)
        ≡ interval 30 35 ∷ [])
unfolding program
dropped = (refl, refl, refl)

-- ===== src/Query/Tests.antt =====
-- Runs of a cache of two scopes, and the theorems of the cache at concrete inputs.
use frontdashboard.Prelude.{
  ℕ, ◌≡◌, ◌≤◌, ◌⊎◌, refl, String, true, false, none, some, [], ◌∷◌, map, length, any, all, All, inl,
  str_eq, ◌&&◌, arith,
}
use frontdashboard.Prelude.Dict.{get}
use frontdashboard.Query.{
  QueryState, QueryEntry, Cache, Request, new_entry, is_pinned, evict_cold_entries, begin_fetch,
  complete_fetch, invalidate_entry, invalidate_where, seed, mount, subscribe,
}
use frontdashboard.Query.Eviction.{evict_cold_entries_lem}
use frontdashboard.Query.Coherence.{IsCoherent}
use frontdashboard.Query.Interleaving.{
  empty_cache, Reach, here, next, fetched, subscribed, responded, Reach-IsCoherent,
}
use frontdashboard.Query.Staleness.{will_refresh, invalidate_where-refreshes}
use frontdashboard.Query.InFlight.{stale_in_flight_lem}

abbrev key_of : String → String
key_of scope = scope

abbrev empty : Cache String ℕ
empty = empty_cache

-- A cache of two scopes at most; a component reads the first.
abbrev watched : Cache String ℕ
watched = (subscribe key_of 2 "a" empty).0

abbrev asked : Cache String ℕ
asked = (begin_fetch key_of 2 "a" none watched).0

abbrev request : Request String
request = record { entry = 0; scope = "a"; request = 1 }

abbrev answered : Cache String ℕ
answered = complete_fetch request (inl 7) asked

abbrev crowded : Cache String ℕ
crowded = seed key_of 2 "d" 4 (seed key_of 2 "c" 3 (seed key_of 2 "b" 2 answered))

keys_of_crowded : map (λ e. e.0) crowded.entries ≡ "a" ∷ "d" ∷ []
unfolding seed complete_fetch begin_fetch subscribe
keys_of_crowded = refl

asked_once : (begin_fetch key_of 2 "a" none asked).1 ≡ none
unfolding begin_fetch subscribe
asked_once = refl

mounted_fresh : (mount key_of 2 "a" answered).1 ≡ none
unfolding mount complete_fetch begin_fetch subscribe
mounted_fresh = refl

abbrev shown : QueryState ℕ
shown = record { data_ = some 7; loading = false; error = none }

-- The scope "a", read by a component, with a request in flight.
abbrev busy : QueryEntry String ℕ
busy = record (new_entry 0 "a") { listeners = 1; state = shown; in_flight = some 1 }

abbrev full : Cache String ℕ
full = record { entries = ("a", busy) ∷ []; next = 2 }

full-IsCoherent : IsCoherent key_of full
full-IsCoherent = record { dict = refl; good = ((refl, omega arith, λ l. refl), tt) }

evict_cold_entries_lem_example :
    (any
        (λ e. is_pinned e.1 && str_eq e.0 "a")
        (evict_cold_entries 1 (("a", busy) ∷ ("b", new_entry 3 "b") ∷ []))
      ≡ true)
    × ((length (evict_cold_entries 1 (("a", busy) ∷ ("b", new_entry 3 "b") ∷ [])) ≤ 1)
        ⊎ (all
              (λ e. is_pinned e.1)
              (evict_cold_entries 1 (("a", busy) ∷ ("b", new_entry 3 "b") ∷ []))
            ≡ true))
evict_cold_entries_lem_example =
    evict_cold_entries_lem 1 (λ e. str_eq e.0 "a") (("a", busy) ∷ ("b", new_entry 3 "b") ∷ [])

abbrev history : Reach key_of 2 answered
history = next (next (next here (subscribed "a")) (fetched "a" none)) (responded request (inl 7))

Reach-IsCoherent_example : IsCoherent key_of answered
Reach-IsCoherent_example = Reach-IsCoherent key_of 2 history

invalidate_where-refreshes_example :
    All
      (λ e. str_eq e.1.scope "a" ≡ true → will_refresh e.1 ≡ true)
      (invalidate_where key_of 2 (λ s. str_eq s "a") true none full).0.entries
invalidate_where-refreshes_example =
    invalidate_where-refreshes key_of 2 (λ s. str_eq s "a") true none full full-IsCoherent

stale_in_flight_lem_example :
    ((invalidate_entry key_of 2 (λ s. true) true none (full, []) "a").1 ≡ [])
    × (get "a"
          (complete_fetch
            (record { entry = 0; scope = "a"; request = 1 })
            (inl 8)
            (invalidate_entry key_of 2 (λ s. true) true none (full, []) "a").0).entries
        ≡ some (record busy {
          state = record { data_ = some 8; loading = false; error = none };
          stale = true;
          in_flight = none;
        }))
stale_in_flight_lem_example =
    stale_in_flight_lem key_of 2 (λ s. true) "a" busy 1 8 full refl refl refl refl

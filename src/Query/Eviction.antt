-- ===== src/Query/Eviction.antt =====
-- What leaves the cache when it is over its cap.
use frontdashboard.Prelude.{
  ℕ, suc, ◌-◌, ◌+◌, ◌≤◌, ◌<◌, ◌≡◌, refl, String, Bool, true, false, not, ◌&&◌, ltb, Option, none,
  some, List, [], ◌∷◌, ◌++◌, if◌then◌else◌, length, any, all, All, ◌⊎◌, inl, inr, arith,
  length-append, Bool-cases,
}
use frontdashboard.Prelude.Dict.{get}
use frontdashboard.Query.{
  QueryEntry, Cache, Request, new_entry, touch, is_pinned, evict_from, evict_cold_entries, on_entry,
  ensure_entry, begin_fetch, complete_fetch, settle, launch,
}

module _ {ℓ} {S A : Type ℓ} where
  any-evict_from :
      (cap size : ℕ) (p : String × QueryEntry S A → Bool) (es : List (String × QueryEntry S A))
      → any (λ e. is_pinned e.1 && p e) (evict_from cap size es)
        ≡ any (λ e. is_pinned e.1 && p e) es
  unfolding evict_from
  any-evict_from cap size p [] = refl
  any-evict_from cap size p (e ∷ es) =
      let drops = ltb cap size && not (is_pinned e.1) in
      ground (arith, any-evict_from cap (if drops then size - 1 else size) p es)

  length-evict_from :
      (cap size : ℕ) (es : List (String × QueryEntry S A))
      → length (evict_from cap size es) ≤ length es
  unfolding evict_from
  length-evict_from cap size [] = omega arith
  length-evict_from cap size (e ∷ es) =
      let drops = ltb cap size && not (is_pinned e.1) in
      ground (arith, length-evict_from cap (if drops then size - 1 else size) es)

  evicts_enough :
      (cap k size : ℕ) (es : List (String × QueryEntry S A))
      → k + length es ≡ size
      → (k + length (evict_from cap size es) ≤ cap)
        ⊎ (all (λ e. is_pinned e.1) (evict_from cap size es) ≡ true)
  unfolding evict_from
  evicts_enough cap k size [] h = inr refl
  evicts_enough cap k size (e ∷ es) h = elim (Bool-cases (ltb cap size && not (is_pinned e.1))) [
    | inl d ↦ rw d (evicts_enough cap k (size - 1) es (omega arith))
    | inr d ↦ rw d (
        ground
          (arith, evicts_enough cap (suc k) size es (omega arith), length-evict_from cap size es))
  ]

  -- An eviction keeps every entry that a component reads or that waits for a response, and leaves
  -- the cache at its cap, unless each entry that is left is one of these.
  pub evict_cold_entries_lem :
      (cap : ℕ) (p : String × QueryEntry S A → Bool) (es : List (String × QueryEntry S A))
      → (any (λ e. is_pinned e.1 && p e) (evict_cold_entries cap es)
          ≡ any (λ e. is_pinned e.1 && p e) es)
        × ((length (evict_cold_entries cap es) ≤ cap)
            ⊎ (all (λ e. is_pinned e.1) (evict_cold_entries cap es) ≡ true))
  evict_cold_entries_lem cap p es = (
    any-evict_from cap (length es) p es,
    ground (arith, evicts_enough cap 0 (length es) es (omega arith)),
  )

  -- Over a full cache of pinned entries, only an unpinned entry at the end is dropped.
  evict-last :
      (cap size : ℕ) (es : List (String × QueryEntry S A)) (e : String × QueryEntry S A)
      → cap < size
      → all (λ x. is_pinned x.1) es ≡ true
      → is_pinned e.1 ≡ false
      → evict_from cap size (es ++ e ∷ []) ≡ es
  unfolding evict_from
  evict-last cap size [] e o h p = ground arith
  evict-last cap size (x ∷ es) e o h p = ground (arith, evict-last cap size es e o (ground arith) p)

  touch-absent :
      (key : String) (es : List (String × QueryEntry S A)) → get key es ≡ none → touch key es ≡ es
  touch-absent key es h = rw (touch, h) refl

  on_entry-absent :
      (n : ℕ) (change : QueryEntry S A → QueryEntry S A) (es : List (String × QueryEntry S A))
      → All (λ e. e.1.number < n) es
      → on_entry n change es ≡ es
  on_entry-absent n change [] h = refl
  on_entry-absent n change ((k, e) ∷ es) (l, h) = ground (arith, on_entry-absent n change es h)

module _ {ℓ} {S A : Type ℓ} (get_key : S → String) (cap : ℕ) where
  ensure-full :
      (scope : S) (c : Cache S A)
      → get (get_key scope) c.entries ≡ none
      → cap ≤ length c.entries
      → all (λ e. is_pinned e.1) c.entries ≡ true
      → ensure_entry get_key cap scope c
        ≡ (record { entries = c.entries; next = suc c.next }, new_entry c.next scope)
  unfolding ensure_entry
  ensure-full scope c h full pinned =
      let e : String × QueryEntry S A = (get_key scope, new_entry c.next scope) in
      let dropped : evict_cold_entries cap (c.entries ++ e ∷ []) ≡ c.entries =
        evict-last cap (length (c.entries ++ e ∷ [])) c.entries e
          (omega (arith, length-append c.entries (e ∷ []), full)) pinned refl in
      rw (ensure_entry, h) (rw dropped refl)

  fetch-full :
      (scope : S) (background : Option Bool) (c : Cache S A)
      → get (get_key scope) c.entries ≡ none
      → cap ≤ length c.entries
      → all (λ e. is_pinned e.1) c.entries ≡ true
      → All (λ e. e.1.number < c.next) c.entries
      → begin_fetch get_key cap scope background c ≡ (
        record { entries = c.entries; next = suc (suc c.next) },
        some (record { entry = c.next; scope = scope; request = suc c.next }),
      )
  unfolding begin_fetch
  fetch-full scope background c h full pinned fresh =
      rw (begin_fetch, ensure-full scope c h full pinned)
        (rw (touch-absent (get_key scope) c.entries h)
          (rw (on_entry-absent c.next (launch background (suc c.next)) c.entries fresh) refl))

  -- Where the cache is full and each of its entries is pinned, a new scope is evicted as it enters:
  -- its request is sent, and the response is lost.
  pub full_cache_lem :
      (scope : S) (background : Option Bool) (result : A ⊎ String) (c : Cache S A)
      → get (get_key scope) c.entries ≡ none
      → cap ≤ length c.entries
      → all (λ e. is_pinned e.1) c.entries ≡ true
      → All (λ e. e.1.number < c.next) c.entries
      → (r : Request S) × ((begin_fetch get_key cap scope background c).1 ≡ some r)
        × ((begin_fetch get_key cap scope background c).0.entries ≡ c.entries)
        × ((complete_fetch r result (begin_fetch get_key cap scope background c).0).entries
            ≡ c.entries)
  unfolding complete_fetch
  full_cache_lem scope background result c h full pinned fresh = (
    record { entry = c.next; scope = scope; request = suc c.next },
    rw (fetch-full scope background c h full pinned fresh) refl,
    rw (fetch-full scope background c h full pinned fresh) refl,
    rw (fetch-full scope background c h full pinned fresh)
        (on_entry-absent c.next (settle (suc c.next) result) c.entries fresh),
  )

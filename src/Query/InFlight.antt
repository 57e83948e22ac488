-- ===== src/Query/InFlight.antt =====
-- An invalidation while a request is in flight.
use frontdashboard.Prelude.{
  ℕ, ◌≡◌, refl, ap, String, Bool, true, false, ◌==◌, Option, none, some, List, [], ◌∷◌, ◌++◌,
  if◌then◌else◌, is_some, arith, Bool-cases, inl, inr, str_eq_refl,
}
use frontdashboard.Prelude.Dict.{get, set, delete, get-set}
use frontdashboard.Query.{
  QueryEntry, Cache, Request, touch, on_entry, ensure_entry, settle, begin_fetch, complete_fetch,
  invalidate_entry, opt_is,
}
use frontdashboard.Query.Staleness.{get-on_entry}

module _ {ℓ} {S A : Type ℓ} where
  get-snoc :
      (k : String) (e : QueryEntry S A) (es : List (String × QueryEntry S A))
      → get k (delete k es ++ (k, e) ∷ []) ≡ some e
  get-snoc k e [] = ground (arith, str_eq_refl k)
  get-snoc k e ((j, d) ∷ es) = ground (arith, get-snoc k e es)

  get-touch :
      (k : String) (e : QueryEntry S A) (es : List (String × QueryEntry S A))
      → get k es ≡ some e
      → get k (touch k es) ≡ some e
  get-touch k e es h = rw (touch, h) (get-snoc k e es)

module _ {ℓ} {S A : Type ℓ} (get_key : S → String) (cap : ℕ) where
  -- A fetch of a scope whose request is in flight shares it.
  fetch-shared :
      (entry : QueryEntry S A) (request : ℕ) (background : Option Bool) (c : Cache S A)
      → get (get_key entry.scope) c.entries ≡ some entry
      → entry.in_flight ≡ some request
      → ((begin_fetch get_key cap entry.scope background c).1 ≡ none)
        × (get (get_key entry.scope) (begin_fetch get_key cap entry.scope background c).0.entries
            ≡ some entry)
  unfolding begin_fetch ensure_entry
  fetch-shared entry request background c h q =
      let key = get_key entry.scope in
      let busy : is_some entry.in_flight ≡ true = ap is_some q in
      let found : get key (set key entry c.entries) ≡ some entry =
        ground (arith, get-set key key entry c.entries, str_eq_refl key) in
      rw (begin_fetch, ensure_entry, h)
        (rw busy (refl, get-touch key entry (set key entry c.entries) found))

  invalidate-shared :
      (holds : S → Bool) (key : String) (entry : QueryEntry S A) (request : ℕ) (c : Cache S A)
      → get key c.entries ≡ some entry
      → get_key entry.scope ≡ key
      → holds entry.scope ≡ true
      → entry.in_flight ≡ some request
      → let r = invalidate_entry get_key cap holds true none (c, []) key in
        (r.1 ≡ []) × (get key r.0.entries ≡ some (record entry { stale = true }))
  invalidate-shared holds key entry request c h k p q =
      let mark : QueryEntry S A → QueryEntry S A = λ e. record e { stale = true } in
      let marked = record c { entries = on_entry entry.number mark c.entries } in
      let found : get (get_key entry.scope) marked.entries ≡ some (mark entry) =
        rw k (get-on_entry key entry mark c.entries h) in
      let shared =
        fetch-shared (mark entry) request (some (is_some entry.state.data_)) marked found q in
      elim (Bool-cases (entry.listeners == 0)) [
        | inl o ↦ rw (invalidate_entry, h, p, o) (refl, get-on_entry key entry mark c.entries h)
        | inr o ↦ rw (invalidate_entry, h, p, o) (rw shared.0 refl, rw (← k) shared.1)
      ]

  -- An invalidation of a scope whose request is in flight sends nothing. When the response comes, the
  -- entry shows its data, which was read before the change, and stays marked as stale; no request for
  -- it is in flight then.
  pub stale_in_flight_lem :
      (holds : S → Bool) (key : String) (entry : QueryEntry S A) (request : ℕ) (data_ : A)
      (c : Cache S A)
      → get key c.entries ≡ some entry
      → get_key entry.scope ≡ key
      → holds entry.scope ≡ true
      → entry.in_flight ≡ some request
      → let r = invalidate_entry get_key cap holds true none (c, []) key in
        let sent : Request S = record {
          entry = entry.number;
          scope = entry.scope;
          request = request;
        } in
        (r.1 ≡ [])
        × (get key (complete_fetch sent (inl data_) r.0).entries
            ≡ some (record entry {
              state = record { data_ = some data_; loading = false; error = none };
              stale = true;
              in_flight = none;
            }))
  unfolding complete_fetch
  stale_in_flight_lem holds key entry request data_ c h k p q =
      let shared = invalidate-shared holds key entry request c h k p q in
      let marked : QueryEntry S A = record entry { stale = true } in
      let settled = get-on_entry key marked (settle request (inl data_)) _ shared.1 in
      let gone : (if opt_is request entry.in_flight then none else entry.in_flight) ≡ none =
        rw q (ground arith) in
      (shared.0, rw gone at settled)

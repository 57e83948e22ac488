-- ===== src/Query/Staleness.antt =====
-- Invalidations, and requests that were in flight when they came.
use frontdashboard.Prelude.{
  ℕ, ◌≡◌, String, Bool, true, false, ◌&&◌, ◌||◌, ◌==◌, Option, some, List, [], ◌∷◌, map, for_each,
  is_some, All, All_imp, arith, Bool-cases, Option-cases, inl, inr, eq_iff, str_eq, str_eq_refl,
  includes,
}
use frontdashboard.Prelude.Dict.{get, set, is_dict}
use frontdashboard.Query.{
  QueryEntry, Cache, Request, on_entry, ensure_entry, launch, begin_fetch, invalidate_entry,
  invalidate_where,
}
use frontdashboard.Query.Entries.{
  All-set, All-get, All-on_entry, All-touch, All-at, All-others, is_dict-on_entry, has_of_get-none,
}
use frontdashboard.Query.Coherence.{invalidate_entry-IsCoherent, IsGood, IsCoherent}

module _ {ℓ} {S A : Type ℓ} where
  -- The entry is marked as stale, or a request for it is in flight.
  abbrev pub will_refresh : QueryEntry S A → Bool
  will_refresh e = e.stale || is_some e.in_flight

module _ {ℓ} {S A : Type ℓ} where
  pub get-on_entry :
      (k : String) (e : QueryEntry S A) (change : QueryEntry S A → QueryEntry S A)
      (es : List (String × QueryEntry S A))
      → get k es ≡ some e
      → get k (on_entry e.number change es) ≡ some (change e)
  get-on_entry k e change [] h = cc
  get-on_entry k e change ((j, d) ∷ es) h = elim (Bool-cases (str_eq j k)) [
    | inl i ↦
        let same : some d ≡ some e = ground (arith, h) in
        let d' : d ≡ e = cc in rw i (rw d' (ground arith))
    | inr i ↦ rw i (get-on_entry k e change es (ground (arith, h)))
  ]

module _ {ℓ} {S A : Type ℓ} (get_key : S → String) (cap : ℕ) (holds : S → Bool) where
  -- What the loop has reached, with the keys that are left.
  abbrev Awaits : List String → String × QueryEntry S A → Type 0
  Awaits keys (key, e) = holds e.scope ≡ true → will_refresh e ≡ false → includes keys key ≡ true

  fetch-All {κ} :
      (P : String × QueryEntry S A → Type κ) (entry : QueryEntry S A) (background : Option Bool)
      (c : Cache S A)
      → ((request : ℕ) (k : String) (e : QueryEntry S A)
          → P (k, e)
          → P (k, launch background request e))
      → get (get_key entry.scope) c.entries ≡ some entry
      → All P c.entries
      → All P (begin_fetch get_key cap entry.scope background c).0.entries
  unfolding begin_fetch ensure_entry
  fetch-All P entry background c f e h =
      let key = get_key entry.scope in
      let kept = All-set P key entry c.entries (All-get P key entry c.entries h e) h in
      let touched = All-touch P key (set key entry c.entries) kept in
      elim (Bool-cases (is_some entry.in_flight)) [
        | inl q ↦ rw (begin_fetch, ensure_entry, e) (rw q touched)
        | inr q ↦
            rw (begin_fetch, ensure_entry, e)
              (rw q (All-on_entry P entry.number (launch background c.next) (f c.next) _ touched))
      ]

  Awaits-drop :
      (k : String) (keys : List String) (e : String × QueryEntry S A)
      → Awaits (k ∷ keys) e
      → str_eq e.0 k ≡ false
      → Awaits keys e
  Awaits-drop k keys (key, e) h n p q = ground (arith, h p q, eq_iff k key, eq_iff key k)

  -- The entry of the key is marked.
  Awaits-mark :
      (k : String) (keys : List String) (entry : QueryEntry S A) (c : Cache S A)
      → is_dict c.entries ≡ true
      → get k c.entries ≡ some entry
      → All (λ e. str_eq e.0 k ≡ false → Awaits keys e) c.entries
      → All (Awaits keys) (on_entry entry.number (λ e. record e { stale = true }) c.entries)
  Awaits-mark k keys entry c d e h =
      let mark : QueryEntry S A → QueryEntry S A = λ e. record e { stale = true } in
      All-at (Awaits keys) k (mark entry) (on_entry entry.number mark c.entries)
        (rw (is_dict-on_entry entry.number mark c.entries) d)
        (get-on_entry k entry mark c.entries e) (λ p q. cc)
        (All-on_entry (λ e. str_eq e.0 k ≡ false → Awaits keys e) entry.number mark
          (λ key e p n r q. cc) c.entries h)

  Awaits-step :
      (active_only : Bool) (background : Option Bool) (k : String) (keys : List String)
      (r : Cache S A × List (Request S))
      → IsCoherent get_key r.0
      → All (Awaits (k ∷ keys)) r.0.entries
      → All (Awaits keys) (invalidate_entry get_key cap holds active_only background r k).0.entries
  Awaits-step active_only background k keys r v h =
      let others = All_imp r.0.entries (λ e p n. Awaits-drop k keys e p n) h in
      elim (Option-cases (get k r.0.entries)) [
        | inl e ↦
            rw (invalidate_entry, e)
              (All-others (Awaits keys) k r.0.entries (has_of_get-none k r.0.entries e) others)
        | inr (entry, e) ↦ elim (Bool-cases (holds entry.scope)) [
          | inl p ↦
              let marked = Awaits-mark k keys entry r.0 v.dict e others in
              elim (Bool-cases (active_only && entry.listeners == 0)) [
                | inl o ↦ rw (invalidate_entry, e, p, o) marked
                | inr o ↦
                    let mark : QueryEntry S A → QueryEntry S A = λ e. record e { stale = true } in
                    let key : get_key entry.scope ≡ k =
                      (All-get (IsGood get_key r.0.next) k entry r.0.entries v.good e).0 in
                    rw (invalidate_entry, e, p, o)
                      (fetch-All (Awaits keys) (mark entry) _
                        (record (r.0) { entries = on_entry entry.number mark r.0.entries })
                        (λ request j d q t u. ground arith)
                        (rw key (get-on_entry k entry mark r.0.entries e)) marked)
              ]
          | inr p ↦
              rw (invalidate_entry, e, p)
                (All-at (Awaits keys) k entry r.0.entries v.dict e (λ q. cc) others)
        ]
      ]

  Awaits-loop :
      (active_only : Bool) (background : Option Bool) (keys : List String)
      (r : Cache S A × List (Request S))
      → IsCoherent get_key r.0
      → All (Awaits keys) r.0.entries
      → All
          (Awaits [])
          (for_each (invalidate_entry get_key cap holds active_only background) r keys).0.entries
  Awaits-loop active_only background [] r v h = h
  Awaits-loop active_only background (k ∷ keys) r v h =
      Awaits-loop active_only background keys _
        (invalidate_entry-IsCoherent get_key cap holds active_only background r k v)
        (Awaits-step active_only background k keys r v h)

  Awaits-all : (es : List (String × QueryEntry S A)) → All (Awaits (map (λ e. e.0) es)) es
  Awaits-all [] = tt
  Awaits-all ((k, e) ∷ es) = (
    λ p q. ground (arith, str_eq_refl k),
    All_imp es (λ x h p q. ground (arith, h p q)) (Awaits-all es),
  )

  -- After an invalidation, every entry whose scope it names is marked as stale or has a request in
  -- flight.
  pub invalidate_where-refreshes :
      (active_only : Bool) (background : Option Bool) (c : Cache S A)
      → IsCoherent get_key c
      → All
          (λ e. holds e.1.scope ≡ true → will_refresh e.1 ≡ true)
          (invalidate_where get_key cap holds active_only background c).0.entries
  unfolding invalidate_where
  invalidate_where-refreshes active_only background c v =
      All_imp _ (λ e h p. ground (arith, h p))
        (Awaits-loop active_only background (map (λ e. e.0) c.entries) (c, []) v
          (Awaits-all c.entries))

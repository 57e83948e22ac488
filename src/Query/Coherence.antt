-- ===== src/Query/Coherence.antt =====
-- What holds of each entry, and that the operations of the cache keep it.
use frontdashboard.Prelude.{
  ℕ, suc, ◌≡◌, ◌<◌, refl, String, Bool, true, not, ◌&&◌, ◌||◌, ◌==◌, Option, none, some, List, [],
  ◌∷◌, ◌++◌, map, for_each, if◌then◌else◌, is_some, All, All-append, All_imp, arith, Bool-cases,
  Option-cases, inl, inr, ◌⊎◌,
}
use frontdashboard.Prelude.Dict.{get, is_dict, is_dict-set}
use frontdashboard.Query.{
  QueryState, QueryEntry, Cache, Request, new_entry, touch, on_entry, ensure_entry, send, launch,
  settle, begin_fetch, fetch_if_stale, complete_fetch, invalidate_entry, invalidate_where,
  update_where, seed, subscribe, unsubscribe, mount, reset,
}
use frontdashboard.Query.Entries.{
  All-map, is_dict-map, All-set, All-get, All-evict, All-on_entry, All-touch, is_dict-evict,
  is_dict-on_entry, is_dict-touch, is_dict-snoc, has_of_get-none,
}

module _ {ℓ} {S A : Type ℓ} (get_key : S → String) where
  -- An entry is under the key of its scope, is numbered before the numbers to come, and shows a
  -- spinner only while a request for it is in flight.
  abbrev pub IsGood : ℕ → String × QueryEntry S A → Type 0
  IsGood next (key, e) =
      (get_key e.scope ≡ key)
      × (e.number < next)
      × (e.state.loading ≡ true → is_some e.in_flight ≡ true)

  pub record IsCoherent (c : Cache S A) : Type 0 where
    pub dict : is_dict c.entries ≡ true
    pub good : All (IsGood c.next) c.entries

  -- A change of an entry that keeps all this.
  abbrev Keeps : (QueryEntry S A → QueryEntry S A) → Type ℓ
  Keeps change =
      (next : ℕ) (key : String) (e : QueryEntry S A)
      → IsGood next (key, e)
      → IsGood next (key, change e)

  pub on_entry-IsCoherent :
      (n : ℕ) (change : QueryEntry S A → QueryEntry S A) (c : Cache S A)
      → Keeps change
      → IsCoherent c
      → IsCoherent (record c { entries = on_entry n change c.entries })
  on_entry-IsCoherent n change c f v = record {
    dict = rw (is_dict-on_entry n change c.entries) v.dict;
    good = All-on_entry (IsGood c.next) n change (f c.next) c.entries v.good;
  }

  next-IsCoherent : (c : Cache S A) → IsCoherent c → IsCoherent (record c { next = suc c.next })
  next-IsCoherent c v = record {
    dict = v.dict;
    good = All_imp c.entries (λ e (h : IsGood c.next e). (h.0, omega arith, h.2)) v.good;
  }

  touch-IsCoherent :
      (key : String) (c : Cache S A)
      → IsCoherent c
      → IsCoherent (record c { entries = touch key c.entries })
  touch-IsCoherent key c v = record {
    dict = is_dict-touch key c.entries v.dict;
    good = All-touch (IsGood c.next) key c.entries v.good;
  }

  module _ (cap : ℕ) where
    pub ensure_entry-IsCoherent :
        (scope : S) (c : Cache S A) → IsCoherent c → IsCoherent (ensure_entry get_key cap scope c).0
    unfolding ensure_entry
    ensure_entry-IsCoherent scope c v = elim (Option-cases (get (get_key scope) c.entries)) [
      | inl e ↦
          let added = c.entries ++ (get_key scope, new_entry c.next scope) ∷ [] in
          rw (ensure_entry, e)
            (record {
              dict = is_dict-evict cap _ added (
                  is_dict-snoc (get_key scope) (new_entry c.next scope) c.entries v.dict
                    (has_of_get-none (get_key scope) c.entries e));
              good = All-evict (IsGood (suc c.next)) cap _ added (
                  All-append (IsGood (suc c.next)) c.entries _ (next-IsCoherent c v).good
                    ((refl, omega arith, λ l. cc), tt));
            })
      | inr (old, e) ↦
          let g = All-get (IsGood c.next) (get_key scope) old c.entries v.good e in
          rw (ensure_entry, e)
            (record {
              dict = is_dict-set (get_key scope) (record old { scope = scope }) c.entries v.dict;
              good =
                  All-set (IsGood c.next) (get_key scope) (record old { scope = scope }) c.entries
                    (refl, g.1, g.2) v.good;
            })
    ]

    launch-Keeps : (background : Option Bool) (request : ℕ) → Keeps (launch background request)
    launch-Keeps background request next key e g = (g.0, g.1, λ l. refl)

    send-IsCoherent :
        (background : Option Bool) (entry : QueryEntry S A) (c : Cache S A)
        → IsCoherent c
        → IsCoherent (send background entry c).0
    send-IsCoherent background entry c v =
        next-IsCoherent
          (record c { entries = on_entry entry.number (launch background c.next) c.entries })
          (on_entry-IsCoherent entry.number (launch background c.next) c
            (launch-Keeps background c.next) v)

    pub begin_fetch-IsCoherent :
        (scope : S) (background : Option Bool) (c : Cache S A)
        → IsCoherent c
        → IsCoherent (begin_fetch get_key cap scope background c).0
    unfolding begin_fetch
    begin_fetch-IsCoherent scope background c v =
        let (ensured, entry) = ensure_entry get_key cap scope c in
        let touched = record ensured { entries = touch (get_key scope) ensured.entries } in
        let t : IsCoherent touched =
          touch-IsCoherent (get_key scope) ensured (ensure_entry-IsCoherent scope c v) in
        elim (Bool-cases (is_some entry.in_flight)) [
          | inl f ↦ rw (begin_fetch, f) t
          | inr f ↦ rw (begin_fetch, f) (send-IsCoherent background entry touched t)
        ]

    pub fetch_if_stale-IsCoherent :
        (scope : S) (c : Cache S A)
        → IsCoherent c
        → IsCoherent (fetch_if_stale get_key cap scope c).0
    unfolding fetch_if_stale
    fetch_if_stale-IsCoherent scope c v =
        let (ensured, entry) = ensure_entry get_key cap scope c in
        let t : IsCoherent ensured = ensure_entry-IsCoherent scope c v in
        elim (Bool-cases
          (is_some entry.in_flight || is_some entry.state.data_ && not entry.stale)) [
            | inl f ↦ rw (fetch_if_stale, f) t
            | inr f ↦ rw (fetch_if_stale, f) (begin_fetch-IsCoherent scope none ensured t)
          ]

    pub mount-IsCoherent :
        (scope : S) (c : Cache S A) → IsCoherent c → IsCoherent (mount get_key cap scope c).0
    unfolding mount
    mount-IsCoherent scope c v =
        let (ensured, entry) = ensure_entry get_key cap scope c in
        let t : IsCoherent ensured = ensure_entry-IsCoherent scope c v in
        elim (Bool-cases (not (is_some entry.state.data_) || entry.stale)) [
          | inl f ↦
              rw (mount, f)
                (begin_fetch-IsCoherent scope (some (is_some entry.state.data_)) ensured t)
          | inr f ↦ rw (mount, f) t
        ]

    pub seed-IsCoherent :
        (scope : S) (data_ : A) (c : Cache S A)
        → IsCoherent c
        → IsCoherent (seed get_key cap scope data_ c)
    unfolding seed
    seed-IsCoherent scope data_ c v =
        let (ensured, entry) = ensure_entry get_key cap scope c in
        on_entry-IsCoherent entry.number _ ensured (λ next key e g. (g.0, g.1, λ l. cc))
          (ensure_entry-IsCoherent scope c v)

    pub subscribe-IsCoherent :
        (scope : S) (c : Cache S A) → IsCoherent c → IsCoherent (subscribe get_key cap scope c).0
    unfolding subscribe
    subscribe-IsCoherent scope c v =
        let (ensured, entry) = ensure_entry get_key cap scope c in
        on_entry-IsCoherent entry.number _ ensured (λ next key e g. g)
          (ensure_entry-IsCoherent scope c v)

    mark-IsCoherent :
        (n : ℕ) (c : Cache S A)
        → IsCoherent c
        → IsCoherent (record c { entries = on_entry n (λ e. record e { stale = true }) c.entries })
    mark-IsCoherent n c v = on_entry-IsCoherent n _ c (λ next key e g. g) v

    pub invalidate_entry-IsCoherent :
        (holds : S → Bool) (active_only : Bool) (background : Option Bool)
        (r : Cache S A × List (Request S)) (key : String)
        → IsCoherent r.0
        → IsCoherent (invalidate_entry get_key cap holds active_only background r key).0
    invalidate_entry-IsCoherent holds active_only background r key v =
        elim (Option-cases (get key r.0.entries)) [
          | inl e ↦ rw (invalidate_entry, e) v
          | inr (entry, e) ↦ elim (Bool-cases (holds entry.scope)) [
            | inl h ↦ elim (Bool-cases (active_only && entry.listeners == 0)) [
              | inl o ↦ rw (invalidate_entry, e, h, o) (mark-IsCoherent entry.number r.0 v)
              | inr o ↦
                  rw (invalidate_entry, e, h, o)
                    (begin_fetch-IsCoherent entry.scope _ _ (mark-IsCoherent entry.number r.0 v))
            ]
            | inr h ↦ rw (invalidate_entry, e, h) v
          ]
        ]

    invalidate_loop-IsCoherent :
        (holds : S → Bool) (active_only : Bool) (background : Option Bool) (keys : List String)
        (r : Cache S A × List (Request S))
        → IsCoherent r.0
        → IsCoherent (for_each (invalidate_entry get_key cap holds active_only background) r keys).0
    invalidate_loop-IsCoherent holds active_only background [] r v = v
    invalidate_loop-IsCoherent holds active_only background (k ∷ keys) r v =
        invalidate_loop-IsCoherent holds active_only background keys _
          (invalidate_entry-IsCoherent holds active_only background r k v)

    pub invalidate_where-IsCoherent :
        (holds : S → Bool) (active_only : Bool) (background : Option Bool) (c : Cache S A)
        → IsCoherent c
        → IsCoherent (invalidate_where get_key cap holds active_only background c).0
    unfolding invalidate_where
    invalidate_where-IsCoherent holds active_only background c v =
        invalidate_loop-IsCoherent holds active_only background (map (λ e. e.0) c.entries) (c, []) v

  pub complete_fetch-IsCoherent :
      (r : Request S) (result : A ⊎ String) (c : Cache S A)
      → IsCoherent c
      → IsCoherent (complete_fetch r result c)
  unfolding complete_fetch
  complete_fetch-IsCoherent r (inl data_) c v =
      on_entry-IsCoherent r.entry (settle r.request (inl data_)) c
        (λ next key e g. (g.0, g.1, λ l. cc)) v
  complete_fetch-IsCoherent r (inr message) c v =
      on_entry-IsCoherent r.entry (settle r.request (inr message)) c
        (λ next key e g. (g.0, g.1, λ l. cc)) v

  pub unsubscribe-IsCoherent : (n : ℕ) (c : Cache S A) → IsCoherent c → IsCoherent (unsubscribe n c)
  unfolding unsubscribe
  unsubscribe-IsCoherent n c v = on_entry-IsCoherent n _ c (λ next key e g. g) v

  -- The updater raises no spinner.
  abbrev pub IsQuiet : (QueryState A → S → QueryState A) → Type ℓ
  IsQuiet updater =
      (s : QueryState A) (scope : S) → (updater s scope).loading ≡ true → s.loading ≡ true

  pub update_where-IsCoherent :
      (holds : S → Bool) (updater : QueryState A → S → QueryState A) (c : Cache S A)
      → IsQuiet updater
      → IsCoherent c
      → IsCoherent (update_where holds updater c)
  unfolding update_where
  update_where-IsCoherent holds updater c q v =
      let change : QueryEntry S A → QueryEntry S A =
        λ e. if holds e.scope then record e { state = updater e.state e.scope } else e in
      record {
        dict = rw (is_dict-map change c.entries) v.dict;
        good =
            All-map change (IsGood c.next)
              (λ k e g. elim (Bool-cases (holds e.scope)) [
                | inl h ↦ rw h (g.0, g.1, λ l. g.2 (q e.state e.scope l))
                | inr h ↦ rw h g
              ])
              c.entries v.good;
      }

  pub reset-IsCoherent : (c : Cache S A) → IsCoherent c → IsCoherent (reset c)
  unfolding reset
  reset-IsCoherent c v = record { dict = refl; good = tt }

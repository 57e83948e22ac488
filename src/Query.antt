-- ===== src/Query.antt =====
-- frontend/src/resources/scopedQuery.ts: a cache of fetched data by scope, `createScopedQuery`.
-- A fetch is split at its `await` into `begin_fetch`, which gives the request that is sent, and
-- `complete_fetch`. An entry is an object that outlives its place in the map: it has a number, and a
-- response writes to the entry of that number, if the map still holds it. What an entry out of the
-- map holds is seen by nobody. Listeners are counted; to call them only renders again.
pub mod Entries
pub mod Eviction
pub mod Coherence
pub mod Interleaving
pub mod Staleness
pub mod InFlight
pub mod Updates
mod Tests
use frontdashboard.Prelude.{
  ℕ, suc, ◌-◌, ◌+◌, String, Bool, true, false, not, ◌&&◌, ◌||◌, ◌==◌, ltb, Option, none, some, List,
  [], ◌∷◌, ◌++◌, map, if◌then◌else◌, is_some, or_else, length, for_each, ◌⊎◌, inl, inr,
}
use frontdashboard.Prelude.Dict.{get, set, delete}

-- `ScopedQueryState`
pub record QueryState {ℓ} (A : Type ℓ) : Type ℓ where
  pub data_ : Option A
  pub loading : Bool
  pub error : Option String

-- `ScopedQueryEntry`; the key is the entry's in the map.
pub record QueryEntry {ℓ} (S A : Type ℓ) : Type ℓ where
  pub number : ℕ
  pub scope : S
  pub state : QueryState A
  pub listeners : ℕ
  pub in_flight : Option ℕ
  pub stale : Bool

-- `entries`, in the map's order, and a source of numbers for entries and requests.
pub record Cache {ℓ} (S A : Type ℓ) : Type ℓ where
  pub entries : List (String × QueryEntry S A)
  pub next : ℕ

-- A request in flight: the number of the entry that it resolves into, and its own.
pub record Request {ℓ} (S : Type ℓ) : Type ℓ where
  pub entry : ℕ
  pub scope : S
  pub request : ℕ

abbrev pub empty_state {ℓ} : {A : Type ℓ} → QueryState A
empty_state = record { data_ = none; loading = false; error = none }

module _ {ℓ} {S A : Type ℓ} where
  abbrev pub new_entry : ℕ → S → QueryEntry S A
  new_entry number scope = record {
    number = number;
    scope = scope;
    state = empty_state;
    listeners = 0;
    in_flight = none;
    stale = false;
  }

  -- Moved to the back of the eviction order.
  abbrev pub touch : String → List (String × QueryEntry S A) → List (String × QueryEntry S A)
  touch key entries = elim (get key entries) [
    | none ↦ entries
    | some entry ↦ delete key entries ++ (key, entry) ∷ []
  ]

  abbrev pub is_pinned : QueryEntry S A → Bool
  is_pinned entry = ltb 0 entry.listeners || is_some entry.in_flight

  -- The loop of `evictColdEntries`, at a size of the map. Once the size is under the cap it stays so,
  -- which is the loop's `break`.
  unfoldable pub evict_from :
      ℕ → ℕ → List (String × QueryEntry S A) → List (String × QueryEntry S A)
  evict_from cap size [] = []
  evict_from cap size (e ∷ rest) =
      let drops = ltb cap size && not (is_pinned e.1) in
      let kept = evict_from cap (if drops then size - 1 else size) rest in
      if drops then kept else e ∷ kept

  abbrev pub evict_cold_entries :
      ℕ → List (String × QueryEntry S A) → List (String × QueryEntry S A)
  evict_cold_entries cap entries = evict_from cap (length entries) entries

  -- Writes to the entry of the number, where the map holds it.
  abbrev pub on_entry :
      ℕ
      → (QueryEntry S A → QueryEntry S A)
      → List (String × QueryEntry S A)
      → List (String × QueryEntry S A)
  on_entry number change = map (λ e. (e.0, if e.1.number == number then change e.1 else e.1))

abbrev pub requests_of {ℓ} : {S : Type ℓ} → Option (Request S) → List (Request S)
requests_of none = []
requests_of (some r) = r ∷ []

-- The state that a fetch shows while it runs.
abbrev pub fetching {ℓ} : {A : Type ℓ} → Option Bool → QueryState A → QueryState A
fetching background state =
    if not (or_else background (is_some state.data_)) || not (is_some state.data_)
    then record state { loading = true; error = none }
    else if is_some state.error
    then record state { loading = false; error = none }
    else state

module _ {ℓ} {S A : Type ℓ} where
  -- The entry once its request is sent.
  abbrev pub launch : Option Bool → ℕ → QueryEntry S A → QueryEntry S A
  launch background request e = record e {
    state = fetching background e.state;
    stale = false;
    in_flight = some request;
  }

  abbrev pub send : Option Bool → QueryEntry S A → Cache S A → Cache S A × Option (Request S)
  send background entry c = (
    record {
      entries = on_entry entry.number (launch background c.next) c.entries;
      next = suc c.next;
    },
    some (record { entry = entry.number; scope = entry.scope; request = c.next }),
  )

-- The parameters of a query: the key of a scope, and `maxCachedScopes`.
module _ {ℓ} {S A : Type ℓ} (get_key : S → String) (cap : ℕ) where
  -- The cache and the entry, which may have been evicted at once.
  unfoldable pub ensure_entry : S → Cache S A → Cache S A × QueryEntry S A
  unfolding evict_from
  ensure_entry scope c = elim (get (get_key scope) c.entries) [
    | some existing ↦
        let entry = record existing { scope = scope } in
        (record c { entries = set (get_key scope) entry c.entries }, entry)
    | none ↦
        let entry = new_entry c.next scope in
        (
          record {
            entries = evict_cold_entries cap (c.entries ++ (get_key scope, entry) ∷ []);
            next = suc c.next;
          },
          entry,
        )
  ]

  -- `fetch` up to its request; a request in flight is shared.
  unfoldable pub begin_fetch : S → Option Bool → Cache S A → Cache S A × Option (Request S)
  unfolding ensure_entry
  begin_fetch scope background c =
      let (ensured, entry) = ensure_entry scope c in
      let touched = record ensured { entries = touch (get_key scope) ensured.entries } in
      if is_some entry.in_flight then (touched, none) else send background entry touched

  unfoldable pub fetch_if_stale : S → Cache S A → Cache S A × Option (Request S)
  unfolding ensure_entry begin_fetch
  fetch_if_stale scope c =
      let (ensured, entry) = ensure_entry scope c in
      if is_some entry.in_flight || is_some entry.state.data_ && not entry.stale
      then (ensured, none)
      else begin_fetch scope none ensured

  -- One round of `invalidateWhere`, for the entry at a key of the snapshot.
  abbrev pub invalidate_entry :
      (S → Bool)
      → Bool
      → Option Bool
      → Cache S A × List (Request S)
      → String
      → Cache S A × List (Request S)
  invalidate_entry holds active_only background (c, sent) key = elim (get key c.entries) [
    | none ↦ (c, sent)
    | some entry ↦
        if not (holds entry.scope)
        then (c, sent)
        else let marked = record c {
          entries = on_entry entry.number (λ e. record e { stale = true }) c.entries;
        } in
          if active_only && entry.listeners == 0
          then (marked, sent)
          else let (fetched, request) =
              begin_fetch entry.scope (some (or_else background (is_some entry.state.data_)))
                marked in
            (fetched, sent ++ requests_of request)
  ]

  unfoldable pub invalidate_where :
      (S → Bool) → Bool → Option Bool → Cache S A → Cache S A × List (Request S)
  unfolding begin_fetch
  invalidate_where holds active_only background c =
      for_each (invalidate_entry holds active_only background) (c, []) (map (λ e. e.0) c.entries)

  -- For data that the client holds in full.
  unfoldable pub seed : S → A → Cache S A → Cache S A
  unfolding ensure_entry
  seed scope data_ c =
      let (ensured, entry) = ensure_entry scope c in
      record ensured {
        entries =
            on_entry entry.number
              (λ e. record e {
                stale = false;
                state = record { data_ = some data_; loading = false; error = none };
              })
              ensured.entries;
      }

  -- A component that reads the scope is mounted: it subscribes, and fetches what is missing or
  -- stale. The number of the entry is what it holds to unsubscribe.
  unfoldable pub subscribe : S → Cache S A → Cache S A × ℕ
  unfolding ensure_entry
  subscribe scope c =
      let (ensured, entry) = ensure_entry scope c in
      (
        record ensured {
          entries =
              on_entry entry.number (λ e. record e { listeners = suc e.listeners }) ensured.entries;
        },
        entry.number,
      )

  unfoldable pub mount : S → Cache S A → Cache S A × Option (Request S)
  unfolding ensure_entry begin_fetch
  mount scope c =
      let (ensured, entry) = ensure_entry scope c in
      if not (is_some entry.state.data_) || entry.stale
      then begin_fetch scope (some (is_some entry.state.data_)) ensured
      else (ensured, none)

-- `entry.inFlight === request`
abbrev pub opt_is : ℕ → Option ℕ → Bool
opt_is request none = false
opt_is request (some other) = other == request

module _ {ℓ} {S A : Type ℓ} where
  abbrev pub settle : ℕ → A ⊎ String → QueryEntry S A → QueryEntry S A
  settle request (inl data_) e = record e {
    state = record { data_ = some data_; loading = false; error = none };
    in_flight = if opt_is request e.in_flight then none else e.in_flight;
  }
  settle request (inr message) e = record e {
    state = record (e.state) { loading = false; error = some message };
    in_flight = if opt_is request e.in_flight then none else e.in_flight;
  }

  -- A response: the data, or the message of the error.
  unfoldable pub complete_fetch : Request S → A ⊎ String → Cache S A → Cache S A
  complete_fetch r result c = record c {
    entries = on_entry r.entry (settle r.request result) c.entries;
  }

  unfoldable pub update_where :
      (S → Bool) → (QueryState A → S → QueryState A) → Cache S A → Cache S A
  update_where holds updater c = record c {
    entries =
        map
          (λ (e : String × QueryEntry S A). (
            e.0,
            if holds e.1.scope then record (e.1) { state = updater e.1.state e.1.scope } else e.1,
          ))
          c.entries;
  }

  unfoldable pub unsubscribe : ℕ → Cache S A → Cache S A
  unsubscribe number c = record c {
    entries = on_entry number (λ e. record e { listeners = e.listeners - 1 }) c.entries;
  }

  unfoldable pub reset : Cache S A → Cache S A
  reset c = record c { entries = [] }

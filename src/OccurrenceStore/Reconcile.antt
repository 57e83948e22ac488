-- ===== src/OccurrenceStore/Reconcile.antt =====
-- What a response leaves in the map of occurrences (`fetchInterval` after its `await`).
use frontdashboard.Prelude.{
  ℕ, ◌≡◌, ◌∙◌, true, not, Option, none, some, List, [], ◌∷◌, String, refl, if◌then◌else◌, str_eq,
  filter, arith, ap,
}
use frontdashboard.Prelude.Dict.{
  get, set, is_dict, get-set, is_dict-set, is_dict-filter, get-filter, keep_if,
}
use frontdashboard.Intervals.{Interval, overlaps}
use frontdashboard.OccurrenceStore.{Occurrence, occurrence_key, span_of, insert_fetched, reconcile}

-- The last occurrence of the response with the key.
abbrev pub last_with_key : String → List Occurrence → Option Occurrence
last_with_key k [] = none
last_with_key k (o ∷ os) = elim (last_with_key k os) [
  | none ↦ if str_eq (occurrence_key o) k then some o else none
  | some later ↦ some later
]

-- `a`, or `b` where there is no `a`.
abbrev pub first_some : Option Occurrence → Option Occurrence → Option Occurrence
first_some none b = b
first_some (some a) b = some a

get-insert_fetched :
    (k : String) (fetched : List Occurrence) (m : List (String × Occurrence))
    → get k (insert_fetched fetched m) ≡ first_some (last_with_key k fetched) (get k m)
unfolding insert_fetched
get-insert_fetched k [] m = refl
get-insert_fetched k (o ∷ os) m =
    ground (
      arith,
      get-insert_fetched k os (set (occurrence_key o) o m),
      get-set (occurrence_key o) k o m,
    )

insert_fetched-is_dict :
    (fetched : List Occurrence) (m : List (String × Occurrence))
    → is_dict m ≡ true
    → is_dict (insert_fetched fetched m) ≡ true
unfolding insert_fetched
insert_fetched-is_dict [] m h = h
insert_fetched-is_dict (o ∷ os) m h =
    insert_fetched-is_dict os (set (occurrence_key o) o m) (is_dict-set (occurrence_key o) o m h)

module _ (date_parse : String → ℕ) where
  pub reconcile-is_dict :
      (i : Interval) (fetched : List Occurrence) (m : List (String × Occurrence))
      → is_dict m ≡ true
      → is_dict (reconcile date_parse i fetched m) ≡ true
  unfolding reconcile
  reconcile-is_dict i fetched m h =
      insert_fetched-is_dict fetched (filter (λ e. not (overlaps (span_of date_parse e.1) i)) m)
        (is_dict-filter _ m h)

  -- At every key the response wins; else what was held stays, unless it overlaps the interval that
  -- the server was asked about.
  pub get-reconcile :
      (i : Interval) (fetched : List Occurrence) (m : List (String × Occurrence)) (k : String)
      → is_dict m ≡ true
      → get k (reconcile date_parse i fetched m)
        ≡ first_some
            (last_with_key k fetched)
            (keep_if (λ o. not (overlaps (span_of date_parse o) i)) (get k m))
  unfolding reconcile
  get-reconcile i fetched m k h =
      get-insert_fetched k fetched (filter (λ e. not (overlaps (span_of date_parse e.1) i)) m)
      ∙ ap (first_some (last_with_key k fetched))
          (get-filter (λ o. not (overlaps (span_of date_parse o) i)) k m h)

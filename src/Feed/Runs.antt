-- ===== src/Feed/Runs.antt =====
-- The rows against the runs that they stand for.
use frontdashboard.Prelude.{
  ℕ, ◌≡◌, refl, sym, ap, subst, eq_iff, ◌∙◌, String, Bool, true, false, ◌&&◌, Option, none, some,
  List, [], ◌∷◌, ◌++◌, map, append_assoc, if◌then◌else◌, for_each, length, All, All-append, arith,
  Bool-cases, inl, inr,
}
use frontdashboard.Feed.{
  FeedEvent, ActivityGroup, Run, collapse_key, same_key, within_window, add, groups_of, alone,
  joined_by, collapse_step, group_activity_events,
}

same_key→eq : (a b : Option String) → same_key a b ≡ true → a ≡ b
same_key→eq none b h = cc
same_key→eq (some a) none h = cc
same_key→eq (some a) (some b) h = ap some ((eq_iff a b).0 h)

and_left : (a b : Bool) → (a && b) ≡ true → a ≡ true
and_left a b h = ground arith

members-append :
    (gs hs : List ActivityGroup)
    → map (λ g. g.members) (gs ++ hs) ≡ map (λ g. g.members) gs ++ map (λ g. g.members) hs
members-append [] hs = refl
members-append (g ∷ gs) hs = ap (λ ms. g.members ∷ ms) (members-append gs hs)

-- The different entities of some events.
abbrev pub entities_of : List FeedEvent → List String
entities_of events = for_each add [] (map (λ e. e.entity_id) events)

for_each-snoc :
    (ids found : List String) (id : String)
    → for_each add found (ids ++ id ∷ []) ≡ add (for_each add found ids) id
for_each-snoc [] found id = refl
for_each-snoc (i ∷ ids) found id = for_each-snoc ids (add found i) id

ids-append :
    (events : List FeedEvent) (f : FeedEvent)
    → map (λ e. e.entity_id) (events ++ f ∷ []) ≡ map (λ e. e.entity_id) events ++ f.entity_id ∷ []
ids-append [] f = refl
ids-append (e ∷ events) f = ap (λ ids. e.entity_id ∷ ids) (ids-append events f)

entities-append :
    (events : List FeedEvent) (f : FeedEvent)
    → entities_of (events ++ f ∷ []) ≡ add (entities_of events) f.entity_id
entities-append events f =
    ap (for_each add []) (ids-append events f)
    ∙ for_each-snoc (map (λ e. e.entity_id) events) [] f.entity_id

module _ (blank : String → Bool) (parse : String → Option ℕ) where
  -- An event continues the run of the one before it in the feed.
  abbrev pub continues : FeedEvent → FeedEvent → Bool
  continues e f =
      same_key (collapse_key blank f) (collapse_key blank e)
      && within_window (parse e.created_at) (parse f.created_at)

  -- An event before the runs of what follows it.
  abbrev pub before : FeedEvent → List FeedEvent → List (List FeedEvent) → List (List FeedEvent)
  before e m [] = m ∷ []
  before e m ([] ∷ runs_) = m ∷ [] ∷ runs_
  before e m ((f ∷ g) ∷ runs_) = if continues e f then (m ++ f ∷ g) ∷ runs_ else m ∷ (f ∷ g) ∷ runs_

  -- The longest runs of events of which each continues the one before.
  pub runs : List FeedEvent → List (List FeedEvent)
  runs [] = []
  runs (e ∷ events) = before e (e ∷ []) (runs events)

  before-append :
      (e f : FeedEvent) (m : List FeedEvent) (rs : List (List FeedEvent))
      → continues e f ≡ true
      → before e m (before f (f ∷ []) rs) ≡ before f (m ++ f ∷ []) rs
  before-append e f m [] c = rw c refl
  before-append e f m ([] ∷ rs) c = rw c refl
  before-append e f m ((g ∷ gs) ∷ rs) c = elim (Bool-cases (continues f g)) [
    | inl d ↦ rw (d, c, append_assoc m (f ∷ []) (g ∷ gs)) refl
    | inr d ↦ rw (d, c) refl
  ]

  -- The loop's state once it has met an event, in a group.
  abbrev met : List ActivityGroup → ActivityGroup → FeedEvent → List String → Run
  met done group e ids = record {
    done = done;
    last = some group;
    run_key = collapse_key blank e;
    run_previous_at = parse e.created_at;
    run_entities = ids;
  }

  abbrev rows : Run → List ActivityGroup
  rows r = groups_of r.done r.last

  before-apart :
      (e f : FeedEvent) (m : List FeedEvent) (rs : List (List FeedEvent))
      → continues e f ≡ false
      → before e m (before f (f ∷ []) rs) ≡ m ∷ before f (f ∷ []) rs
  before-apart e f m [] c = rw c refl
  before-apart e f m ([] ∷ rs) c = rw c refl
  before-apart e f m ((g ∷ gs) ∷ rs) c = elim (Bool-cases (continues f g)) [
    | inl d ↦ rw (d, c) refl
    | inr d ↦ rw (d, c) refl
  ]

  -- A round of the loop, on an event that continues the run, and on one that does not.
  step-joins :
      (done : List ActivityGroup) (group : ActivityGroup) (e f : FeedEvent) (ids : List String)
      → continues e f ≡ true
      → collapse_step blank parse (met done group e ids) f
        ≡ met done (joined_by group (add ids f.entity_id) f) f (add ids f.entity_id)
  unfolding collapse_step
  step-joins done group e f ids c =
      let key =
        same_key→eq (collapse_key blank f) (collapse_key blank e)
          (and_left (same_key (collapse_key blank f) (collapse_key blank e)) _ c) in
      rw c (
        ap
          (λ k. record {
            done = done;
            last = some (joined_by group (add ids f.entity_id) f);
            run_key = k;
            run_previous_at = parse f.created_at;
            run_entities = add ids f.entity_id;
          })
          (sym key))

  step-starts :
      (done : List ActivityGroup) (group : ActivityGroup) (e f : FeedEvent) (ids : List String)
      → continues e f ≡ false
      → collapse_step blank parse (met done group e ids) f
        ≡ met (done ++ group ∷ []) (alone f) f (f.entity_id ∷ [])
  unfolding collapse_step
  step-starts done group e f ids c = rw c refl

  loop-runs :
      (events : List FeedEvent) (done : List ActivityGroup) (group : ActivityGroup) (e : FeedEvent)
      (ids : List String)
      → map
          (λ g. g.members)
          (rows (for_each (collapse_step blank parse) (met done group e ids) events))
        ≡ map (λ g. g.members) done ++ before e group.members (runs events)
  unfolding runs
  loop-runs [] done group e ids = members-append done (group ∷ [])
  loop-runs (f ∷ events) done group e ids = elim (Bool-cases (continues e f)) [
    | inl c ↦
        let joined = joined_by group (add ids f.entity_id) f in
        ap (λ r. map (λ g. g.members) (rows (for_each (collapse_step blank parse) r events)))
          (step-joins done group e f ids c)
        ∙ loop-runs events done joined f (add ids f.entity_id)
        ∙ ap (λ rs. map (λ g. g.members) done ++ rs)
            (sym (before-append e f group.members (runs events) c))
    | inr c ↦
        ap (λ r. map (λ g. g.members) (rows (for_each (collapse_step blank parse) r events)))
          (step-starts done group e f ids c)
        ∙ loop-runs events (done ++ group ∷ []) (alone f) f (f.entity_id ∷ [])
        ∙ ap (λ ms. ms ++ before f (f ∷ []) (runs events)) (members-append done (group ∷ []))
        ∙ append_assoc (map (λ g. g.members) done) (group.members ∷ []) _
        ∙ ap (λ rs. map (λ g. g.members) done ++ rs)
            (sym (before-apart e f group.members (runs events) c))
  ]

  -- What is shown of a group: its newest event, and how many entities it touches.
  abbrev pub IsCounted : ActivityGroup → Type 0
  IsCounted g =
      ((e : FeedEvent) × (rest : List FeedEvent) × (g.members ≡ e ∷ rest) × (g.event ≡ e))
      × (g.entities ≡ length (entities_of g.members))

  loop-IsCounted :
      (events : List FeedEvent) (done : List ActivityGroup) (group : ActivityGroup) (e : FeedEvent)
      → All IsCounted done
      → IsCounted group
      → All IsCounted (
          rows (
            for_each
              (collapse_step blank parse)
              (met done group e (entities_of group.members))
              events))
  loop-IsCounted [] done group e d g = All-append IsCounted done (group ∷ []) d (g, tt)
  loop-IsCounted (f ∷ events) done group e d g = elim (Bool-cases (continues e f)) [
    | inl c ↦
        let ids = entities_of group.members in
        let joined = joined_by group (add ids f.entity_id) f in
        let (first, rest, members, newest) = g.0 in
        let same : entities_of joined.members ≡ add ids f.entity_id =
          entities-append group.members f in
        let counted : IsCounted joined =
          ((first, rest ++ f ∷ [], ap (λ m. m ++ f ∷ []) members, newest), sym (ap length same)) in
        subst (λ r. All IsCounted (rows (for_each (collapse_step blank parse) r events)))
          (ap (λ i. met done joined f i) same ∙ sym (step-joins done group e f ids c))
          (loop-IsCounted events done joined f d counted)
    | inr c ↦
        subst (λ r. All IsCounted (rows (for_each (collapse_step blank parse) r events)))
          (sym (step-starts done group e f (entities_of group.members) c))
          (loop-IsCounted events (done ++ group ∷ []) (alone f) f
            (All-append IsCounted done (group ∷ []) d (g, tt)) ((f, [], refl, refl), refl))
  ]

  -- The rows collapse exactly the longest runs of neighbours in which each event has the key of the
  -- one before and is within five minutes of it: in the feed's order, none lost, none doubled. Each
  -- row shows the newest event of its run, and counts the different entities in it.
  pub group_activity_events-eq-runs :
      (events : List FeedEvent)
      → (map (λ g. g.members) (group_activity_events blank parse events) ≡ runs events)
        × All IsCounted (group_activity_events blank parse events)
  unfolding group_activity_events runs collapse_step
  group_activity_events-eq-runs [] = (refl, tt)
  group_activity_events-eq-runs (e ∷ events) = (
    loop-runs events [] (alone e) e (e.entity_id ∷ []),
    loop-IsCounted events [] (alone e) e tt ((e, [], refl, refl), refl),
  )

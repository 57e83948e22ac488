-- ===== src/Activity/Responses.antt =====
-- What the responses do to the feed and its requests.
use frontdashboard.Prelude.{
  ℕ, ◌≡◌, sym, subst, refl, inl, inr, String, Bool, true, not, ◌==◌, Option, none, some, List, [],
  ◌∷◌, ◌++◌, str_eq, eq_iff, filter, all, ◌⊎◌, arith, Bool-cases,
}
use frontdashboard.Activity.{
  ActivityEvent, State, first_page, complete_load_activity, complete_load_more_activity,
  append_older, has_event,
}
use frontdashboard.Activity.Interleaving.{fits, Answers, IsKnown, Follows}

pub keeps-fits :
    (s t : State)
    → (t.activity ≡ s.activity) × (t.activity_filter ≡ s.activity_filter)
    → fits s.activity_filter s.activity ≡ true
    → fits t.activity_filter t.activity ≡ true
keeps-fits s t (e, f) h = rw e (rw f h)

pub all-append {ℓ} :
    {A : Type ℓ} (p : A → Bool) (xs ys : List A)
    → all p xs ≡ true
    → all p ys ≡ true
    → all p (xs ++ ys) ≡ true
all-append p [] ys h k = k
all-append p (x ∷ xs) ys h k = ground (arith, all-append p xs ys)

pub all-filter {ℓ} :
    {A : Type ℓ} (p q : A → Bool) (xs : List A) → all p xs ≡ true → all p (filter q xs) ≡ true
all-filter p q [] h = refl
all-filter p q (x ∷ xs) h = ground (arith, all-filter p q xs)

pub first_settled-Follows :
    (gen token : ℕ) (response : Option (List ActivityEvent)) (s : State)
    → Follows s (complete_load_activity gen token response s)
unfolding complete_load_activity
first_settled-Follows gen token none s = ground arith
first_settled-Follows gen token (some rows) s = ground arith

pub first_settled-filter :
    (gen token : ℕ) (response : Option (List ActivityEvent)) (s : State)
    → (complete_load_activity gen token response s).activity_filter ≡ s.activity_filter
unfolding complete_load_activity
first_settled-filter gen token none s = ground arith
first_settled-filter gen token (some rows) s = ground arith

-- A first page leaves the feed, or it is the newest one and replaces the feed.
pub first_settled-activity :
    (gen token : ℕ) (response : Option (List ActivityEvent)) (s : State)
    → ((complete_load_activity gen token response s).activity ≡ s.activity)
      ⊎ ((token ≡ s.activity_request_token)
          × (response ≡ some (complete_load_activity gen token response s).activity))
unfolding complete_load_activity
first_settled-activity gen token none s = ground arith
first_settled-activity gen token (some rows) s = ground arith

pub Answers-fits :
    (filter_id : String) (response : Option (List ActivityEvent)) (rows : List ActivityEvent)
    → Answers filter_id response
    → response ≡ some rows
    → fits filter_id rows ≡ true
Answers-fits filter_id response rows a e = subst (Answers filter_id) e a

pub first_settled-fits :
    (gen token : ℕ) (filter_id : String) (response : Option (List ActivityEvent)) (s : State)
    → fits s.activity_filter s.activity ≡ true
    → IsKnown s (first_page gen token filter_id)
    → Answers filter_id response
    → fits
        (complete_load_activity gen token response s).activity_filter
        (complete_load_activity gen token response s).activity
      ≡ true
first_settled-fits gen token filter_id response s h (b, k) a =
    elim (first_settled-activity gen token response s) [
      | inl e ↦
          keeps-fits s (complete_load_activity gen token response s)
            (e, first_settled-filter gen token response s) h
      | inr (e, r) ↦ rw (first_settled-filter gen token response s) (
          subst (λ f. fits f (complete_load_activity gen token response s).activity ≡ true) (k e)
            (Answers-fits filter_id response _ a r))
    ]

pub older_settled-Follows :
    (gen : ℕ) (filter_id : String) (response : Option (List ActivityEvent)) (s : State)
    → Follows s (complete_load_more_activity gen filter_id response s)
unfolding complete_load_more_activity
older_settled-Follows gen filter_id none s = ground arith
older_settled-Follows gen filter_id (some rows) s = ground arith

pub older_settled-filter :
    (gen : ℕ) (filter_id : String) (response : Option (List ActivityEvent)) (s : State)
    → (complete_load_more_activity gen filter_id response s).activity_filter ≡ s.activity_filter
unfolding complete_load_more_activity
older_settled-filter gen filter_id none s = ground arith
older_settled-filter gen filter_id (some rows) s = ground arith

pub append_older-fits :
    (filter_id : String) (older : List ActivityEvent) (s : State)
    → fits filter_id s.activity ≡ true
    → fits filter_id older ≡ true
    → fits filter_id (append_older older s).activity ≡ true
append_older-fits filter_id older s h k =
    all-append _ s.activity _ h (all-filter _ (λ e. not (has_event s.activity e.event_id)) older k)

-- An older page leaves the feed, or it was asked for under the present filter and joins the feed.
pub older_settled-activity :
    (gen : ℕ) (filter_id : String) (response : Option (List ActivityEvent)) (s : State)
    → ((complete_load_more_activity gen filter_id response s).activity ≡ s.activity)
      ⊎ ((older : List ActivityEvent) × (str_eq s.activity_filter filter_id ≡ true)
          × (response ≡ some older)
          × ((complete_load_more_activity gen filter_id response s).activity
              ≡ (append_older older s).activity))
unfolding complete_load_more_activity
older_settled-activity gen filter_id none s = inl (ground arith)
older_settled-activity gen filter_id (some rows) s =
    elim (Bool-cases (str_eq s.activity_filter filter_id)) [
      | inl e ↦ elim (Bool-cases (gen == s.generation)) [
        | inl g ↦ inr (rows, e, refl, ground arith)
        | inr g ↦ inl (ground arith)
      ]
      | inr e ↦ inl (ground arith)
    ]

pub older_settled-fits :
    (gen : ℕ) (filter_id : String) (response : Option (List ActivityEvent)) (s : State)
    → fits s.activity_filter s.activity ≡ true
    → Answers filter_id response
    → fits
        (complete_load_more_activity gen filter_id response s).activity_filter
        (complete_load_more_activity gen filter_id response s).activity
      ≡ true
older_settled-fits gen filter_id response s h a =
    elim (older_settled-activity gen filter_id response s) [
      | inl e ↦
          keeps-fits s (complete_load_more_activity gen filter_id response s)
            (e, older_settled-filter gen filter_id response s) h
      | inr (older, f, r, e) ↦ rw (older_settled-filter gen filter_id response s) (
          rw e (
            append_older-fits s.activity_filter older s h (
              subst (λ g. fits g older ≡ true) (sym ((eq_iff s.activity_filter filter_id).0 f))
                (Answers-fits filter_id response older a r))))
    ]

-- ===== src/Activity/Interleaving.antt =====
-- The feed with its requests in flight: filters, responses, the stream and sign-outs in any order.
use frontdashboard.Prelude.{
  ℕ, ◌≤◌, ◌<◌, ◌≡◌, String, Bool, true, false, Option, none, some, List, [], ◌∷◌, ◌++◌, all, ◌⊎◌,
}
use frontdashboard.Activity.{
  ActivityEvent, State, Request, first_page, older_page, event_types_for_activity_filter,
  is_shown_by, load_activity, complete_load_activity, load_more_activity,
  complete_load_more_activity, set_activity_filter, add_activity_from_sse, reset,
  activity_filter_all,
}

pub record World : Type 0 where
  pub state : State
  pub requests : List Request

abbrev pub at_rest : World
at_rest = record {
  state = record {
    generation = 0;
    activity_promise = false;
    activity_load_more_promise = false;
    activity_request_token = 0;
    activity = [];
    activity_loaded = false;
    activity_loading = false;
    activity_failed = false;
    activity_has_more = false;
    activity_loading_more = false;
    activity_filter = activity_filter_all;
  };
  requests = [];
}

-- The rows are of the types that the filter shows.
abbrev pub fits : String → List ActivityEvent → Bool
fits filter_id = all (is_shown_by (event_types_for_activity_filter filter_id))

-- What the endpoint promises: it answers with rows of the types that it was asked for.
abbrev pub Answers : String → Option (List ActivityEvent) → Type 0
Answers filter_id none = Unit
Answers filter_id (some rows) = fits filter_id rows ≡ true

-- The world after a call that gives a state and new requests.
abbrev pub after : World → State × List Request → World
after w r = record { state = r.0; requests = w.requests ++ r.1 }

pub data Step (w : World) : World → Type 0 where
  opened : (force : Bool) → Step w (after w (load_activity force w.state))
  scrolled : Step w (after w (load_more_activity w.state))
  filtered : (filter_id : String) → Step w (after w (set_activity_filter filter_id w.state))
  streamed :
      (event : ActivityEvent) (viewer_id : Option String)
      → Step w (after w (add_activity_from_sse event viewer_id w.state, []))
  signed_out : Step w (after w (reset w.state, []))
  first_settled :
      (before rest : List Request) (gen token : ℕ) (filter_id : String)
      (response : Option (List ActivityEvent))
      → w.requests ≡ before ++ (first_page gen token filter_id ∷ rest)
      → Answers filter_id response
      → Step w (record {
        state = complete_load_activity gen token response w.state;
        requests = before ++ rest;
      })
  older_settled :
      (before rest : List Request) (gen : ℕ) (filter_id : String) (last : ℕ)
      (response : Option (List ActivityEvent))
      → w.requests ≡ before ++ (older_page gen filter_id last ∷ rest)
      → Answers filter_id response
      → Step w (record {
        state = complete_load_more_activity gen filter_id response w.state;
        requests = before ++ rest;
      })

pub data Reach : World → Type 0 where
  here : Reach at_rest
  next : {w w' : World} → Reach w → Step w w' → Reach w'

-- The newest first page was asked for under the present filter.
abbrev pub IsKnown : State → Request → Type 0
IsKnown s (first_page gen token filter_id) =
    (token ≤ s.activity_request_token)
    × (token ≡ s.activity_request_token → filter_id ≡ s.activity_filter)
IsKnown s (older_page gen filter_id last) = Unit

-- The requests of a state stay known where the token and the filter stay, or the token grows.
abbrev pub Follows : State → State → Type 0
Follows s t =
    ((t.activity_request_token ≡ s.activity_request_token)
      × (t.activity_filter ≡ s.activity_filter))
    ⊎ (s.activity_request_token < t.activity_request_token)

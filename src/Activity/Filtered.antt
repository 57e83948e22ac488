-- ===== src/Activity/Filtered.antt =====
-- The rows of the feed against the filter, over every interleaving.
use frontdashboard.Prelude.{
  ◌≡◌, sym, subst, refl, inl, inr, true, List, [], ◌∷◌, ◌++◌, All, All-append, All_imp, ◌∙◌, arith,
}
use frontdashboard.Activity.{
  State, Request, first_page, older_page, load_activity, complete_load_activity, load_more_activity,
  complete_load_more_activity, set_activity_filter, add_activity_from_sse, reset,
}
use frontdashboard.Activity.Interleaving.{
  opened, scrolled, filtered, streamed, signed_out, first_settled, older_settled, here, next, World,
  fits, after, Step, Reach, IsKnown, Follows,
}
use frontdashboard.Activity.Responses.{
  keeps-fits, first_settled-Follows, first_settled-fits, older_settled-Follows, older_settled-fits,
}
use frontdashboard.Activity.Actions.{
  load-Follows, load-keeps, load-IsKnown, load_more-keeps, load_more-Follows, load_more-IsKnown,
  load_from-IsKnown, set_activity_filter-Follows, set_activity_filter-fits, streamed-Follows,
  streamed-fits, reset-Follows, reset-fits,
}

pub record IsFiltered (w : World) : Type 0 where
  pub fitting : fits w.state.activity_filter w.state.activity ≡ true
  pub known : All (IsKnown w.state) w.requests

pub IsKnown-Follows : (s t : State) (r : Request) → Follows s t → IsKnown s r → IsKnown t r
IsKnown-Follows s t (first_page gen token filter_id) (inl (e, f)) (b, h) =
    (omega arith, λ q. h (omega arith) ∙ sym f)
IsKnown-Follows s t (first_page gen token filter_id) (inr l) (b, h) =
    (omega arith, λ q. absurd (omega arith))
IsKnown-Follows s t (older_page gen filter_id last) f h = tt

pub after-IsFiltered :
    (w : World) (r : State × List Request)
    → IsFiltered w
    → Follows w.state r.0
    → fits r.0.activity_filter r.0.activity ≡ true
    → All (IsKnown r.0) r.1
    → IsFiltered (after w r)
after-IsFiltered w r v f h k = record {
  fitting = h;
  known =
      All-append (IsKnown r.0) w.requests r.1
        (All_imp w.requests (λ q p. IsKnown-Follows w.state r.0 q f p) v.known) k;
}

pub All-split {κ} :
    (P : Request → Type κ) (before rest : List Request) (r : Request)
    → All P (before ++ (r ∷ rest))
    → P r × All P (before ++ rest)
All-split P [] rest r h = h
All-split P (x ∷ xs) rest r (p, h) = let (q, k) = All-split P xs rest r h in (q, (p, k))

-- A response writes to the feed and leaves the other requests.
pub settled-IsFiltered :
    (w : World) (t : State) (before rest : List Request) (r : Request)
    → w.requests ≡ before ++ (r ∷ rest)
    → IsFiltered w
    → Follows w.state t
    → (IsKnown w.state r → fits t.activity_filter t.activity ≡ true)
    → IsFiltered (record { state = t; requests = before ++ rest })
settled-IsFiltered w t before rest r e v f h =
    let (p, q) =
      All-split (IsKnown w.state) before rest r (subst (All (IsKnown w.state)) e v.known) in
    record {
      fitting = h p;
      known = All_imp (before ++ rest) (λ x k. IsKnown-Follows w.state t x f k) q;
    }

pub Step-IsFiltered : {w w' : World} → IsFiltered w → Step w w' → IsFiltered w'
Step-IsFiltered {w} v (opened force) =
    after-IsFiltered w (load_activity force w.state) v (load-Follows force w.state)
      (keeps-fits w.state (load_activity force w.state).0 (load-keeps force w.state) v.fitting)
      (load-IsKnown force w.state)
Step-IsFiltered {w} v scrolled =
    after-IsFiltered w (load_more_activity w.state) v (load_more-Follows w.state)
      (keeps-fits w.state (load_more_activity w.state).0 (load_more-keeps w.state) v.fitting)
      (load_more-IsKnown w.state)
Step-IsFiltered {w} v (filtered filter_id) =
    after-IsFiltered w (set_activity_filter filter_id w.state) v
      (set_activity_filter-Follows filter_id w.state)
      (set_activity_filter-fits filter_id w.state v.fitting) (load_from-IsKnown filter_id w.state)
Step-IsFiltered {w} v (streamed event viewer_id) =
    after-IsFiltered w (add_activity_from_sse event viewer_id w.state, []) v
      (streamed-Follows event viewer_id w.state) (streamed-fits event viewer_id w.state v.fitting)
      tt
Step-IsFiltered {w} v signed_out =
    after-IsFiltered w (reset w.state, []) v (reset-Follows w.state) (reset-fits w.state) tt
Step-IsFiltered {w} v (first_settled before rest gen token filter_id response e a) =
    settled-IsFiltered w (complete_load_activity gen token response w.state) before rest
      (first_page gen token filter_id) e v (first_settled-Follows gen token response w.state)
      (λ k. first_settled-fits gen token filter_id response w.state v.fitting k a)
Step-IsFiltered {w} v (older_settled before rest gen filter_id last response e a) =
    settled-IsFiltered w (complete_load_more_activity gen filter_id response w.state) before rest
      (older_page gen filter_id last) e v (older_settled-Follows gen filter_id response w.state)
      (λ k. older_settled-fits gen filter_id response w.state v.fitting a)

-- Whatever order the user's filters and scrolling, the stream, sign-outs and the responses of the
-- requests in flight come in, the feed only holds rows of the types that the present filter shows;
-- each response is assumed to hold rows of the types that its own request asked for.
pub Reach-IsFiltered : {w : World} → Reach w → fits w.state.activity_filter w.state.activity ≡ true
Reach-IsFiltered r = (filtered_world r).fitting
  where
    filtered_world : {w : World} → Reach w → IsFiltered w
    filtered_world here = record { fitting = refl; known = tt }
    filtered_world (next r s) = Step-IsFiltered (filtered_world r) s

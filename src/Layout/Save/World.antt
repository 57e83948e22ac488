-- ===== src/Layout/Save/World.antt =====
-- Interleavings of layout saves: the store's state with every drain that waits for a response.
use frontdashboard.Prelude.{
  ℕ, ◌+◌, ◌≡◌, String, Bool, false, Option, none, List, [], ◌∷◌, ◌++◌, if◌then◌else◌, ◌==◌,
}
use frontdashboard.DashboardTypes.{Dashboard, LayoutItem}
use frontdashboard.Layout.Save.{
  State, Drain, putting, rebasing, PendingLayoutSave, PutResponse, save_layout, resume_put,
  resume_rebase, reset,
}

pub record World : Type 0 where
  pub state : State
  pub drains : List Drain

abbrev pub generation_of : Drain → ℕ
generation_of (putting gen _ _) = gen
generation_of (rebasing gen _ _) = gen

-- How many of the drains belong to the session.
abbrev pub live : ℕ → List Drain → ℕ
live gen [] = 0
live gen (d ∷ ds) = (if generation_of d == gen then 1 else 0) + live gen ds

abbrev pub at_rest : World
at_rest = record {
  state = record {
    generation = 0;
    layout_save_in_flight = false;
    pending_layout_save = none;
    dashboard = none;
    conflict = false;
    toasts = [];
  };
  drains = [];
}

-- `visited` stands for every other action of the store: it may show another dashboard, or none, and
-- set the conflict and the toasts.
pub data Step (w : World) : World → Type 0 where
  asked :
      (layout : List LayoutItem) (gesture : Option String) {w' : World}
      → w'.state ≡ (save_layout layout gesture w.state).0
      → w'.drains ≡ w.drains ++ (save_layout layout gesture w.state).1
      → Step w w'
  put_settled :
      (before after : List Drain) (gen : ℕ) (current : Dashboard) (pending : PendingLayoutSave)
      (response : PutResponse) {w' : World}
      → w.drains ≡ before ++ (putting gen current pending ∷ after)
      → w'.state ≡ (resume_put gen current pending response w.state).0
      → w'.drains ≡ before ++ ((resume_put gen current pending response w.state).1 ++ after)
      → Step w w'
  rebase_settled :
      (before after : List Drain) (gen : ℕ) (current : Dashboard) (pending : PendingLayoutSave)
      (server : Option Dashboard) {w' : World}
      → w.drains ≡ before ++ (rebasing gen current pending ∷ after)
      → w'.state ≡ (resume_rebase gen current pending server w.state).0
      → w'.drains ≡ before ++ ((resume_rebase gen current pending server w.state).1 ++ after)
      → Step w w'
  signed_out : {w' : World} → w'.state ≡ reset w.state → w'.drains ≡ w.drains → Step w w'
  visited :
      (dashboard : Option Dashboard) (conflict : Bool) (toasts : List String) {w' : World}
      → w'.state ≡ record (w.state) { dashboard = dashboard; conflict = conflict; toasts = toasts }
      → w'.drains ≡ w.drains
      → Step w w'

pub data Reach : World → Type 0 where
  here : Reach at_rest
  next : {w w' : World} → Reach w → Step w w' → Reach w'

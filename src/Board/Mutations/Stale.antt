-- ===== src/Board/Mutations/Stale.antt =====
-- Answers to the mutations of an earlier session, in a tab where much else happens.
use frontdashboard.Prelude.{
  ℕ, ◌≡◌, ◌≢◌, ◌≤◌, inl, inr, ◌⊎◌, String, Bool, true, false, Option, none, some, List, [], arith,
}
use frontdashboard.DashboardTypes.{Dashboard, DashboardSummary, DashboardWidget}
use frontdashboard.ListTypes.{ListSummary}
use frontdashboard.Board.{State, reset_dashboard_data}
use frontdashboard.Board.Listing.{Read, load_trash}
use frontdashboard.Board.Mutations.{
  Created, toast, complete_create, complete_delete, complete_leave, complete_restore,
  complete_purge, complete_toggle_favorite, complete_rename, complete_transfer, complete_add_widget,
  complete_remove_widget, complete_update_widget,
}

-- The answer to a mutation, a success or a failure.
pub data Answer : Type 0 where
  created : Option Created → Answer
  deleted left : String → Bool → Answer
  restored : String → DashboardSummary ⊎ String → Answer
  purged : String → Option String → Answer
  toggled : String → Bool → Option (List String) → Answer
  renamed transferred : String → Option DashboardSummary → Answer
  widget_added : (Dashboard × Option ListSummary) ⊎ String → Answer
  widget_removed : Option Dashboard → Answer
  widget_updated : String → Option DashboardWidget → Answer

-- The message of a failure.
abbrev pub failure : Answer → Option String
failure (created none) = some "Failed to create dashboard."
failure (deleted id false) = some "Failed to delete dashboard."
failure (left id false) = some "Failed to leave dashboard."
failure (restored id (inr message)) = some message
failure (purged id (some message)) = some message
failure (toggled id current none) = some "Failed to update favorite."
failure (renamed id none) = some "Failed to rename dashboard."
failure (transferred id none) = some "Failed to transfer ownership."
failure (widget_added (inr message)) = some message
failure (widget_removed none) = some "Failed to remove widget."
failure (widget_updated id none) = some "Failed to update widget."
failure _ = none

abbrev pub told : Option String → State → State
told none s = s
told (some message) s = toast message s

module _ (locale_leq : String → String → Bool) where
  -- The state, the reads that are sent, and the list that is handed to the list caches.
  unfoldable pub answered : ℕ → Answer → State → State × List Read × Option ListSummary
  unfolding complete_create complete_delete complete_leave complete_restore complete_purge
      complete_toggle_favorite complete_rename complete_transfer complete_add_widget
      complete_remove_widget complete_update_widget
  answered gen (created r) s = ((complete_create gen r s).0, [], none)
  answered gen (deleted id r) s =
      let (shown, reads) = (complete_delete gen id r s).0 in (shown, reads, none)
  answered gen (left id r) s = ((complete_leave gen id r s).0, [], none)
  answered gen (restored id r) s = ((complete_restore locale_leq gen id r s).0, [], none)
  answered gen (purged id r) s = ((complete_purge gen id r s).0, [], none)
  answered gen (toggled id current r) s =
      ((complete_toggle_favorite gen id current r s).0, [], none)
  answered gen (renamed id r) s = ((complete_rename locale_leq gen id r s).0, [], none)
  answered gen (transferred id r) s = ((complete_transfer locale_leq gen id r s).0, [], none)
  answered gen (widget_added r) s =
      let (shown, list) = (complete_add_widget gen r s).0 in (shown, [], list)
  answered gen (widget_removed r) s = ((complete_remove_widget gen r s).0, [], none)
  answered gen (widget_updated id r) s = ((complete_update_widget gen id r s).0, [], none)

  -- What happens in a tab: an answer to a mutation of any session, a sign-in or sign-out, or whatever
  -- else leaves the generation, as each load and each frame does.
  pub data BoardStep (s : State) : State → Type 0 where
    answer_came : (gen : ℕ) (answer : Answer) → BoardStep s (answered gen answer s).0
    boundary : BoardStep s (reset_dashboard_data s)
    other : (s' : State) → s'.generation ≡ s.generation → BoardStep s s'

  pub data BoardSince (s : State) : State → Type 0 where
    now : BoardSince s s
    later : {s' s'' : State} → BoardSince s s' → BoardStep s' s'' → BoardSince s s''

  -- A late answer shows the message of a failure and changes nothing else.
  late_answer :
      (gen : ℕ) (answer : Answer) (s : State)
      → gen ≢ s.generation
      → answered gen answer s ≡ (told (failure answer) s, [], none)
  unfolding answered
  late_answer gen (created none) s old = ground arith
  late_answer gen (created (some r)) s old = ground arith
  late_answer gen (deleted id true) s old = ground arith
  late_answer gen (deleted id false) s old = ground arith
  late_answer gen (left id true) s old = ground arith
  late_answer gen (left id false) s old = ground arith
  late_answer gen (restored id (inl r)) s old = ground arith
  late_answer gen (restored id (inr r)) s old = ground arith
  late_answer gen (purged id none) s old = ground arith
  late_answer gen (purged id (some r)) s old = ground arith
  late_answer gen (toggled id current none) s old = ground arith
  late_answer gen (toggled id current (some r)) s old = ground arith
  late_answer gen (renamed id none) s old = ground arith
  late_answer gen (renamed id (some r)) s old = ground arith
  late_answer gen (transferred id none) s old = ground arith
  late_answer gen (transferred id (some r)) s old = ground arith
  late_answer gen (widget_added (inl (r, list))) s old = ground arith
  late_answer gen (widget_added (inr r)) s old = ground arith
  late_answer gen (widget_removed none) s old = ground arith
  late_answer gen (widget_removed (some r)) s old = ground arith
  late_answer gen (widget_updated id none) s old = ground arith
  late_answer gen (widget_updated id (some r)) s old = ground arith

  answered-generation :
      (gen : ℕ) (answer : Answer) (s : State) → (answered gen answer s).0.generation ≡ s.generation
  unfolding answered load_trash
  answered-generation gen (created none) s = ground arith
  answered-generation gen (created (some r)) s = ground arith
  answered-generation gen (deleted id true) s = ground arith
  answered-generation gen (deleted id false) s = ground arith
  answered-generation gen (left id true) s = ground arith
  answered-generation gen (left id false) s = ground arith
  answered-generation gen (restored id (inl r)) s = ground arith
  answered-generation gen (restored id (inr r)) s = ground arith
  answered-generation gen (purged id none) s = ground arith
  answered-generation gen (purged id (some r)) s = ground arith
  answered-generation gen (toggled id current none) s = ground arith
  answered-generation gen (toggled id current (some r)) s = ground arith
  answered-generation gen (renamed id none) s = ground arith
  answered-generation gen (renamed id (some r)) s = ground arith
  answered-generation gen (transferred id none) s = ground arith
  answered-generation gen (transferred id (some r)) s = ground arith
  answered-generation gen (widget_added (inl (r, list))) s = ground arith
  answered-generation gen (widget_added (inr r)) s = ground arith
  answered-generation gen (widget_removed none) s = ground arith
  answered-generation gen (widget_removed (some r)) s = ground arith
  answered-generation gen (widget_updated id none) s = ground arith
  answered-generation gen (widget_updated id (some r)) s = ground arith

  BoardStep-grows : {s s' : State} → BoardStep s s' → s.generation ≤ s'.generation
  unfolding reset_dashboard_data
  BoardStep-grows {s} (answer_came gen answer) = omega (arith, answered-generation gen answer s)
  BoardStep-grows {s} boundary = omega arith
  BoardStep-grows {s} (other s' same) = omega (arith, same)

  BoardSince-grows : {s s' : State} → BoardSince s s' → s.generation ≤ s'.generation
  BoardSince-grows now = omega arith
  BoardSince-grows (later h step) = omega (arith, BoardSince-grows h, BoardStep-grows step)

  -- A mutation of the listing, the trash, the favourites or the widgets is requested, and then someone
  -- signs in or out. However much has happened before that and since, the answer changes nothing of the
  -- board's state, sends no read and hands no list to the list caches; a failure shows its message.
  pub late_mutation_lem :
      (answer : Answer) (s s₁ s₂ : State)
      → BoardSince s s₁
      → BoardSince (reset_dashboard_data s₁) s₂
      → answered s.generation answer s₂ ≡ (told (failure answer) s₂, [], none)
  unfolding reset_dashboard_data
  late_mutation_lem answer s s₁ s₂ before since =
      late_answer s.generation answer s₂
        (omega (arith, BoardSince-grows before, BoardSince-grows since))

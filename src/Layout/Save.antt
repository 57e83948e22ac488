-- ===== src/Layout/Save.antt =====
-- frontend/src/stores/dashboard.ts, `saveLayout`: one drain at a time sends the newest layout.
-- The drain is split at its two `await`s, the PUT and the re-read of a rebase. A drain remembers
-- the session's generation at its start (`sessionGuard`), and several may exist: those of earlier
-- sessions are still waiting for their responses. A toast is its text.
pub mod World
mod Continues
pub mod Serial
pub mod Stale
pub mod Outcomes
mod Tests
use frontdashboard.Prelude.{
  ℕ, suc, String, Bool, true, false, not, Option, none, some, List, [], ◌∷◌, ◌++◌, str_eq, or_else,
  if◌then◌else◌, ◌==◌, ◌&&◌,
}
use frontdashboard.DashboardTypes.{Dashboard, DashboardWidget, LayoutItem}
use frontdashboard.Layout.Rebase.{rebase_layout}

pub record PendingLayoutSave : Type 0 where
  pub dashboard_id : String
  pub layout : List LayoutItem
  pub gesture : Option String
  pub retried : Bool

-- The part of the store and of the module's variables that saving a layout touches.
pub record State : Type 0 where
  pub generation : ℕ
  pub layout_save_in_flight : Bool
  pub pending_layout_save : Option PendingLayoutSave
  pub dashboard : Option Dashboard
  pub conflict : Bool
  pub toasts : List String

-- What a waiting drain waits for, with its local variables: the generation, `current`, `pending`.
pub data Drain : Type 0 where
  putting : ℕ → Dashboard → PendingLayoutSave → Drain
  rebasing : ℕ → Dashboard → PendingLayoutSave → Drain

-- The response of the PUT: the saved dashboard, a 409, or an exception.
pub data PutResponse : Type 0 where
  saved : Dashboard → PutResponse
  conflicted : PutResponse
  failed : PutResponse

-- `return` or the end of the loop: the `finally` block.
unfoldable pub finish : ℕ → State → State × List Drain
finish gen s =
    (record s { layout_save_in_flight = not (gen == s.generation) && s.layout_save_in_flight }, [])

-- The loop from its test to its next `await`. Where the dashboard was closed or changed, `continue`
-- finds the pending save taken, and the loop ends.
unfoldable pub advance : ℕ → State → State × List Drain
unfolding finish
advance gen s = elim s.pending_layout_save [
  | none ↦ finish gen s
  | some pending ↦
      if not (gen == s.generation)
      then finish gen s
      else let taken = record s { pending_layout_save = none } in
        elim s.dashboard [
          | none ↦ finish gen taken
          | some current ↦
              if str_eq current.id pending.dashboard_id
              then (taken, putting gen current pending ∷ [])
              else finish gen taken
        ]
]

-- Only the newest request is kept, and a drain that is running takes it.
unfoldable pub enqueue : PendingLayoutSave → State → State × List Drain
unfolding advance
enqueue pending s =
    if s.layout_save_in_flight
    then (record s { pending_layout_save = some pending }, [])
    else advance s.generation
        (record s { pending_layout_save = some pending; layout_save_in_flight = true })

abbrev pub request : Dashboard → List LayoutItem → Option String → PendingLayoutSave
request dashboard layout gesture = record {
  dashboard_id = dashboard.id;
  layout = layout;
  gesture = gesture;
  retried = false;
}

unfoldable pub save_layout : List LayoutItem → Option String → State → State × List Drain
unfolding enqueue
save_layout layout gesture s = elim s.dashboard [
  | none ↦ (s, [])
  | some dashboard ↦ enqueue (request dashboard layout gesture) s
]

-- The widgets that are kept over a save: the held ones, if a dashboard is held.
abbrev pub kept_widgets : Option Dashboard → Dashboard → List DashboardWidget
kept_widgets none result = result.widgets
kept_widgets (some held) result = held.widgets

unfoldable pub resume_put :
    ℕ → Dashboard → PendingLayoutSave → PutResponse → State → State × List Drain
unfolding advance
resume_put gen current pending failed s =
    finish gen
      (record s { pending_layout_save = none; toasts = "Failed to save layout." ∷ s.toasts })
resume_put gen current pending conflicted s =
    if not (gen == s.generation)
    then finish gen s
    else if pending.retried
    then finish gen (record s { pending_layout_save = none; conflict = true })
    else (s, rebasing gen current pending ∷ [])
resume_put gen current pending (saved result) s =
    if not (gen == s.generation)
    then finish gen s
    else advance gen (record s {
      dashboard = some (record result { widgets = kept_widgets s.dashboard result });
      conflict = false;
    })

abbrev pub with_version : ℕ → Option Dashboard → Option Dashboard
with_version version none = none
with_version version (some dashboard) = some (record dashboard { version = version })

-- `pendingLayoutSave ??= replay`
abbrev pub or_replay : Option PendingLayoutSave → PendingLayoutSave → Option PendingLayoutSave
or_replay none replay = some replay
or_replay (some newer) replay = some newer

unfoldable pub resume_rebase :
    ℕ → Dashboard → PendingLayoutSave → Option Dashboard → State → State × List Drain
unfolding advance rebase_layout
resume_rebase gen current pending server s =
    if not (gen == s.generation) then finish gen s else elim (rebase_layout pending.layout server) [
      | none ↦ finish gen (record s { pending_layout_save = none; conflict = true })
      | some (layout, version) ↦ advance gen (record s {
        dashboard = with_version version s.dashboard;
        pending_layout_save = or_replay s.pending_layout_save (record {
          dashboard_id = pending.dashboard_id;
          layout = layout;
          gesture = pending.gesture;
          retried = true;
        });
      })
    ]

-- `resetDashboardData`, on this part.
unfoldable pub reset : State → State
reset s = record s {
  generation = suc s.generation;
  layout_save_in_flight = false;
  pending_layout_save = none;
  dashboard = none;
  conflict = false;
}

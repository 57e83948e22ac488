-- ===== src/Board/Mutations.antt =====
-- frontend/src/stores/dashboard.ts: the mutations of the listing, each from its response on. The
-- result is the state, and what the action returns. A failure is the message that it shows.
pub mod Stale
pub mod Laws
use frontdashboard.Prelude.{
  ℕ, String, Bool, true, false, not, ◌==◌, ◌&&◌, Option, none, some, List, [], ◌∷◌, ◌++◌,
  if◌then◌else◌, str_eq, filter, map, ◌⊎◌, inl, inr,
}
use frontdashboard.DashboardTypes.{
  Dashboard, DashboardSummary, TrashedDashboard, LayoutItem, DashboardWidget,
}
use frontdashboard.ListTypes.{ListSummary}
use frontdashboard.DashboardEvents.{sort_dashboard_summaries}
use frontdashboard.Board.{State, guarded}
use frontdashboard.Board.Listing.{Read, load_trash}

-- `DashboardCreated`: a listing row with the board.
pub record Created : Type 0 where
  pub summary : DashboardSummary
  pub layout : List LayoutItem
  pub widgets : List DashboardWidget

abbrev pub board_of : Created → Dashboard
board_of created = record {
  id = created.summary.id;
  name = created.summary.name;
  user_id = created.summary.user_id;
  version = created.summary.version;
  is_favorite = created.summary.is_favorite;
  is_shared = created.summary.is_shared;
  can_edit = created.summary.can_edit;
  can_manage_shares = created.summary.can_manage_shares;
  layout = created.layout;
  widgets = created.widgets;
}

abbrev pub toast : String → State → State
toast message s = record s { toasts = message ∷ s.toasts }

-- The held dashboard, changed if it is the named one.
abbrev pub on_held : String → (Dashboard → Dashboard) → Option Dashboard → Option Dashboard
on_held id change none = none
on_held id change (some held) = if str_eq held.id id then some (change held) else some held

abbrev pub without : String → List DashboardSummary → List DashboardSummary
without id = filter (λ (d : DashboardSummary). not (str_eq d.id id))

abbrev pub out_of_trash : String → List TrashedDashboard → List TrashedDashboard
out_of_trash id = filter (λ (t : TrashedDashboard). not (str_eq t.id id))

abbrev pub replaced : String → DashboardSummary → List DashboardSummary → List DashboardSummary
replaced id updated = map (λ (d : DashboardSummary). if str_eq d.id id then updated else d)

unfoldable pub complete_create : ℕ → Option Created → State → State × Option DashboardSummary
complete_create gen none s = (toast "Failed to create dashboard." s, none)
complete_create gen (some created) s = (
  guarded gen
      (λ t. record t {
        summaries = created.summary ∷ t.summaries;
        dashboard = some (board_of created);
        conflict = false;
        load_error = false;
      })
      s,
  some created.summary,
)

-- A deletion refreshes the trash where it was loaded.
unfoldable pub complete_delete : ℕ → String → Bool → State → (State × List Read) × Bool
unfolding load_trash
complete_delete gen id false s = ((toast "Failed to delete dashboard." s, []), false)
complete_delete gen id true s =
    let shown = guarded gen (λ t. record t { summaries = without id t.summaries }) s in
    (
      if gen == shown.generation && shown.trash_loaded then load_trash true shown else (shown, []),
      true,
    )

-- The held dashboard, unless it is the named one.
abbrev pub closed : String → Option Dashboard → Option Dashboard
closed id none = none
closed id (some held) = if str_eq held.id id then none else some held

unfoldable pub complete_leave : ℕ → String → Bool → State → State × Bool
complete_leave gen id false s = (toast "Failed to leave dashboard." s, false)
complete_leave gen id true s = (
  guarded gen
      (λ t. record t { summaries = without id t.summaries; dashboard = closed id t.dashboard }) s,
  true,
)

-- The deleted row comes back from the response.
unfoldable pub complete_restore :
    (String → String → Bool)
    → ℕ
    → String
    → DashboardSummary ⊎ String
    → State
    → State × Option DashboardSummary
unfolding sort_dashboard_summaries
complete_restore locale_leq gen id (inr message) s = (toast message s, none)
complete_restore locale_leq gen id (inl summary) s = (
  guarded gen
      (λ t. record t {
        trash = out_of_trash id t.trash;
        summaries = sort_dashboard_summaries locale_leq (summary ∷ without id t.summaries);
      })
      s,
  some summary,
)

unfoldable pub complete_purge : ℕ → String → Option String → State → State × Bool
complete_purge gen id (some message) s = (toast message s, false)
complete_purge gen id none s =
    (guarded gen (λ t. record t { trash = out_of_trash id t.trash }) s, true)

-- The ids that `toggleFavorite` sends; `current` is whether the dashboard is a favorite.
unfoldable pub next_favorite_ids : String → Bool → List String → List String
next_favorite_ids id current favorite_ids =
    let others = filter (λ favorite_id. not (str_eq favorite_id id)) favorite_ids in
    if current then others else others ++ id ∷ []

-- The response of `toggleFavorite` holds the favorites of the updated user.
unfoldable pub complete_toggle_favorite :
    ℕ → String → Bool → Option (List String) → State → State × Bool
complete_toggle_favorite gen id current none s = (toast "Failed to update favorite." s, false)
complete_toggle_favorite gen id current (some favorite_ids) s =
    if not (gen == s.generation) then (s, false) else (
      record s {
        favorite_dashboard_ids = favorite_ids;
        summaries =
            map
              (λ (d : DashboardSummary).
                if str_eq d.id id then record d { is_favorite = not current } else d)
              s.summaries;
        dashboard = on_held id (λ d. record d { is_favorite = not current }) s.dashboard;
      },
      true,
    )

unfoldable pub complete_rename :
    (String → String → Bool) → ℕ → String → Option DashboardSummary → State → State × Bool
unfolding sort_dashboard_summaries
complete_rename locale_leq gen id none s = (toast "Failed to rename dashboard." s, false)
complete_rename locale_leq gen id (some updated) s = (
  guarded gen
      (λ t. record t {
        summaries = sort_dashboard_summaries locale_leq (replaced id updated t.summaries);
        dashboard =
            on_held id (λ d. record d { name = updated.name; version = updated.version })
              t.dashboard;
      })
      s,
  true,
)

unfoldable pub complete_transfer :
    (String → String → Bool) → ℕ → String → Option DashboardSummary → State → State × Bool
unfolding sort_dashboard_summaries
complete_transfer locale_leq gen id none s = (toast "Failed to transfer ownership." s, false)
complete_transfer locale_leq gen id (some updated) s = (
  guarded gen
      (λ t. record t {
        summaries = sort_dashboard_summaries locale_leq (replaced id updated t.summaries);
        dashboard =
            on_held id
              (λ d. record d {
                user_id = updated.user_id;
                can_edit = updated.can_edit;
                can_manage_shares = updated.can_manage_shares;
              })
              t.dashboard;
      })
      s,
  true,
)

-- With the board comes the list that was created for the widget, if one was; the caller's caches take
-- the list that is given beside the state.
unfoldable pub complete_add_widget :
    ℕ → (Dashboard × Option ListSummary) ⊎ String → State → (State × Option ListSummary) × Bool
complete_add_widget gen (inr message) s = ((toast message s, none), false)
complete_add_widget gen (inl (updated, created_list)) s =
    let shown = guarded gen (λ t. record t { dashboard = some updated }) s in
    ((shown, if gen == shown.generation then created_list else none), true)

unfoldable pub complete_remove_widget : ℕ → Option Dashboard → State → State × Bool
complete_remove_widget gen none s = (toast "Failed to remove widget." s, false)
complete_remove_widget gen (some updated) s =
    (guarded gen (λ t. record t { dashboard = some updated }) s, true)

abbrev pub with_widget : String → DashboardWidget → Dashboard → Dashboard
with_widget widget_id updated d = record d {
  widgets = map (λ (w : DashboardWidget). if str_eq w.id widget_id then updated else w) d.widgets;
}

abbrev pub on_any : (Dashboard → Dashboard) → Option Dashboard → Option Dashboard
on_any change none = none
on_any change (some held) = some (change held)

unfoldable pub complete_update_widget : ℕ → String → Option DashboardWidget → State → State × Bool
complete_update_widget gen widget_id none s = (toast "Failed to update widget." s, false)
complete_update_widget gen widget_id (some updated) s = (
  guarded gen (λ t. record t { dashboard = on_any (with_widget widget_id updated) t.dashboard }) s,
  true,
)

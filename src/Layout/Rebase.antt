-- ===== src/Layout/Rebase.antt =====
-- frontend/src/stores/dashboard.ts, `rebaseLayout`: a drag replayed on the server's layout.
pub mod Laws
use frontdashboard.Prelude.{
  ℕ, String, Bool, true, false, not, Option, none, some, List, [], ◌∷◌, ◌++◌, map, filter, any,
  for_each, str_eq, or_else,
}
use frontdashboard.Prelude.Dict.{get, set}
use frontdashboard.DashboardTypes.{Dashboard, LayoutItem}

-- `new Map(layout.map((item) => [item.i, item]))`
unfoldable pub by_widget : List LayoutItem → List (String × LayoutItem)
by_widget layout = for_each (λ m (item : LayoutItem). set item.i item m) [] layout

abbrev pub positions : String → List LayoutItem → Bool
positions id = any (λ item. str_eq item.i id)

-- Our item for the widget where there is one.
abbrev pub ours_first : List (String × LayoutItem) → LayoutItem → LayoutItem
ours_first ours item = or_else (get item.i ours) item

unfoldable pub merge_layout : (ours server : List LayoutItem) → List LayoutItem
unfolding by_widget
merge_layout ours server =
    map (ours_first (by_widget ours)) server ++ filter (λ item. not (positions item.i server)) ours

-- `none`: the dashboard could not be read again.
unfoldable pub rebase_layout : List LayoutItem → Option Dashboard → Option (List LayoutItem × ℕ)
unfolding merge_layout
rebase_layout layout none = none
rebase_layout layout (some server) = some (merge_layout layout server.layout, server.version)

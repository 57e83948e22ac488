-- ===== src/Board/Mutations/Laws.antt =====
-- What the mutations leave in the listing, the trash and the favorites.
use frontdashboard.Prelude.{
  ◌≡◌, inl, refl, String, Bool, false, not, ◌&&◌, ◌||◌, if◌then◌else◌, List, [], ◌∷◌, any,
  any-append, any-filter, includes, filter, str_eq, arith, ap, eq_iff,
}
use frontdashboard.Prelude.Sort.{IsChained, IsTotal}
use frontdashboard.DashboardTypes.{DashboardSummary, TrashedDashboard}
use frontdashboard.DashboardEvents.{sort_dashboard_summaries, summary_leq}
use frontdashboard.DashboardEvents.Summaries.{sort_dashboard_summaries_lem}
use frontdashboard.Board.{State}
use frontdashboard.Board.Mutations.{complete_restore, next_favorite_ids, without, out_of_trash}

restored_summaries :
    (locale_leq : String → String → Bool) (s : State) (id : String) (summary : DashboardSummary)
    → (complete_restore locale_leq s.generation id (inl summary) s).0.summaries
      ≡ sort_dashboard_summaries locale_leq (summary ∷ without id s.summaries)
unfolding complete_restore
restored_summaries locale_leq s id summary = ground arith

restored_trash :
    (locale_leq : String → String → Bool) (s : State) (id : String) (summary : DashboardSummary)
    → (complete_restore locale_leq s.generation id (inl summary) s).0.trash
      ≡ out_of_trash id s.trash
unfolding complete_restore
restored_trash locale_leq s id summary = ground arith

any-out_of_trash :
    (id : String) (ts : List TrashedDashboard)
    → any (λ (r : TrashedDashboard). str_eq r.id id) (out_of_trash id ts) ≡ false
any-out_of_trash id [] = refl
any-out_of_trash id (t ∷ ts) = ground (arith, any-out_of_trash id ts)

-- After a restoration, for a total order of the time texts: the listing is in its order, and holds
-- the restored row and the rows of other dashboards; the trash holds no row of the dashboard.
pub complete_restore_lem :
    (locale_leq : String → String → Bool) (s : State) (id : String) (summary : DashboardSummary)
    (p : DashboardSummary → Bool)
    → IsTotal locale_leq
    → let t = (complete_restore locale_leq s.generation id (inl summary) s).0 in
      IsChained (summary_leq locale_leq) t.summaries
      × (any p t.summaries ≡ (p summary || any (λ d. not (str_eq d.id id) && p d) s.summaries))
      × (any (λ (r : TrashedDashboard). str_eq r.id id) t.trash ≡ false)
complete_restore_lem locale_leq s id summary p total =
    let listed = summary ∷ without id s.summaries in
    let sorted = sort_dashboard_summaries_lem locale_leq listed p total in
    (
      rw (restored_summaries locale_leq s id summary) sorted.0,
      rw (restored_summaries locale_leq s id summary) (
          rw sorted.1
            (ap (λ b. p summary || b) (any-filter p (λ d. not (str_eq d.id id)) s.summaries))),
      rw (restored_trash locale_leq s id summary) (any-out_of_trash id s.trash),
    )

includes-filter_others :
    (id other : String) (xs : List String)
    → includes (filter (λ x. not (str_eq x id)) xs) other
      ≡ (if str_eq id other then false else includes xs other)
includes-filter_others id other [] = ground arith
includes-filter_others id other (x ∷ xs) =
    ground (arith, includes-filter_others id other xs, eq_iff x other, eq_iff x id, eq_iff id other)

-- The favorites that are sent hold the dashboard exactly if it is not said to be one, and every other
-- favorite as before.
pub includes-next_favorite_ids :
    (id : String) (current : Bool) (favorite_ids : List String) (other : String)
    → includes (next_favorite_ids id current favorite_ids) other
      ≡ (if str_eq id other then not current else includes favorite_ids other)
unfolding next_favorite_ids
includes-next_favorite_ids id current favorite_ids other = ground (
  arith,
  includes-filter_others id other favorite_ids,
  any-append (λ x. str_eq x other) (filter (λ x. not (str_eq x id)) favorite_ids) (id ∷ []),
)

-- ===== src/Lists/Histories/Resync.antt =====
-- What a resync asks for, whatever has happened before.
use frontdashboard.Prelude.{◌≡◌, refl, String, Bool, true, none, All, All_imp}
use frontdashboard.Sse.{resync}
use frontdashboard.Query.{Cache, invalidate_where}
use frontdashboard.Query.Coherence.{IsCoherent}
use frontdashboard.Query.Staleness.{will_refresh, invalidate_where-refreshes}
use frontdashboard.Agenda.{scope_key, max_cached_scopes, handle_agenda_resource_event}
use frontdashboard.Lists.{Lists, invalidate_summaries, invalidate_details}
use frontdashboard.Lists.Events.{handle_list_resource_event}
use frontdashboard.Lists.Histories.Steps.{ListReach, ListReach-IsCoherent}

-- Every entry is stale or has a request in flight.
abbrev pub AllRefresh : {V : Type 0} → Cache String V → Type 0
AllRefresh c = All (λ e. will_refresh e.1 ≡ true) c.entries

invalidated-AllRefresh :
    {V : Type 0} (c : Cache String V)
    → IsCoherent scope_key c
    → AllRefresh (invalidate_where scope_key max_cached_scopes (λ scope. true) true none c).0
invalidated-AllRefresh c v =
    All_imp _ (λ e h. h refl)
      (invalidate_where-refreshes scope_key max_cached_scopes (λ scope. true) true none c v)

-- In whatever order writes were answered, frames arrived, rows were dragged, components used the
-- caches and users signed out: once a resync has been handled, every entry of the caches of summaries
-- and of details, and every entry of the agenda, is stale or has a request in flight.
pub resync_lem :
    (lt : String → String → Bool) (today : String) {ls : Lists} (own_echo : Bool)
    → ListReach lt today ls
    → let after = (handle_list_resource_event resync own_echo ls).0 in
      AllRefresh after.summaries
      × AllRefresh after.details
      × AllRefresh (handle_agenda_resource_event resync own_echo ls.agenda).0
unfolding handle_list_resource_event invalidate_summaries invalidate_details
    handle_agenda_resource_event
resync_lem lt today {ls} own_echo r =
    let (summaries, details, agenda) = ListReach-IsCoherent lt today r in
    (
      invalidated-AllRefresh ls.summaries summaries,
      invalidated-AllRefresh ls.details details,
      invalidated-AllRefresh ls.agenda agenda,
    )

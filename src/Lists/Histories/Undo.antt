-- ===== src/Lists/Histories/Undo.antt =====
-- The caches under the reorders of this tab.
use frontdashboard.Prelude.{String, Option, none, some, List}
use frontdashboard.ListTypes.{ListItem, ListSummary}
use frontdashboard.Query.Interleaving.{updated}
use frontdashboard.Lists.{Lists}
use frontdashboard.Lists.Reorders.{
  Refusal, conflict, other_error, complete_reorder_list_items, restored_items,
  complete_reorder_lists, restored_lists,
}
use frontdashboard.Lists.Histories.{
  on_toast, on_summaries, on_patch_detail, on_invalidate_summaries, on_invalidate_details,
  Histories,
}

pub on_restored_items :
    (id : String) (previous : Option (List ListItem)) (ls : Lists)
    → Histories ls
    → Histories (restored_items id previous ls)
on_restored_items id none ls h = h
on_restored_items id (some items) ls h = on_patch_detail ls h id _

pub on_restored_lists :
    (id : String) (previous : Option (List ListSummary)) (ls : Lists)
    → Histories ls
    → Histories (restored_lists id previous ls)
on_restored_lists id none ls h = h
on_restored_lists id (some lists) ls h = on_summaries ls h _ (updated _ _ (λ s scope l. l))

pub on_reorder_items :
    (id : String) (previous : Option (List ListItem)) (refusal : Option Refusal) (ls : Lists)
    → Histories ls
    → Histories (complete_reorder_list_items id previous refusal ls).0
unfolding complete_reorder_list_items
on_reorder_items id previous none ls h = h
on_reorder_items id previous (some conflict) ls h =
    on_toast _ _ (on_invalidate_details _ (on_restored_items id previous ls h) _)
on_reorder_items id previous (some other_error) ls h =
    on_toast _ _ (on_restored_items id previous ls h)

pub on_reorder_lists :
    (id : String) (previous : Option (List ListSummary)) (refusal : Option Refusal) (ls : Lists)
    → Histories ls
    → Histories (complete_reorder_lists id previous refusal ls).0
unfolding complete_reorder_lists
on_reorder_lists id previous none ls h = h
on_reorder_lists id previous (some conflict) ls h =
    on_toast _ _ (on_invalidate_summaries _ (on_restored_lists id previous ls h) _)
on_reorder_lists id previous (some other_error) ls h =
    on_toast _ _ (on_restored_lists id previous ls h)

-- ===== src/Lists/Rollback.antt =====
-- A reorder of items that the server refuses.
use frontdashboard.Prelude.{
  ◌≡◌, refl, String, true, false, some, List, [], arith, Option-cases, inl, inr, str_eq,
  str_eq_refl,
}
use frontdashboard.Prelude.Dict.{get, get-set}
use frontdashboard.ListTypes.{ListDetail}
use frontdashboard.ListOrder.{order_by_ids}
use frontdashboard.Query.{QueryState, QueryEntry, ensure_entry}
use frontdashboard.Query.Updates.{get-update_where}
use frontdashboard.Lists.{Lists, patched_detail, patch_list_detail_by_id, read_detail}
use frontdashboard.Lists.Reorders.{
  other_error, ordered_detail, begin_reorder_list_items, complete_reorder_list_items,
}

abbrev pub showing : ListDetail → QueryState ListDetail → QueryState ListDetail
showing d state = record { data_ = some d; loading = false; error = state.error }

-- What a read finds, and what it leaves.
pub read-held :
    (id : String) (e : QueryEntry String ListDetail) (ls : Lists)
    → get id ls.details.entries ≡ some e
    → ((read_detail id ls).1 ≡ e.state.data_)
      × (get id (read_detail id ls).0.details.entries ≡ some (record e { scope = id }))
unfolding read_detail ensure_entry
read-held id e ls h =
    rw (read_detail, ensure_entry, h)
      (
        refl,
        ground (arith, get-set id id (record e { scope = id }) ls.details.entries, str_eq_refl id),
      )

pub get-patch_list_detail :
    (id : String) (updater : ListDetail → ListDetail) (e : QueryEntry String ListDetail)
    (d : ListDetail) (ls : Lists)
    → get id ls.details.entries ≡ some e
    → str_eq e.scope id ≡ true
    → e.state.data_ ≡ some d
    → get id (patch_list_detail_by_id id updater ls).details.entries
      ≡ some (record e { state = showing (updater d) e.state })
unfolding patch_list_detail_by_id
get-patch_list_detail id updater e d ls h p q =
    let held =
      get-update_where (λ scope. str_eq scope id) (λ state scope. patched_detail updater state) id e
        ls.details h p in
    let shown : patched_detail updater e.state ≡ showing (updater d) e.state = rw q refl in
    rw shown at held

-- The items, whatever order they were put in, go back.
ordered-undone :
    (ids : List String) (d : ListDetail) → record (ordered_detail ids d) { items = d.items } ≡ d
ordered-undone ids d = elim (Option-cases (order_by_ids (λ item. item.id) d.items ids)) [
  | inl e ↦ rw (ordered_detail, e) refl
  | inr (items, e) ↦ rw (ordered_detail, e) refl
]

-- Where a list's detail is held, a reorder of its items that fails at once, other than by a
-- conflict, leaves the detail as it was, whether the order given could be shown or not; and no
-- request is sent.
pub reorder_rollback_lem :
    (id : String) (ids : List String) (e : QueryEntry String ListDetail) (d : ListDetail)
    (ls : Lists)
    → get id ls.details.entries ≡ some e
    → e.state.data_ ≡ some d
    → let begun = begin_reorder_list_items id ids ls in
      let failed = complete_reorder_list_items id begun.1 (some other_error) begun.0 in
      (get id failed.0.details.entries ≡ some (record e { scope = id; state = showing d e.state }))
      × (failed.1 ≡ [])
unfolding begin_reorder_list_items complete_reorder_list_items
reorder_rollback_lem id ids e d ls h q =
    let found = read-held id e ls h in
    let seen = (read_detail id ls).0 in
    let moved =
      get-patch_list_detail id (ordered_detail ids) (record e { scope = id }) d seen found.1
        (str_eq_refl id) q in
    let undone =
      get-patch_list_detail id (λ detail. record detail { items = d.items })
        (record e { scope = id; state = showing (ordered_detail ids d) e.state })
        (ordered_detail ids d) (patch_list_detail_by_id id (ordered_detail ids) seen) moved
        (str_eq_refl id) refl in
    (rw (found.0, q) (rw (ordered-undone ids d) at undone), refl)

-- Where a list's detail was held as a reorder of its items began, and the reorder fails other than
-- by a conflict, the detail that is held by then shows the items of the beginning again: items that
-- came or went in between are undone with the order, though the count of items is not, nothing is
-- marked as stale, and no request is sent.
pub reorder_failure_lem :
    (id : String) (ids : List String) (before now : QueryEntry String ListDetail)
    (d d' : ListDetail) (ls ls' : Lists)
    → get id ls.details.entries ≡ some before
    → before.state.data_ ≡ some d
    → get id ls'.details.entries ≡ some now
    → str_eq now.scope id ≡ true
    → now.state.data_ ≡ some d'
    → let previous = (begin_reorder_list_items id ids ls).1 in
      let failed = complete_reorder_list_items id previous (some other_error) ls' in
      (get id failed.0.details.entries
        ≡ some (record now { state = showing (record d' { items = d.items }) now.state }))
      × (failed.1 ≡ [])
unfolding begin_reorder_list_items complete_reorder_list_items
reorder_failure_lem id ids before now d d' ls ls' h q h' p q' =
    let found = read-held id before ls h in
    (
      rw (found.0, q)
          (get-patch_list_detail id (λ detail. record detail { items = d.items }) now d' ls' h' p
            q'),
      refl,
    )

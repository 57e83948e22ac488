-- ===== src/Lists/Convergence.antt =====
-- The frames about a list's items, where its detail is held and where it is not.
use frontdashboard.Prelude.{◌≡◌, String, Bool, true, ◌||◌, Option, none, some, List, ◌⊎◌, str_eq}
use frontdashboard.Prelude.Dict.{get}
use frontdashboard.ListTypes.{ListItem, ListDetail}
use frontdashboard.ListOrder.{order_by_ids}
use frontdashboard.Sse.{SseEvent, FieldValue}
use frontdashboard.Query.{QueryEntry}
use frontdashboard.Query.Coherence.{IsCoherent}
use frontdashboard.Query.Staleness.{will_refresh}
use frontdashboard.Agenda.{scope_key}
use frontdashboard.Lists.{Lists}
use frontdashboard.Lists.Events.{has_item, with_values}

abbrev pub AreCoherent : Lists → Type 0
AreCoherent ls = IsCoherent scope_key ls.details

-- Where the cache holds an entry of the list, either it is stale or has a request in flight, or it
-- shows the detail that it held before, changed as the relation says.
abbrev pub Reflects : String → (ListDetail → ListDetail → Type 0) → Lists → Lists → Type 0
Reflects id changed ls ls' =
    (e' : QueryEntry String ListDetail)
    → get id ls'.details.entries ≡ some e'
    → (will_refresh e' ≡ true)
      ⊎ ((e : QueryEntry String ListDetail) × (d : ListDetail) × (d' : ListDetail) × (get id
              ls.details.entries
            ≡ some e)
          × (e.state.data_ ≡ some d)
          × (e'.state.data_ ≡ some d')
          × changed d d')

abbrev data_of : Option (QueryEntry String ListDetail) → Option ListDetail
data_of none = none
data_of (some e) = e.state.data_

abbrev pub sets_values : SseEvent → Bool
sets_values e = str_eq e.event_type "list.item.checked" || str_eq e.event_type "list.item.updated"

-- The item has the new values.
abbrev pub IsPatchedBy : String → List FieldValue → ListDetail → ListDetail → Type 0
IsPatchedBy item_id values d d' = (has_item item_id d ≡ true) × (d' ≡ with_values item_id values d)

-- The items are in the new order, which is one of these items.
abbrev pub IsOrderedBy : List String → ListDetail → ListDetail → Type 0
IsOrderedBy item_ids d d' =
    (items : List ListItem) × (order_by_ids (λ item. item.id) d.items item_ids ≡ some items)
    × (d' ≡ record d { items = items })

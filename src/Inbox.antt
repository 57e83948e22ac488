-- ===== src/Inbox.antt =====
-- frontend/src/stores/notifications.ts: the notification inbox. An action that awaits is split into
-- a `begin_` step and the step of its response, which carries the generation that its guard
-- captured. A pending promise of the module is a flag. The current time is an argument.
pub mod Unread
pub mod Distinct
pub mod Sessions
mod Tests
use frontdashboard.Prelude.{
  ℕ, suc, ◌-◌, ◌+◌, String, Bool, true, false, not, ◌&&◌, ◌||◌, ◌==◌, Option, none, some, List, [],
  ◌∷◌, ◌++◌, str_eq, is_some, if◌then◌else◌, map, filter, any, find,
}

pub record Notification : Type 0 where
  pub id : String
  pub read_at : Option String

pub record Page : Type 0 where
  pub items : List Notification
  pub next_cursor : Option String

-- The inbox part of the store, the module's variables and the session generation.
pub record State : Type 0 where
  pub generation : ℕ
  pub notifications_promise : Bool
  pub unread_count_promise : Bool
  pub load_more_promise : Bool
  pub next_cursor : Option String
  pub notifications : List Notification
  pub unread_count : ℕ
  pub panel_open : Bool
  pub loaded : Bool
  pub load_failed : Bool
  pub has_more : Bool
  pub loading_more : Bool

-- `guard.set`
abbrev pub guarded : ℕ → (State → State) → State → State
guarded gen update s = if gen == s.generation then update s else s

abbrev pub holds_id : String → List Notification → Bool
holds_id id = any (λ n. str_eq n.id id)

-- `load` up to its request; the flag says whether one is sent.
unfoldable pub begin_load : State → State × Bool
begin_load s =
    if s.notifications_promise
    then (s, false)
    else (record s { notifications_promise = true }, true)

-- The cursor is a variable of the module, and is written before the guard.
unfoldable pub complete_load : ℕ → Option Page → State → State
complete_load gen (some page) s =
    let moved = record s { next_cursor = page.next_cursor } in
    let shown =
      guarded gen
        (λ t. record t {
          notifications = page.items;
          loaded = true;
          load_failed = false;
          has_more = is_some page.next_cursor;
        })
        moved in
    record shown { notifications_promise = false }
complete_load gen none s =
    let shown = guarded gen (λ t. record t { load_failed = not s.loaded }) s in
    record shown { notifications_promise = false }

-- `loadMore` up to its request, with the cursor that it sends.
unfoldable pub begin_load_more : State → State × Option String
begin_load_more s = if s.load_more_promise then (s, none) else elim s.next_cursor [
  | none ↦ (s, none)
  | some cursor ↦ (record s { load_more_promise = true; loading_more = true }, some cursor)
]

abbrev pub append_page : List Notification → List Notification → List Notification
append_page known page = known ++ filter (λ n. not (holds_id n.id known)) page

unfoldable pub complete_load_more : ℕ → Option Page → State → State
complete_load_more gen (some page) s =
    let moved = record s { next_cursor = page.next_cursor } in
    let shown =
      guarded gen
        (λ t. record t {
          notifications = append_page t.notifications page.items;
          has_more = is_some page.next_cursor;
          loading_more = false;
        })
        moved in
    record shown { load_more_promise = false }
complete_load_more gen none s =
    let shown = guarded gen (λ t. record t { loading_more = false }) s in
    record shown { load_more_promise = false }

unfoldable pub begin_load_unread_count : State → State × Bool
begin_load_unread_count s =
    if s.unread_count_promise then (s, false) else (record s { unread_count_promise = true }, true)

unfoldable pub complete_load_unread_count : ℕ → Option ℕ → State → State
complete_load_unread_count gen (some count) s =
    let shown = guarded gen (λ t. record t { unread_count = count }) s in
    record shown { unread_count_promise = false }
complete_load_unread_count gen none s = record s { unread_count_promise = false }

abbrev pub is_unread : Notification → Bool
is_unread n = not (is_some n.read_at)

abbrev pub is_unread_found : Option Notification → Bool
is_unread_found none = false
is_unread_found (some n) = is_unread n

-- `markRead` from its response on: the notification as the server now has it.
unfoldable pub complete_mark_read : ℕ → String → Option Notification → State → State
complete_mark_read gen id (some updated) s =
    guarded gen
      (λ t.
        let became_read =
          is_unread_found (find (λ n. str_eq n.id id) t.notifications) && is_some updated.read_at in
        record t {
          notifications = map (λ n. if str_eq n.id id then updated else n) t.notifications;
          unread_count = if became_read then t.unread_count - 1 else t.unread_count;
        })
      s
complete_mark_read gen id none s = s

abbrev pub read_now : String → Notification → Notification
read_now now n = if is_unread n then record n { read_at = some now } else n

-- `markAllRead` from its response on; the flag says whether the request succeeded.
unfoldable pub complete_mark_all_read : ℕ → String → Bool → State → State
complete_mark_all_read gen now true s =
    guarded gen
      (λ t. record t { notifications = map (read_now now) t.notifications; unread_count = 0 }) s
complete_mark_all_read gen now false s = s

-- The new state, and whether a load was requested.
unfoldable pub set_panel_open : Bool → State → State × Bool
unfolding begin_load
set_panel_open open' s =
    let t = record s { panel_open = open' } in
    if open' && not s.loaded then begin_load t else (t, false)

unfoldable pub add_from_sse : Notification → State → State
add_from_sse notif s = if holds_id notif.id s.notifications then s else record s {
  notifications = notif ∷ s.notifications;
  unread_count = if is_unread notif then s.unread_count + 1 else s.unread_count;
}

unfoldable pub reset : State → State
reset s = record s {
  generation = suc s.generation;
  notifications_promise = false;
  unread_count_promise = false;
  load_more_promise = false;
  next_cursor = none;
  notifications = [];
  unread_count = 0;
  panel_open = false;
  loaded = false;
  load_failed = false;
  has_more = false;
  loading_more = false;
}

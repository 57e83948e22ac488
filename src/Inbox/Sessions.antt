-- ===== src/Inbox/Sessions.antt =====
-- Responses that arrive after a sign-out.
use frontdashboard.Prelude.{
  ℕ, ◌≡◌, ◌≢◌, String, Bool, true, false, Option, some, List, arith, Option-cases, inl, inr,
}
use frontdashboard.Inbox.{
  Notification, Page, State, complete_load, complete_load_more, complete_mark_read,
  complete_mark_all_read, complete_load_unread_count, begin_load, begin_load_more, reset,
}

-- What the components render of the inbox.
pub record View : Type 0 where
  pub notifications : List Notification
  pub unread_count : ℕ
  pub panel_open : Bool
  pub loaded : Bool
  pub load_failed : Bool
  pub has_more : Bool
  pub loading_more : Bool

abbrev pub view : State → View
view s = record {
  notifications = s.notifications;
  unread_count = s.unread_count;
  panel_open = s.panel_open;
  loaded = s.loaded;
  load_failed = s.load_failed;
  has_more = s.has_more;
  loading_more = s.loading_more;
}

-- No response to a request of an earlier session changes what is rendered.
pub stale-view :
    (gen : ℕ) (s : State) (page : Option Page) (count : Option ℕ) (id now : String)
    (updated : Option Notification) (done : Bool)
    → gen ≢ s.generation
    → (view (complete_load gen page s) ≡ view s)
      × (view (complete_load_more gen page s) ≡ view s)
      × (view (complete_load_unread_count gen count s) ≡ view s)
      × (view (complete_mark_read gen id updated s) ≡ view s)
      × (view (complete_mark_all_read gen now done s) ≡ view s)
unfolding complete_load complete_load_more complete_load_unread_count complete_mark_read
    complete_mark_all_read
stale-view gen s page count id now updated done old =
    (ground arith, ground arith, ground arith, ground arith, ground arith)

-- The inbox of the session that follows a sign-out, once its first page has come.
abbrev pub next_inbox : State → Page → State
next_inbox s mine = complete_load (reset s).generation (some mine) (begin_load (reset s)).0

next_inbox-view :
    (s : State) (mine : Page)
    → ((next_inbox s mine).notifications ≡ mine.items)
      × ((begin_load_more (next_inbox s mine)).1 ≡ mine.next_cursor)
unfolding begin_load_more complete_load begin_load reset
next_inbox-view s mine = elim (Option-cases mine.next_cursor) [
  | inl e ↦ (ground arith, rw e (ground arith))
  | inr (cursor, e) ↦ (ground arith, rw e (ground arith))
]

-- A page that was asked for, as the first or as a further one, before the user signed out, and that
-- comes once the next session shows its own first page: what is rendered stays, but the next session
-- asks for its further rows with the cursor of the earlier one, and not with its own. Where it comes
-- before that first page, a second request for the first page is sent beside the one in flight.
pub late_page_lem :
    (s : State) (mine theirs : Page) (cursor : String)
    → theirs.next_cursor ≡ some cursor
    → let shown = next_inbox s mine in
      let late = complete_load s.generation (some theirs) shown in
      let late_more = complete_load_more s.generation (some theirs) shown in
      let waiting = (begin_load (reset s)).0 in
      (shown.notifications ≡ mine.items)
      × ((begin_load_more shown).1 ≡ mine.next_cursor)
      × (view late ≡ view shown)
      × (view late_more ≡ view shown)
      × ((begin_load_more late).1 ≡ some cursor)
      × ((begin_load_more late_more).1 ≡ some cursor)
      × ((begin_load waiting).1 ≡ false)
      × ((begin_load (complete_load s.generation (some theirs) waiting)).1 ≡ true)
unfolding complete_load complete_load_more begin_load begin_load_more reset
late_page_lem s mine theirs cursor h =
    let (items, more) = next_inbox-view s mine in
    (
      items,
      more,
      ground arith,
      ground arith,
      rw h (ground arith),
      rw h (ground arith),
      ground arith,
      ground arith,
    )

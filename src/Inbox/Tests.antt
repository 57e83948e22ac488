-- ===== src/Inbox/Tests.antt =====
-- Runs of the inbox, and its theorems at concrete inputs.
use frontdashboard.Prelude.{◌≡◌, refl, true, false, some, none, Option, [], ◌∷◌, String}
use frontdashboard.Inbox.{
  Notification, Page, State, complete_load, complete_load_more, complete_mark_read, begin_load,
  begin_load_more, set_panel_open, reset,
}
use frontdashboard.Inbox.Unread.{is_distinct}
use frontdashboard.Inbox.Distinct.{more_loaded, handle, handle-is_distinct}
use frontdashboard.Inbox.Sessions.{view, next_inbox, late_page_lem}

abbrev note : String → Option String → Notification
note id read_at = record { id = id; read_at = read_at }

abbrev inbox : State
inbox = record {
  generation = 2;
  notifications_promise = false;
  unread_count_promise = false;
  load_more_promise = false;
  next_cursor = some "c1";
  notifications = note "n2" none ∷ note "n1" (some "t") ∷ [];
  unread_count = 4;
  panel_open = false;
  loaded = true;
  load_failed = false;
  has_more = true;
  loading_more = false;
}

abbrev page : Page
page = record { items = note "n1" (some "t") ∷ note "n0" none ∷ []; next_cursor = none }

runs :
    ((begin_load_more inbox).1 ≡ some "c1")
    × ((complete_load_more 2 (some page) inbox).notifications
        ≡ note "n2" none ∷ note "n1" (some "t") ∷ note "n0" none ∷ [])
    × ((complete_mark_read 2 "n2" (some (note "n2" (some "u"))) inbox).unread_count ≡ 3)
    × ((set_panel_open true inbox).1 ≡ false)
unfolding begin_load_more complete_load_more complete_mark_read set_panel_open
runs = (refl, refl, refl, refl)

handle-is_distinct_example :
    is_distinct (handle (more_loaded 2 (some page)) inbox).notifications ≡ true
handle-is_distinct_example = handle-is_distinct (more_loaded 2 (some page)) inbox refl refl

-- The page that was read for whoever was signed in before.
abbrev theirs : Page
theirs = record { items = []; next_cursor = some "c9" }

late_page_lem_example :
    let shown = next_inbox inbox page in
    let late = complete_load 2 (some theirs) shown in
    let late_more = complete_load_more 2 (some theirs) shown in
    let waiting = (begin_load (reset inbox)).0 in
    (shown.notifications ≡ page.items)
    × ((begin_load_more shown).1 ≡ none)
    × (view late ≡ view shown)
    × (view late_more ≡ view shown)
    × ((begin_load_more late).1 ≡ some "c9")
    × ((begin_load_more late_more).1 ≡ some "c9")
    × ((begin_load waiting).1 ≡ false)
    × ((begin_load (complete_load 2 (some theirs) waiting)).1 ≡ true)
late_page_lem_example = late_page_lem inbox page theirs "c9" refl

-- ===== src/Stream/Tests.antt =====
-- Runs of the stream, and its theorems at concrete inputs.
use frontdashboard.Prelude.{
  ◌≤◌, ◌*◌, min, ◌≡◌, refl, true, false, ◌||◌, none, some, [], ◌∷◌, any, if◌then◌else◌, is_some,
}
use frontdashboard.Sse.{SseEvent, resync}
use frontdashboard.Stream.{
  Stream, to_calendar, connected, reconnecting, is_closed, lists, agenda, load_unread_count,
  app_resync, unmounted, reconnect_ceiling_ms, resync_routes, wants, open_stream, on_error,
  on_timer, on_visible, on_connected, on_resync,
}
use frontdashboard.Stream.Frames.{is_of, is_unknown, wants-resync_routes}
use frontdashboard.Stream.Backoff.{reconnect_ceiling_ms_lem}
use frontdashboard.Stream.Recovery.{
  StreamReach, mounted, then_, user_changed, failed, looked_at, SameWait, scheduled_reconnect_lem,
  reconnect_lem, gap_lem,
}

abbrev up : Stream
up = record {
  user = some "u";
  source = some (record { mark = none; closed = false });
  attempts = 0;
  timer = none;
  needs_resync = false;
  watermark = some 4;
  status = connected;
}

abbrev reconnected : Stream
reconnected = record up {
  source = some (record { mark = some 4; closed = false });
  needs_resync = true;
}

lists_changed :
    (on_resync false false
      (some (record { last_event_id = none; scopes = some ("list" ∷ []) }))
      up).1
    ≡ lists resync false ∷ agenda resync false ∷ load_unread_count ∷ app_resync ∷ []
unfolding on_resync
lists_changed = refl

abbrev moved : SseEvent
moved = record {
  event_id = 7;
  event_type = "calendar.event.updated";
  entity_type = "calendar_event";
  entity_id = "e";
  entity_version = 2;
  actor_id = "v";
  created_at = "a";
  payload = record {
    dashboard_id = some "home";
    changed_fields = none;
    share_action = none;
    widget_id = none;
    config = none;
    list_id = none;
    item_ids = none;
    list_ids = none;
    values = none;
    origin_client_id = none;
  };
}

wants-resync_routes_example :
    wants (resync_routes (some ("list_item" ∷ []))) to_calendar
    ≡ (any is_unknown ("list_item" ∷ []) || any (is_of to_calendar) ("list_item" ∷ []))
wants-resync_routes_example = wants-resync_routes to_calendar ("list_item" ∷ [])

reconnect_ceiling_ms_lem_example :
    (1000 ≤ reconnect_ceiling_ms 3)
    × (reconnect_ceiling_ms 3 ≤ 30000)
    × (reconnect_ceiling_ms 4 ≡ min (2 * reconnect_ceiling_ms 3) 30000)
    × (reconnect_ceiling_ms 8 ≡ 30000)
reconnect_ceiling_ms_lem_example = reconnect_ceiling_ms_lem 3

abbrev history : StreamReach "tab" false false (on_error true (open_stream (some "u") unmounted))
history = then_ (then_ mounted (user_changed (some "u"))) (failed true (λ c. refl))

-- The page is looked at while the reconnect is scheduled.
scheduled_reconnect_lem_example :
    let s = on_error true (open_stream (some "u") unmounted) in
    (is_some s.user ≡ true)
    × (is_closed s.source ≡ true)
    × (s.status ≡ reconnecting)
    × SameWait "tab" false false s (on_visible s)
unfolding on_error open_stream
scheduled_reconnect_lem_example =
    scheduled_reconnect_lem "tab" false false history refl looked_at refl

abbrev down : Stream
down = record up { source = some (record { mark = none; closed = true }) }

reconnect_lem_example :
    let again = if false then (on_timer down).0 else on_visible down in
    (again.source ≡ some (record { mark = some 4; closed = false }))
    × (again.needs_resync ≡ true)
    × ((on_connected false false (some 9) again).1 ≡ [])
reconnect_lem_example = reconnect_lem "tab" false false down "u" (some 9) refl refl

gap_lem_example :
    let greeted_ = on_connected false false (some 9) reconnected in
    let again = (on_timer (on_error true greeted_.0)).0 in
    (greeted_.1 ≡ []) × (again.source ≡ some (record { mark = some 9; closed = false }))
gap_lem_example =
    gap_lem "tab" false false reconnected "u" (record { mark = some 4; closed = false }) 4 9 refl
      refl refl refl

-- ===== src/LoadOptions/Laws.antt =====
-- Merging load options loses no caller's wish, and only the newest request is the live one.
use frontdashboard.Prelude.{
  ℕ, ◌≡◌, ◌+◌, String, true, ◌&&◌, ◌==◌, Option, none, some, str_eq, arith, refl,
}
use frontdashboard.LoadOptions.{
  NormalizedOptions, LatestRequest, merge_dashboard_load_options, dashboard_load_satisfies_request,
  begin_dashboard_request, is_latest_dashboard_request,
}

-- A load satisfies the merged request exactly if it satisfies both requests; and the merged
-- options satisfy both.
pub merge_lem :
    (a b load : NormalizedOptions)
    → (dashboard_load_satisfies_request load (merge_dashboard_load_options (some a) b)
        ≡ (dashboard_load_satisfies_request load a && dashboard_load_satisfies_request load b))
      × (dashboard_load_satisfies_request (merge_dashboard_load_options (some a) b) a ≡ true)
      × (dashboard_load_satisfies_request (merge_dashboard_load_options (some a) b) b ≡ true)
unfolding merge_dashboard_load_options dashboard_load_satisfies_request
merge_lem a b load = ground arith

-- The serial of the latest request, 0 before the first.
abbrev pub serial_of : Option LatestRequest → ℕ
serial_of none = 0
serial_of (some latest) = latest.serial

-- A new request is the live one, its serial is new, and nothing else is live any more: neither an
-- older serial nor another dashboard.
pub begin_dashboard_request_lem :
    (latest : Option LatestRequest) (id other : String) (serial : ℕ)
    → ((begin_dashboard_request id latest).1 ≡ serial_of latest + 1)
      × (is_latest_dashboard_request (some (begin_dashboard_request id latest).0) other serial
          ≡ (str_eq id other && (begin_dashboard_request id latest).1 == serial))
unfolding begin_dashboard_request is_latest_dashboard_request
begin_dashboard_request_lem none id other serial = (refl, ground arith)
begin_dashboard_request_lem (some latest) id other serial = (refl, ground arith)

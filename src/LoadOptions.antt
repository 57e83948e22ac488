-- ===== src/LoadOptions.antt =====
-- frontend/src/utils/dashboard/loadOptions.ts: reconciling overlapping loads of a dashboard.
pub mod Laws
mod Tests
use frontdashboard.Prelude.{
  ℕ, suc, ◌+◌, String, Bool, true, false, not, ◌&&◌, ◌||◌, ◌==◌, Option, none, some, str_eq,
  or_else,
}

pub record LoadDashboardOptions : Type 0 where
  pub background : Option Bool
  pub surface_access_loss : Option Bool

pub record NormalizedOptions : Type 0 where
  pub background : Bool
  pub surface_access_loss : Bool

-- `latestDashboardRequest`
pub record LatestRequest : Type 0 where
  pub id : String
  pub serial : ℕ

unfoldable pub normalize_dashboard_load_options : LoadDashboardOptions → NormalizedOptions
normalize_dashboard_load_options options = record {
  background = or_else options.background false;
  surface_access_loss = or_else options.surface_access_loss false;
}

unfoldable pub merge_dashboard_load_options :
    Option NormalizedOptions → NormalizedOptions → NormalizedOptions
merge_dashboard_load_options none next = next
merge_dashboard_load_options (some current) next = record {
  background = current.background && next.background;
  surface_access_loss = current.surface_access_loss || next.surface_access_loss;
}

unfoldable pub dashboard_load_satisfies_request : NormalizedOptions → NormalizedOptions → Bool
dashboard_load_satisfies_request current requested =
    (requested.background || not current.background)
    && (not requested.surface_access_loss || current.surface_access_loss)

-- The new state and the serial.
unfoldable pub begin_dashboard_request : String → Option LatestRequest → LatestRequest × ℕ
begin_dashboard_request id none = (record { id = id; serial = 1 }, 1)
begin_dashboard_request id (some latest) =
    (record { id = id; serial = latest.serial + 1 }, latest.serial + 1)

unfoldable pub is_latest_dashboard_request : Option LatestRequest → String → ℕ → Bool
is_latest_dashboard_request none id serial = false
is_latest_dashboard_request (some latest) id serial = str_eq latest.id id && latest.serial == serial

abbrev pub reset_dashboard_requests : Option LatestRequest
reset_dashboard_requests = none

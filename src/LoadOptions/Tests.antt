-- ===== src/LoadOptions/Tests.antt =====
-- The laws of the load options at concrete inputs.
use frontdashboard.Prelude.{Bool}
use frontdashboard.LoadOptions.{NormalizedOptions, LatestRequest}

abbrev options : Bool → Bool → NormalizedOptions
options b s = record { background = b; surface_access_loss = s }

abbrev third : LatestRequest
third = record { id = "d1"; serial = 3 }

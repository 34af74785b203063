-- ===== src/Api/Health.antt =====
-- app.controller.ts and app.service.ts: the health check.
use blocktic_backend.Base.{String}
use blocktic_backend.Exec.{gets}
use blocktic_backend.State.{World, State, App}

pub record HealthResponse : Type 0 where
  pub status : String
  pub service : String
  pub version : String
  pub timestamp : String

abbrev pub get_health : World → App HealthResponse
get_health w = gets (λ (s : State). record {
  status = "ok";
  service = "BlockTic API";
  version = "0.1.0";
  timestamp = w.iso_string (w.now s.trace);
})

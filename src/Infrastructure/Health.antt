-- ===== src/Infrastructure/Health.antt =====
-- app/infrastructure/monitoring/health.py. A dict of one key is a record of one field.
use ats_project_management_b.Prelude.{Bool, String, [], false, if◌then◌else◌, none, some}
use ats_project_management_b.Shared.Responses.{ApiResponse, Reply, ok_data, ok_message}

pub record HealthStatus : Type 0 where
  pub status : String

pub record Checks : Type 0 where
  pub database : String

pub record Readiness : Type 0 where
  pub checks : Checks

unfoldable pub health : Reply (ApiResponse HealthStatus)
health = ok_message "Service healthy" (record { status = "ok" })

unfoldable pub liveness : Reply (ApiResponse HealthStatus)
liveness = ok_data (record { status = "alive" })

abbrev pub checks_of : String → Readiness
checks_of database = record { checks = record { database = database } }

-- `reachable` is whether `SELECT 1` is answered.
unfoldable pub readiness : Bool → Reply (ApiResponse Readiness)
readiness reachable = if reachable then ok_message "Service ready" (checks_of "ok") else record {
  status = 503;
  body = record {
    success = false;
    message = some "Service not ready";
    content = some (checks_of "unavailable");
    meta = none;
    errors = [];
  };
}

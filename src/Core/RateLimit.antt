-- ===== src/Core/RateLimit.antt =====
-- app/core/ratelimit.py. The limiter's counters are slowapi's: `hits` is its answer to a request
-- under a limit, the text of the limit that is exceeded.
use ats_project_management_b.Prelude.{Bool, Option, String, if◌then◌else◌, none, some}
use ats_project_management_b.Core.Config.{Settings}
use ats_project_management_b.Core.Exceptions.{Exception}
use ats_project_management_b.Core.Session.{Exec, ok, raised}
use ats_project_management_b.Platform.{Platform}

pub record Limiter : Type 0 where
  pub enabled : Bool
  pub auth_limit : String

-- `configure`
abbrev pub configure : Settings → Limiter
configure settings = record {
  enabled = settings.rate_limit_enabled;
  auth_limit = settings.rate_limit_auth;
}

abbrev pub auth_rate_limit : Limiter → String
auth_rate_limit limiter = limiter.auth_limit

module _ ⦃x : Platform⦄ where
  abbrev pub check_hits : Option String → Exec (Unit {0})
  check_hits none s = (ok tt, s)
  check_hits (some detail) s = (raised (Exception.rate_limit detail), s)

  -- `@limiter.limit(auth_rate_limit)`, before the route's own code.
  unfoldable pub limit : (String → Option String) → Limiter → Exec (Unit {0})
  limit hits limiter =
      if limiter.enabled then check_hits (hits (auth_rate_limit limiter)) else check_hits none

-- ===== src/Analytics/Api.antt =====
-- app/modules/analytics/api.py.
use ats_project_management_b.Prelude.{ℕ}
use ats_project_management_b.Analytics.Service.{
  DashboardReport, ProjectAnalytics, dashboard, project_analytics,
}
use ats_project_management_b.Auth.Dependencies.{require_admin}
use ats_project_management_b.Core.Config.{Settings}
use ats_project_management_b.Core.Session.{Exec, pure, ◌>>=◌, ◌>>◌}
use ats_project_management_b.Platform.{Platform}
use ats_project_management_b.Projects.Api.{require_project_view}
use ats_project_management_b.Shared.Responses.{ApiResponse, Reply, ok_data}

module _ ⦃x : Platform⦄ (settings : Settings) (token : x.Jwt) where
  unfoldable pub dashboard_route : Exec (Reply (ApiResponse (DashboardReport x.Float)))
  dashboard_route = do require_admin token settings; report ← dashboard; pure (ok_data report)

  unfoldable pub project_analytics_route : ℕ → Exec (Reply (ApiResponse (ProjectAnalytics x.Float)))
  project_analytics_route project_id = do
    require_project_view settings token project_id
    report ← project_analytics project_id
    pure (ok_data report)

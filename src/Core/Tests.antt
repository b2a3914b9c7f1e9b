-- ===== src/Core/Tests.antt =====
-- The theorems on the settings at concrete values.
use text.Mathlib.Text.{starts_with}
use ats_project_management_b.Prelude.{
  Bool, String, [], false, inl, none, refl, some, text_length, ℕ, ◌↔◌, ◌∷◌, ◌≡◌, ◌≤◌,
}
use ats_project_management_b.Core.Config.{
  Environment, Settings, default_settings, normalize, normalize_and_validate, replace,
  replace_first,
}
use ats_project_management_b.Core.Config.Production.{production_accepts_iff}
use ats_project_management_b.Core.Middleware.{
  HttpRequest, HttpResponse, Next, RequestContext, get_header, middleware,
}
use ats_project_management_b.Core.Middleware.Headers.{inner_context, middleware_headers}
use ats_project_management_b.Core.Session.{ok}
use ats_project_management_b.Platform.Memory.{memory}

abbrev deployed : Settings
deployed = record default_settings {
  environment = Environment.production;
  database_url = "postgres://db/ats?sslmode=require";
  jwt_secret_key = "0123456789abcdef0123456789abcdef";
}

production_accepts_iff_example :
    (normalize_and_validate deployed
      ≡ inl (record deployed { database_url = normalize "postgres://db/ats?sslmode=require" }))
    ↔ ((32 ≤ text_length "0123456789abcdef0123456789abcdef")
        × (starts_with (normalize "postgres://db/ats?sslmode=require") "sqlite" ≡ false)
        × (◌≡◌ {A = Bool} false false))
production_accepts_iff_example = production_accepts_iff deployed refl

normalized :
    normalize "postgres://db/ats?sslmode=require" ≡ "postgresql+asyncpg://db/ats?ssl=require"
unfolding normalize replace replace_first
normalized = refl

abbrev reports_page : HttpRequest
reports_page = record { path = "/api/v1/reports"; headers = ("x-correlation-id", "abc") ∷ [] }

abbrev bare : HttpResponse
bare = record { status = 200; headers = ("cache-control", "public") ∷ [] }

abbrev outside : RequestContext
outside = record { request_id = none; correlation_id = none; drawn = 2 }

abbrev answers : Next
answers request ctx = (ok bare, ctx)

abbrev no_time : ℕ → ℕ → String
no_time start end = "0.0"

middleware_headers_example :
    (r : HttpResponse) × (ctx' : RequestContext) × (middleware ⦃x = memory⦄ no_time answers
        reports_page outside
      ≡ (ok r, ctx'))
    × (r.status ≡ 200)
    × (get_header "x-request-id" r.headers ≡ some "xx")
    × (get_header "x-correlation-id" r.headers ≡ some "abc")
    × (get_header "x-content-type-options" r.headers ≡ some "nosniff")
    × (get_header "x-frame-options" r.headers ≡ some "DENY")
    × (get_header "referrer-policy" r.headers ≡ some "no-referrer")
    × (get_header "cache-control" r.headers ≡ some "public")
    × (ctx'.request_id ≡ none)
    × (ctx'.correlation_id ≡ none)
middleware_headers_example =
    middleware_headers ⦃x = memory⦄ no_time answers reports_page outside bare
      (inner_context ⦃x = memory⦄ no_time answers reports_page outside) refl

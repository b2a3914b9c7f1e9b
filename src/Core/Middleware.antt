-- ===== src/Core/Middleware.antt =====
-- app/core/middleware.py. Headers are a list of names
-- with values; a name is in lower case, as Starlette keeps it. What is logged is not modelled.
pub mod Headers
use text.Mathlib.Text.{starts_with}
use ats_project_management_b.Prelude.{
  List, Option, String, [], filter, if◌then◌else◌, is_some, none, not, some, string_eq, ℕ, ℕ_eq,
  ◌++◌, ◌+◌, ◌==◌, ◌∷◌,
}
use ats_project_management_b.Core.Session.{Result, ok, raised}
use ats_project_management_b.Platform.{Platform}

abbrev pub Headers : Type 0
Headers = List (String × String)

pub record HttpRequest : Type 0 where
  pub path : String
  pub headers : Headers

pub record HttpResponse : Type 0 where
  pub status : ℕ
  pub headers : Headers

-- The context variables of app/core/logging.py, with the number of varying answers drawn.
pub record RequestContext : Type 0 where
  pub request_id : Option String
  pub correlation_id : Option String
  pub drawn : ℕ

-- The rest of the stack: a response, or an exception.
abbrev pub Next : Type 0
Next = HttpRequest → RequestContext → Result HttpResponse × RequestContext

-- `request.headers.get(…) or request_id`
abbrev pub or_else : Option String → String → String
or_else none default = default
or_else (some value) default = if value == "" then default else value

-- `headers.get(name)`
abbrev pub get_header : String → Headers → Option String
get_header name [] = none
get_header name ((n, value) ∷ headers) =
    let rest = get_header name headers in if n == name then some value else rest

-- `headers[name] = value`
abbrev pub set_header : String → String → Headers → Headers
set_header name value headers = filter (λ h. not (h.0 == name)) headers ++ (name, value) ∷ []

-- `headers.setdefault(name, value)`
abbrev pub default_header : String → String → Headers → Headers
default_header name value headers =
    if is_some (get_header name headers) then headers else headers ++ (name, value) ∷ []

abbrev pub with_headers : (Headers → Headers) → Result HttpResponse → Result HttpResponse
with_headers f (ok response) = ok (record response { headers = f response.headers })
with_headers f (raised e) = raised e

module _ ⦃x : Platform⦄ where
  -- `RequestContextMiddleware.dispatch`. The variables are reset whatever the rest does.
  unfoldable pub request_context : Next → Next
  request_context call_next request ctx =
      let request_id = x.uuid4_hex ctx.drawn in
      let correlation_id = or_else (get_header "x-correlation-id" request.headers) request_id in
      let (response, after) = call_next request (record {
        request_id = some request_id;
        correlation_id = some correlation_id;
        drawn = ctx.drawn + 1;
      }) in
      (
        with_headers
            (λ h.
              set_header "x-correlation-id" correlation_id (set_header "x-request-id" request_id h))
            response,
        record ctx { drawn = after.drawn },
      )

  -- `RequestLoggingMiddleware.dispatch`. `elapsed` is the text of the milliseconds between two
  -- readings of the clock, which are drawn before and after the rest.
  unfoldable pub request_logging : (ℕ → ℕ → String) → Next → Next
  request_logging elapsed call_next request ctx =
      let (response, after) = call_next request (record ctx { drawn = ctx.drawn + 1 }) in
      (
        with_headers (set_header "x-process-time" (elapsed ctx.drawn after.drawn)) response,
        record after { drawn = after.drawn + 1 },
      )

  abbrev pub cache_control : String → String
  cache_control path = if starts_with path "/api" then "no-store" else "no-cache"

  -- `SecureHeadersMiddleware.dispatch`
  unfoldable pub secure_headers : Next → Next
  secure_headers call_next request ctx =
      let (response, after) = call_next request ctx in
      (
        with_headers
            (λ h. default_header "cache-control" (cache_control request.path) (
              default_header "referrer-policy" "no-referrer" (
                default_header "x-frame-options" "DENY"
                  (default_header "x-content-type-options" "nosniff" h))))
            response,
        after,
      )

  -- The middleware that `create_app` adds, inside that for CORS, which is Starlette's: the last
  -- one added is the outermost.
  unfoldable pub middleware : (ℕ → ℕ → String) → Next → Next
  unfolding request_context request_logging secure_headers
  middleware elapsed app = request_context (request_logging elapsed (secure_headers app))

-- ===== src/Core/Exceptions.antt =====
-- app/core/exceptions.py: the application's exceptions, those of the libraries that have a
-- handler of their own, and the response that each handler builds.
use ats_project_management_b.Prelude.{
  Bool, List, Option, String, [], false, filter, if◌then◌else◌, map, none, not, some, string_eq, ℕ,
  ℕ_eq, ◌<>◌, ◌==◌, ◌∷◌,
}
use ats_project_management_b.Core.Constants.{ErrorCode}
use ats_project_management_b.Shared.Enums.{project_status_eq, task_status_eq}

-- The class of an `AppException`.
pub data Kind : Type 0 where
  app not_found unauthorized forbidden conflict validation : Kind

abbrev pub status_code : Kind → ℕ
status_code Kind.app = 500
status_code Kind.not_found = 404
status_code Kind.unauthorized = 401
status_code Kind.forbidden = 403
status_code Kind.conflict = 409
status_code Kind.validation = 422

-- The class attribute `code`.
abbrev pub default_code : Kind → ErrorCode
default_code Kind.app = ErrorCode.internal_error
default_code Kind.not_found = ErrorCode.not_found
default_code Kind.unauthorized = ErrorCode.unauthorized
default_code Kind.forbidden = ErrorCode.forbidden
default_code Kind.conflict = ErrorCode.conflict
default_code Kind.validation = ErrorCode.validation_error

pub record AppException : Type 0 where
  pub kind : Kind
  pub detail : String
  pub code : ErrorCode
  pub field : Option String

-- `NotFoundError(detail)` and its like: no code and no field are given.
abbrev pub plain : Kind → String → AppException
plain k detail = record { kind = k; detail = detail; code = default_code k; field = none }

-- The same with `code=`.
abbrev pub coded : Kind → String → ErrorCode → AppException
coded k detail code = record { kind = k; detail = detail; code = code; field = none }

-- One entry of `RequestValidationError.errors()`: its message and its location.
pub record ValidationEntry : Type 0 where
  pub msg : Option String
  pub loc : List String

-- What a request may raise: the application's exceptions, the framework's HTTPException (status
-- and detail) and RequestValidationError, SQLAlchemy's StaleDataError and IntegrityError,
-- slowapi's RateLimitExceeded, and any other.
pub data Exception : Type 0 where
  app : AppException → Exception
  http : ℕ → Option String → Exception
  request_validation : List ValidationEntry → Exception
  stale_data : String → Exception
  integrity : Exception
  rate_limit : String → Exception
  unexpected : Exception

-- `ErrorDetail` of app/shared/responses.py.
pub record ErrorDetail : Type 0 where
  pub code : ErrorCode
  pub detail : String
  pub field : Option String

-- A JSON response whose body is `error_body(message, errors)`; the envelope's other keys are
-- `success`, which is false, and `data` and `meta`, which are null.
pub record JsonResponse : Type 0 where
  pub status : ℕ
  pub success : Bool
  pub message : String
  pub errors : List ErrorDetail
  pub www_authenticate : Option String

json : ℕ → String → List ErrorDetail → JsonResponse
json status message errors = record {
  status = status;
  success = false;
  message = message;
  errors = errors;
  www_authenticate = if status == 401 then some "Bearer" else none;
}

http_code : ℕ → ErrorCode
http_code status =
    if status == 401
    then ErrorCode.unauthorized
    else if status == 403
    then ErrorCode.forbidden
    else if status == 404
    then ErrorCode.not_found
    else if status == 405
    then ErrorCode.validation_error
    else if status == 409
    then ErrorCode.conflict
    else ErrorCode.internal_error

-- `str(exc.detail) if exc.detail else "Request failed"`
http_detail : Option String → String
http_detail none = "Request failed"
http_detail (some detail) = if detail == "" then "Request failed" else detail

join_dots : List String → String
join_dots [] = ""
join_dots (l ∷ []) = l
join_dots (l ∷ m ∷ rest) = l <> ("." <> join_dots (m ∷ rest))

-- `".".join(str(loc) …if loc != "body") or None`
location_field : List String → Option String
unfolding join_dots
location_field loc =
    let field = join_dots (filter (λ l. not (l == "body")) loc) in
    if field == "" then none else some field

validation_detail : ValidationEntry → ErrorDetail
unfolding location_field
validation_detail e = record {
  code = ErrorCode.validation_error;
  detail = elim e.msg [ none ↦ "Invalid value" | some m ↦ m ];
  field = location_field e.loc;
}

one_error : ErrorCode → String → List ErrorDetail
one_error code detail = record { code = code; detail = detail; field = none } ∷ []

-- `register_exception_handlers`: the handler of each exception.
unfoldable pub handle : Exception → JsonResponse
unfolding json http_code http_detail validation_detail one_error
handle (Exception.app e) =
    json (status_code e.kind) e.detail
      (record { code = e.code; detail = e.detail; field = e.field } ∷ [])
handle (Exception.http status detail) =
    json status (http_detail detail) (one_error (http_code status) (http_detail detail))
handle (Exception.request_validation errors) =
    json 422 "Validation failed" (map validation_detail errors)
handle (Exception.stale_data text) =
    json 409 "The resource was modified by another request; retry with fresh data"
      (one_error ErrorCode.stale_version text)
handle Exception.integrity =
    json 409 "The request conflicts with existing data"
      (one_error ErrorCode.conflict "Database constraint violated")
handle (Exception.rate_limit detail) =
    json 429 "Too many requests"
      (one_error ErrorCode.rate_limited ("Rate limit exceeded: " <> detail))
handle Exception.unexpected =
    json 500 "Internal server error"
      (one_error ErrorCode.internal_error "An unexpected error occurred")

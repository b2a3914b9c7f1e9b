-- ===== src/Shared/Responses.antt =====
-- The response envelope of app/shared/responses.py, and the response to a request: the reply of its
-- route, or what the handler of the exception builds. A row stands for its response schema, whose
-- fields are its columns; a user has a schema of its own.
use ats_project_management_b.Prelude.{Bool, List, Option, String, [], none, some, true, ℕ}
use ats_project_management_b.Core.Exceptions.{ErrorDetail, JsonResponse, handle}
use ats_project_management_b.Core.Session.{Exec, Result, ok, raised, with_session}
use ats_project_management_b.Models.{Database}
use ats_project_management_b.Platform.{Platform}
use ats_project_management_b.Shared.Pagination.{PaginationMeta}

-- `ApiResponse[T]`, as the routes fill it; `content` is its field `data`.
pub record ApiResponse (A : Type 0) : Type 0 where
  pub success : Bool
  pub message : Option String
  pub content : Option A
  pub meta : Option PaginationMeta
  pub errors : List ErrorDetail

-- `ok(data, message, meta)`
abbrev pub ok_body : {A : Type 0} → Option A → Option String → Option PaginationMeta → ApiResponse A
ok_body content message meta = record {
  success = true;
  message = message;
  content = content;
  meta = meta;
  errors = [];
}

-- A route's status code with the body that it returns.
pub record Reply (A : Type 0) : Type 0 where
  pub status : ℕ
  pub body : A

-- `ok(data)`
abbrev pub ok_data : {A : Type 0} → A → Reply (ApiResponse A)
ok_data content = record { status = 200; body = ok_body (some content) none none }

-- `ok(data, message=message)`
abbrev pub ok_message : {A : Type 0} → String → A → Reply (ApiResponse A)
ok_message message content = record {
  status = 200;
  body = ok_body (some content) (some message) none;
}

-- The same on a route declared with `status.HTTP_201_CREATED`.
abbrev pub created : {A : Type 0} → String → A → Reply (ApiResponse A)
created message content = record { status = 201; body = ok_body (some content) (some message) none }

-- `ok(rows, meta=meta.as_meta())`
abbrev pub ok_page : {A : Type 0} → List A × PaginationMeta → Reply (ApiResponse (List A))
ok_page page = record { status = 200; body = ok_body (some page.0) none (some page.1) }

-- A route declared with `status.HTTP_204_NO_CONTENT`.
abbrev pub no_content : Reply (Unit {0})
no_content = record { status = 204; body = tt }

pub data Response (A : Type 0) : Type 0 where
  replied : Reply A → Response A
  failed : JsonResponse → Response A

abbrev pub answer : {A : Type 0} → Result (Reply A) → Response A
answer (ok reply) = Response.replied reply
answer (raised e) = Response.failed (handle e)

module _ ⦃x : Platform⦄ where
  -- A request: its route runs in the session of `get_db`, and an exception has its handler.
  unfoldable pub respond :
      {A : Type 0} → Exec (Reply A) → Database x.Float → ℕ → Response A × Database x.Float
  unfolding with_session
  respond route db tick = let (r, db') = with_session route db tick in (answer r, db')

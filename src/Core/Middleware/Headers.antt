-- ===== src/Core/Middleware/Headers.antt =====
-- What the middleware does to every response.
use text.Mathlib.TextPositions.{eq_refl}
use ats_project_management_b.Prelude.{
  Bool-cases, Option, String, [], ap, arith, eq_iff, false, inl, inr, none, refl, some, string_eq,
  ℕ, ℕ_eq, ◌++◌, ◌+◌, ◌==◌, ◌∙◌, ◌∷◌, ◌≡◌,
}
use ats_project_management_b.Core.Middleware.{
  Headers, HttpRequest, HttpResponse, Next, RequestContext, cache_control, default_header,
  get_header, middleware, or_else, set_header,
}
use ats_project_management_b.Core.Session.{ok}
use ats_project_management_b.Platform.{Platform}

get-set_header :
    (name value : String) (headers : Headers)
    → get_header name (set_header name value headers) ≡ some value
get-set_header name value [] = rw (eq_refl name) refl
get-set_header name value ((n, v) ∷ headers) = elim (Bool-cases (n == name)) [
  | inl e ↦ rw e (get-set_header name value headers)
  | inr e ↦ rw (e, e) (get-set_header name value headers)
]

get-set_header_other :
    (other name value : String) (headers : Headers)
    → (name == other) ≡ false
    → get_header other (set_header name value headers) ≡ get_header other headers
get-set_header_other other name value [] h = rw h refl
get-set_header_other other name value ((n, v) ∷ headers) h = elim (Bool-cases (n == name)) [
  | inl e ↦
      rw (e, ap (λ m. m == other) ((eq_iff n name).0 e) ∙ h)
        (get-set_header_other other name value headers h)
  | inr e ↦ rw (e, get-set_header_other other name value headers h) refl
]

-- `setdefault` keeps a value that is there.
abbrev pub value_or : String → Option String → String
value_or default none = default
value_or default (some value) = value

get-append :
    (name : String) (headers rest : Headers)
    → get_header name (headers ++ rest)
      ≡ elim (get_header name headers) [ none ↦ get_header name rest | some v ↦ some v ]
get-append name [] rest = refl
get-append name ((n, v) ∷ headers) rest = ground (arith, get-append name headers rest)

get-default_header :
    (name value : String) (headers : Headers)
    → get_header name (default_header name value headers)
      ≡ some (value_or value (get_header name headers))
get-default_header name value headers =
    ground (arith, get-append name headers ((name, value) ∷ []), eq_refl name)

get-default_header_other :
    (other name value : String) (headers : Headers)
    → (name == other) ≡ false
    → get_header other (default_header name value headers) ≡ get_header other headers
get-default_header_other other name value headers h =
    ground (arith, get-append other headers ((name, value) ∷ []))

module _ ⦃x : Platform⦄ (elapsed : ℕ → ℕ → String) (app : Next) (request : HttpRequest)
    (ctx : RequestContext) where
  -- The identifiers of the request, and the context in which the application runs.
  abbrev pub this_request : String
  this_request = x.uuid4_hex ctx.drawn

  abbrev pub this_correlation : String
  this_correlation = or_else (get_header "x-correlation-id" request.headers) this_request

  abbrev pub inner_context : RequestContext
  inner_context = record {
    request_id = some this_request;
    correlation_id = some this_correlation;
    drawn = ctx.drawn + 1 + 1;
  }

  module _ (response : HttpResponse) (after : RequestContext) where
    -- A value of the response is kept, and a missing one is the default.
    abbrev pub kept : String → String → Option String
    kept name default = some (value_or default (get_header name response.headers))

    abbrev typed : Headers
    typed = default_header "x-content-type-options" "nosniff" response.headers

    abbrev framed : Headers
    framed = default_header "x-frame-options" "DENY" typed

    abbrev referred : Headers
    referred = default_header "referrer-policy" "no-referrer" framed

    abbrev secured : Headers
    secured = default_header "cache-control" (cache_control request.path) referred

    abbrev timed : Headers
    timed = set_header "x-process-time" (elapsed (ctx.drawn + 1) after.drawn) secured

    abbrev identified : Headers
    identified = set_header "x-request-id" this_request timed

    abbrev outgoing : Headers
    outgoing = set_header "x-correlation-id" this_correlation identified

    -- Headers of other names pass the two outer layers.
    passes :
        (name : String)
        → ("x-correlation-id" == name) ≡ false
        → ("x-request-id" == name) ≡ false
        → ("x-process-time" == name) ≡ false
        → get_header name outgoing ≡ get_header name secured
    passes name a b c =
        get-set_header_other name "x-correlation-id" this_correlation identified a
        ∙ (get-set_header_other name "x-request-id" this_request timed b
            ∙ get-set_header_other name "x-process-time" (elapsed (ctx.drawn + 1) after.drawn)
                secured c)

    defaulted :
        (name default : String) (headers : Headers)
        → get_header name headers ≡ get_header name response.headers
        → get_header name (default_header name default headers) ≡ kept name default
    defaulted name default headers k =
        get-default_header name default headers ∙ ap (λ o. some (value_or default o)) k

    refers : get_header "referrer-policy" framed ≡ get_header "referrer-policy" response.headers
    refers =
        get-default_header_other "referrer-policy" "x-frame-options" "DENY" typed refl
        ∙ get-default_header_other "referrer-policy" "x-content-type-options" "nosniff"
            response.headers refl

    caches : get_header "cache-control" referred ≡ get_header "cache-control" response.headers
    caches =
        get-default_header_other "cache-control" "referrer-policy" "no-referrer" framed refl
        ∙ (get-default_header_other "cache-control" "x-frame-options" "DENY" typed refl
            ∙ get-default_header_other "cache-control" "x-content-type-options" "nosniff"
                response.headers refl)

    -- The application runs with the request's identifiers in the context. Its response gets them
    -- as headers (the caller's correlation id, if it has sent one), whatever the response said of
    -- them; the four security headers are added where the response has none; the status stays,
    -- and the context is afterwards as it was before.
    pub middleware_headers :
        app request inner_context ≡ (ok response, after)
        → (r : HttpResponse) × (ctx' : RequestContext) × (middleware elapsed app request ctx
            ≡ (ok r, ctx'))
          × (r.status ≡ response.status)
          × (get_header "x-request-id" r.headers ≡ some this_request)
          × (get_header "x-correlation-id" r.headers ≡ some this_correlation)
          × (get_header "x-content-type-options" r.headers
              ≡ kept "x-content-type-options" "nosniff")
          × (get_header "x-frame-options" r.headers ≡ kept "x-frame-options" "DENY")
          × (get_header "referrer-policy" r.headers ≡ kept "referrer-policy" "no-referrer")
          × (get_header "cache-control" r.headers
              ≡ kept "cache-control" (cache_control request.path))
          × (ctx'.request_id ≡ ctx.request_id)
          × (ctx'.correlation_id ≡ ctx.correlation_id)
    unfolding middleware
    middleware_headers h =
        let r : HttpResponse = record response { headers = outgoing } in
        (
          r,
          record ctx { drawn = after.drawn + 1 },
          rw h refl,
          refl,
          get-set_header_other "x-request-id" "x-correlation-id" this_correlation identified refl
              ∙ get-set_header "x-request-id" this_request timed,
          get-set_header "x-correlation-id" this_correlation identified,
          passes "x-content-type-options" refl refl refl
              ∙ (get-default_header_other "x-content-type-options" "cache-control"
                    (cache_control request.path) referred refl
                  ∙ (get-default_header_other "x-content-type-options" "referrer-policy"
                        "no-referrer" framed refl
                      ∙ (get-default_header_other "x-content-type-options" "x-frame-options" "DENY"
                            typed refl
                          ∙ defaulted "x-content-type-options" "nosniff" response.headers refl))),
          passes "x-frame-options" refl refl refl
              ∙ (get-default_header_other "x-frame-options" "cache-control"
                    (cache_control request.path) referred refl
                  ∙ (get-default_header_other "x-frame-options" "referrer-policy" "no-referrer"
                        framed refl
                      ∙ defaulted "x-frame-options" "DENY" typed (
                          get-default_header_other "x-frame-options" "x-content-type-options"
                            "nosniff" response.headers refl))),
          passes "referrer-policy" refl refl refl
              ∙ (get-default_header_other "referrer-policy" "cache-control"
                    (cache_control request.path) referred refl
                  ∙ defaulted "referrer-policy" "no-referrer" framed refers),
          passes "cache-control" refl refl refl
              ∙ defaulted "cache-control" (cache_control request.path) referred caches,
          refl,
          refl,
        )

-- ===== src/Api/Middleware/Responses.antt =====
-- What the middleware adds to a response, and what it logs.
use realtime_notification_pl.Prelude.{
  ℕ, ◌-◌, ◌*◌, String, ◌≡◌, refl, ap, Bool, true, false, Option, none, some, [], ◌∷◌, ◌++◌, ◌⊎◌,
  inl, inr, if◌then◌else◌,
}
use realtime_notification_pl.HeaderNames.{same_name}
use realtime_notification_pl.Platform.{Platform}
use realtime_notification_pl.World.{World, RequestLine, Result, ok, err, Action, ◌>>=◌}
use realtime_notification_pl.Api.Middleware.{
  Request, HttpResponse, request_id_header, request_id, security_headers, set_all, or_fresh,
  line_of, serve_request,
}

-- the value of a header on every response, if it is one of these
abbrev pub fixed_value : String → Option String
fixed_value name =
    if same_name "Permissions-Policy" name
    then some "geolocation=(), camera=(), microphone=()"
    else if same_name "Referrer-Policy" name
    then some "no-referrer"
    else if same_name "X-Frame-Options" name
    then some "DENY"
    else if same_name "X-Content-Type-Options" name
    then some "nosniff"
    else none

abbrev pub or_own : Option String → Option String → Option String
or_own none own = own
or_own (some value) own = some value

or_own-first :
    (b c d e : Bool) (u v x y : String) (own : Option String)
    → (if b then some u else if c then some v else if d then some x else if e then some y else own)
      ≡ or_own
          (if b
            then some u
            else if c
            then some v
            else if d
            then some x
            else if e
            then some y
            else none)
          own
or_own-first true c d e u v x y own = refl
or_own-first false true d e u v x y own = refl
or_own-first false false true e u v x y own = refl
or_own-first false false false true u v x y own = refl
or_own-first false false false false u v x y own = refl

module _ ⦃p : Platform⦄ where
  -- the response that the client gets for the one of the route
  pub record IsStamped (id : String) (a b : HttpResponse) : Type 0 where
    pub status_code : b.status_code ≡ a.status_code
    pub body : b.body ≡ a.body
    pub headers :
        (name : String)
        → p.get_header name b.headers ≡ (
            if same_name "X-Request-ID" name
            then some id
            else or_own (fixed_value name) (p.get_header name a.headers))

  -- the id of a request: its own, or a fresh one where it has none
  abbrev pub Names : String → Request → String → Type 0
  Names fresh request id =
      (p.get_header "X-Request-ID" request.headers ≡ some id)
      ⊎ ((p.get_header "X-Request-ID" request.headers ≡ none) × (id ≡ fresh))

  -- the line that is logged of a response
  pub record IsLine (id : String) (request : Request) (a : HttpResponse) (seconds : ℕ)
      (line : RequestLine) : Type 0 where
    pub request_id : line.request_id ≡ id
    pub method : line.method ≡ request.method
    pub path : line.path ≡ request.path
    pub status_code : line.status_code ≡ a.status_code
    pub duration_ms : line.duration_ms ≡ seconds * 1000

  -- the log has one more line
  abbrev pub with_line : RequestLine → World → World
  with_line line w = record w {
    process = record (w.process) { request_log = w.process.request_log ++ line ∷ [] };
  }

  abbrev pub Served :
      String → Request → ℕ → Result HttpResponse × World → Result HttpResponse × World → Type 0
  Served fresh request start (err e, w0) (r, w') = (r ≡ err e) × (w' ≡ w0)
  Served fresh request start (ok a, w0) (r, w') =
      (id : String) × Names fresh request id
      × (b : HttpResponse) × (r ≡ ok b)
      × IsStamped id a b
      × (line : RequestLine) × IsLine id request a (w0.now - start) line
      × (w' ≡ with_line line w0)

  or_fresh-Names :
      (o : Option String) (fresh : String)
      → (o ≡ some (or_fresh o fresh)) ⊎ ((o ≡ none) × (or_fresh o fresh ≡ fresh))
  or_fresh-Names none fresh = inr (refl, refl)
  or_fresh-Names (some id) fresh = inl refl

  secured :
      (name : String) (h : p.Headers)
      → p.get_header name (set_all security_headers h)
        ≡ or_own (fixed_value name) (p.get_header name h)
  secured name h =
      rw (p.get-set_header, p.get-set_header, p.get-set_header, p.get-set_header)
        (or_own-first (same_name "Permissions-Policy" name) (same_name "Referrer-Policy" name)
          (same_name "X-Frame-Options" name) (same_name "X-Content-Type-Options" name) _ _ _ _ _)

  stamped :
      (id : String) (a : HttpResponse)
      → IsStamped id a (record a {
        headers = p.set_header request_id_header id (set_all security_headers a.headers);
      })
  stamped id a = record {
    status_code = refl;
    body = refl;
    headers = λ name. rw p.get-set_header (
        ap (λ o. if same_name request_id_header name then some id else o) (secured name a.headers));
  }

  -- the endpoint, with the answer that it has given
  abbrev given : Result HttpResponse → World → Action HttpResponse
  given r w0 w = (r, w0)

  given-Served :
      (fresh : String) (request : Request) (r : Result HttpResponse) (w0 w : World)
      → Served fresh request w.now (r, w0) (serve_request fresh request (given r w0) w)
  unfolding serve_request ◌>>=◌
  given-Served fresh request (ok a) w0 w = (
    request_id fresh request,
    or_fresh-Names (p.get_header request_id_header request.headers) fresh,
    _,
    refl,
    stamped (request_id fresh request) a,
    line_of fresh request a (w0.now - w.now),
    record {
      request_id = refl;
      method = refl;
      path = refl;
      status_code = refl;
      duration_ms = refl;
    },
    refl,
  )
  given-Served fresh request (err e) w0 w = (refl, refl)

  -- For a route that gives a response, the client gets the same status and body, with the four
  -- security headers and the id of the request, which is the request's own or a fresh one, put in
  -- place of what the route gave under these names and every other header as it was; and one line
  -- is logged, with that id, the method and the path of the request, the status and the milliseconds
  -- that the route took. For a route that ends by
  -- an exception, the exception passes, and nothing is logged.
  pub serve_request-Served :
      (fresh : String) (request : Request) (endpoint : Action HttpResponse) (w : World)
      → Served fresh request w.now (endpoint w) (serve_request fresh request endpoint w)
  unfolding serve_request ◌>>=◌
  serve_request-Served fresh request endpoint w =
      given-Served fresh request (endpoint w).0 (endpoint w).1 w

-- ===== src/Api/Middleware.antt =====
-- app/api/middleware.py, around the routes as app/main.py stacks the two.
pub mod Responses
use realtime_notification_pl.Prelude.{ℕ, ◌*◌, ◌-◌, String, Option, none, some, List, [], ◌∷◌, ◌++◌}
use realtime_notification_pl.Platform.{Platform}
use realtime_notification_pl.World.{World, RequestLine, Action, pure, gets, modify, ◌>>=◌, ◌>>◌}

abbrev pub request_id_header : String
request_id_header = "X-Request-ID"

-- SecurityHeadersMiddleware._HEADERS
abbrev pub security_headers : List (String × String)
security_headers =
    ("X-Content-Type-Options", "nosniff")
    ∷ ("X-Frame-Options", "DENY")
    ∷ ("Referrer-Policy", "no-referrer")
    ∷ ("Permissions-Policy", "geolocation=(), camera=(), microphone=()")
    ∷ []

abbrev pub or_fresh : Option String → String → String
or_fresh none fresh = fresh
or_fresh (some id) fresh = id

module _ ⦃p : Platform⦄ where
  pub record Request : Type 0 where
    pub method : String
    pub path : String
    pub headers : p.Headers

  pub record HttpResponse : Type 0 where
    pub status_code : ℕ
    pub headers : p.Headers
    pub body : String

  -- `fresh` is the text of a new UUID
  abbrev pub request_id : String → Request → String
  request_id fresh request = or_fresh (p.get_header request_id_header request.headers) fresh

  abbrev pub log_line : RequestLine → World → World
  log_line line w = record w {
    process = record (w.process) { request_log = w.process.request_log ++ line ∷ [] };
  }

  -- what is said of a response; the clock of the model counts seconds
  abbrev pub line_of : String → Request → HttpResponse → ℕ → RequestLine
  line_of fresh request response seconds = record {
    request_id = request_id fresh request;
    method = request.method;
    path = request.path;
    status_code = response.status_code;
    duration_ms = seconds * 1000;
  }

  -- RequestLoggingMiddleware.dispatch
  unfoldable pub log_request : String → Request → Action HttpResponse → Action HttpResponse
  log_request fresh request call_next = do
    start ← gets (λ w. w.now)
    response ← call_next
    end ← gets (λ w. w.now)
    modify (log_line (line_of fresh request response (end - start)))
    pure (record response {
      headers = p.set_header request_id_header (request_id fresh request) response.headers;
    })

  abbrev pub set_all : List (String × String) → p.Headers → p.Headers
  set_all [] headers = headers
  set_all ((name, value) ∷ rest) headers = set_all rest (p.set_header name value headers)

  -- SecurityHeadersMiddleware.dispatch
  unfoldable pub secure : Action HttpResponse → Action HttpResponse
  secure call_next = do
    response ← call_next
    pure (record response { headers = set_all security_headers response.headers })

  -- the middleware that is added last is outside
  unfoldable pub serve_request : String → Request → Action HttpResponse → Action HttpResponse
  unfolding log_request secure
  serve_request fresh request endpoint = log_request fresh request (secure endpoint)

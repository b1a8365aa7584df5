-- ===== src/Tests/Requests.antt =====
-- A request through the middleware, and a line of the log.
use realtime_notification_pl.Prelude.{String, ◌≡◌, Bool, none, [], ◌∷◌, str_eq}
use realtime_notification_pl.Json.{str, field, done, get}
use realtime_notification_pl.Platform.Sample.{sample}
use realtime_notification_pl.World.{Action, pure}
use realtime_notification_pl.Core.LoggingConfig.{LogRecord, JsonFormatter, standard, entry}
use realtime_notification_pl.Core.LoggingConfig.Entries.{or_else, exception_field, extra, get-entry}
use realtime_notification_pl.Api.Middleware.{Request, HttpResponse, serve_request}
use realtime_notification_pl.Api.Middleware.Responses.{Served, serve_request-Served}
use realtime_notification_pl.Tests.Worlds.{quiet}

abbrev request : Request
request = record { method = "GET"; path = "/health"; headers = ("x-request-id", "r1") ∷ [] }

-- a route that answers, with a header that the middleware replaces
abbrev route : Action HttpResponse
route =
    pure (record { status_code = 200; headers = ("x-frame-options", "ALLOW") ∷ []; body = "{}" })

serve_request-Served_example :
    Served "u1" request quiet.now (route quiet) (serve_request "u1" request route quiet)
serve_request-Served_example = serve_request-Served "u1" request route quiet

abbrev formatter : JsonFormatter
formatter = record { instance_id = "i2" }

-- a record with a field of its own that has the name of a standard one
abbrev line : LogRecord
line = record {
  created = 7;
  levelname = "INFO";
  name = "app.request";
  message = "GET /health 200";
  attributes = field "level" (str "forged") (field "request_id" (str "r1") done);
  exception = none;
}

abbrev is_reserved : String → Bool
is_reserved k = str_eq k "name"

get-entry_example :
    get "level" (entry is_reserved formatter line)
    ≡ or_else (exception_field line.exception "level") (
        or_else (get "level" (standard formatter line)) (extra is_reserved "level" line.attributes))
get-entry_example = get-entry is_reserved formatter line "level"

-- ===== src/Api/Auth.antt =====
-- app/api/routes/auth.py: POST /auth/ws-ticket.
pub mod Subjects
use realtime_notification_pl.Prelude.{
  ℕ, zero, suc, String, Bool, true, false, Option, none, some, str_eq, not, ◌==◌, if◌then◌else◌,
}
use realtime_notification_pl.Json.{
  Json, null, bool, num, str, arr, obj, nil, cons, done, field, Fields, get,
}
use realtime_notification_pl.Postgres.{Uuid}
use realtime_notification_pl.Platform.{Platform}
use realtime_notification_pl.World.{Action, http, pure, raise, ◌>>=◌}
use realtime_notification_pl.Websocket.AuthHandshake.{WsTicketAuth, issue_ticket}
use realtime_notification_pl.Websocket.MessageRouter.{label}

-- `bool(value)`
abbrev pub truthy : Json → Bool
truthy null = false
truthy (bool b) = b
truthy (num n) = not (n == 0)
truthy (str s) = not (str_eq s "")
truthy (arr nil) = false
truthy (arr (cons _ _)) = true
truthy (obj done) = false
truthy (obj (field _ _ _)) = true

-- WSTicketResponse
pub record TicketResponse : Type 0 where
  pub ticket : String
  pub expires_in : ℕ

module _ ⦃p : Platform⦄ where
  -- `uuid.UUID(text)` is only a test here: the text itself is the result
  abbrev pub if_uuid : String → Option Uuid → Action String
  if_uuid text none = raise (http 401 "Token subject claim must be a UUID")
  if_uuid text (some _) = pure text

  abbrev pub subject : Option Json → Action String
  subject none = raise (http 401 "Token missing subject claim")
  subject (some user_id) =
      if truthy user_id
      then if_uuid (label user_id) (p.uuid_parse (label user_id))
      else raise (http 401 "Token missing subject claim")

  abbrev pub checked : Option Fields → Action String
  checked none = raise (http 401 "Invalid or expired token")
  checked (some claims) = subject (get "sub" claims)

  unfoldable pub decode_user_id : String → Action String
  decode_user_id credentials = checked (p.jwt_decode credentials)

  unfoldable pub issue_ws_ticket : WsTicketAuth → String → String → Action TicketResponse
  unfolding decode_user_id issue_ticket
  issue_ws_ticket self fresh credentials = do
    user_id ← decode_user_id credentials
    ticket ← issue_ticket self fresh user_id
    pure (record { ticket = ticket; expires_in = self.ttl_seconds })

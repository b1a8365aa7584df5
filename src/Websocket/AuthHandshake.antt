-- ===== src/Websocket/AuthHandshake.antt =====
-- app/websocket/auth_handshake.py
pub mod SingleUse
use realtime_notification_pl.Prelude.{ℕ, String, Option, none, some}
use realtime_notification_pl.Redis.{Value, plain}
use realtime_notification_pl.Platform.{Platform}
use realtime_notification_pl.Keys.{ticket_key}
use realtime_notification_pl.World.{Action, pure, command, command_, ◌>>=◌, ◌>>◌}
use realtime_notification_pl.Presence.Store.{decode}

pub record WsTicketAuth : Type 0 where
  pub ttl_seconds : ℕ

module _ ⦃p : Platform⦄ where
  -- `ticket` is what `secrets.token_urlsafe(32)` returned
  unfoldable pub issue_ticket : WsTicketAuth → String → String → Action String
  issue_ticket self ticket user_id = do
    command_ (p.redis.set_ex (ticket_key ticket) (plain user_id) self.ttl_seconds)
    pure ticket

  abbrev pub user_of : Option Value → Option String
  user_of none = none
  user_of (some v) = some (decode v)

  -- GETDEL: the value, which the same command deletes
  unfoldable pub redeem_ticket : String → Action (Option String)
  redeem_ticket ticket = do
    user_id ←
        command (λ s. (p.redis.peek s 0 (ticket_key ticket), p.redis.delete (ticket_key ticket) s))
    pure (user_of user_id)

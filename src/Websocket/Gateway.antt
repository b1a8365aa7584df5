-- ===== src/Websocket/Gateway.antt =====
-- app/websocket/gateway.py: one connection, from its ticket to its end.
pub mod Lifecycle
pub mod Isolation
pub mod Holds
pub mod Sockets
pub mod Backlog
use realtime_notification_pl.Prelude.{ℕ, String, Option, none, some, List, [], ◌∷◌}
use realtime_notification_pl.Json.{Json}
use realtime_notification_pl.Platform.{Platform}
use realtime_notification_pl.World.{
  Action, Result, ok, err, Error, disconnect, key_or_type, value, Socket, pure, raise, call,
  finally, ◌>>=◌, ◌>>◌,
}
use realtime_notification_pl.Presence.Manager.{PresenceManager, mark_online, mark_offline}
use realtime_notification_pl.Pubsub.InstanceRegistry.{register, unregister}
use realtime_notification_pl.Db.Repository.{get_session, get_unread_backlog}
use realtime_notification_pl.Websocket.AuthHandshake.{redeem_ticket}
use realtime_notification_pl.Websocket.ConnectionManager.{add, remove, transmit, shut}
use realtime_notification_pl.Websocket.Messages.{backlog_message}
use realtime_notification_pl.Websocket.MessageRouter.{MessageRouter, route, parsed_user}

-- the part of `app.state` and the settings that the endpoint reads
pub record Gateway : Type 0 where
  pub instance_id : String
  pub presence_ttl_seconds : ℕ
  pub backlog_limit : ℕ
  pub presence_manager : PresenceManager
  pub message_router : MessageRouter

-- what the client sends: a frame with JSON, one with another text, or a binary one
pub data Inbound : Type 0 where
  frame : Json → Inbound
  garbled binary : Inbound

module _ ⦃p : Platform⦄ where
  unfoldable pub send_backlog : Socket → String → ℕ → Action Unit
  unfolding transmit get_unread_backlog
  send_backlog websocket user_id limit = do
    get_session
    user ← parsed_user (p.uuid_parse user_id)
    backlog ← get_unread_backlog user limit
    transmit websocket (backlog_message backlog)

  abbrev pub reply : Socket → Option Json → Action Unit
  reply websocket none = pure tt
  reply websocket (some response) = transmit websocket response

  -- `while True`, over what arrives until the client disconnects; a text that is no JSON raises, and
  -- so does a binary frame, which has no text
  unfoldable pub receive_loop : Gateway → Socket → String → String → List Inbound → Action Unit
  receive_loop self websocket user_id connection_id [] = raise disconnect
  receive_loop self websocket user_id connection_id (garbled ∷ rest) = raise value
  receive_loop self websocket user_id connection_id (binary ∷ rest) = raise key_or_type
  receive_loop self websocket user_id connection_id (frame raw_message ∷ rest) = do
    response ← route self.message_router user_id connection_id raw_message
    reply websocket response
    receive_loop self websocket user_id connection_id rest

  -- `except WebSocketDisconnect`
  abbrev pub disconnected : Result Unit → Result Unit
  disconnected (err disconnect) = ok tt
  disconnected r = r

  abbrev pub until_disconnect : Action Unit → Action Unit
  until_disconnect m w = let (r, w') = m w in (disconnected r, w')

  -- `websocket.accept()`
  abbrev pub accept : Action Unit
  accept = call (λ w. (tt, w))

  unfoldable pub connect : Gateway → Socket → String → Action Unit
  connect self websocket user_id = do
    add user_id websocket
    register user_id self.instance_id self.presence_ttl_seconds
    mark_online self.presence_manager user_id

  unfoldable pub clean_up : String → Action Unit
  clean_up user_id = do remove user_id; unregister user_id; mark_offline user_id

  unfoldable pub session_body : Gateway → Socket → String → String → List Inbound → Action Unit
  session_body self websocket user_id connection_id inbound = do
    send_backlog websocket user_id self.backlog_limit
    receive_loop self websocket user_id connection_id inbound

  -- after `redeem_ticket`
  abbrev pub admitted : Gateway → Socket → String → List Inbound → Option String → Action Unit
  admitted self websocket connection_id inbound none = shut websocket 1008
  admitted self websocket connection_id inbound (some user_id) = do
    accept
    connect self websocket user_id
    finally (until_disconnect (session_body self websocket user_id connection_id inbound))
        (clean_up user_id)

  unfoldable pub websocket_endpoint :
      Gateway → Socket → String → String → List Inbound → Action Unit
  websocket_endpoint self websocket ticket connection_id inbound = do
    user_id ← redeem_ticket ticket
    admitted self websocket connection_id inbound user_id

-- ===== src/Websocket/ConnectionManager.antt =====
-- app/websocket/connection_manager.py
pub mod Registry
pub mod Closing
use realtime_notification_pl.Prelude.{
  ℕ, String, Bool, true, false, Option, none, some, List, [], ◌∷◌, ◌++◌,
}
use realtime_notification_pl.Prelude.Lists.{length}
use realtime_notification_pl.Prelude.Dict as Dict
use realtime_notification_pl.Json.{Json}
use realtime_notification_pl.Platform.{Platform}
use realtime_notification_pl.World.{
  World, Action, Result, ok, err, Socket, pure, gets, modify, call, suppress, ◌>>=◌, ◌>>◌,
}

module _ ⦃p : Platform⦄ where
  -- active_connections.set(len(self._connections))
  abbrev pub set_gauge : World → World
  set_gauge w = record w {
    metrics = record (w.metrics) { active_connections = length w.connections };
  }

  unfoldable pub add : String → Socket → Action Unit
  add user_id websocket =
      modify
        (λ w. set_gauge (record w { connections = Dict.insert user_id websocket w.connections }))

  unfoldable pub remove : String → Action Unit
  remove user_id =
      modify (λ w. set_gauge (record w { connections = Dict.erase user_id w.connections }))

  -- `ConnectionManager.get`
  unfoldable pub get_socket : String → World → Option Socket
  get_socket user_id w = Dict.lookup user_id w.connections

  unfoldable pub is_connected : String → World → Bool
  is_connected user_id w = Dict.contains user_id w.connections

  unfoldable pub connected_user_ids : World → List String
  connected_user_ids w = Dict.keys w.connections

  unfoldable pub active_connection_count : World → ℕ
  active_connection_count w = length w.connections

  -- `websocket.send_json(message)` and `websocket.close(code)` of the server library
  unfoldable pub transmit : Socket → Json → Action Unit
  transmit socket message =
      call (λ w. (tt, record w { frames = w.frames ++ (socket, message) ∷ [] }))

  unfoldable pub shut : Socket → ℕ → Action Unit
  shut socket code = call (λ w. (tt, record w { closed = w.closed ++ (socket, code) ∷ [] }))

  -- the `try` of `send_json`
  abbrev pub dropped : String → Result Unit → Action Bool
  dropped user_id (ok _) = pure true
  dropped user_id (err _) = do remove user_id; pure false

  abbrev pub send_to : String → Json → Option Socket → Action Bool
  send_to user_id message none w = (ok false, w)
  send_to user_id message (some websocket) w =
      let (r, w') = transmit websocket message w in dropped user_id r w'

  unfoldable pub send_json : String → Json → Action Bool
  unfolding remove transmit
  send_json user_id message = do
    websocket ← gets (λ w. Dict.lookup user_id w.connections)
    send_to user_id message websocket

  -- one round of the loop of `close_all`
  abbrev pub close_popped : ℕ → Option Socket → Action Unit
  close_popped code none = pure tt
  close_popped code (some websocket) = suppress (shut websocket code)

  unfoldable pub close_one : ℕ → String → Action Unit
  unfolding shut
  close_one code user_id = do
    websocket ← gets (λ w. Dict.lookup user_id w.connections)
    modify (λ w. record w { connections = Dict.erase user_id w.connections })
    close_popped code websocket

  unfoldable pub close_each : ℕ → List String → Action Unit
  unfolding close_one
  close_each code [] = pure tt
  close_each code (user_id ∷ rest) = close_one code user_id >> close_each code rest

  unfoldable pub close_all : ℕ → Action (List String)
  unfolding close_each connected_user_ids
  close_all code = do
    user_ids ← gets connected_user_ids
    close_each code user_ids
    modify set_gauge
    pure user_ids

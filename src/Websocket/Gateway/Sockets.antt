-- ===== src/Websocket/Gateway/Sockets.antt =====
-- The table of connections over a whole session.
use text.Mathlib.TextPositions.{eq_refl}
use realtime_notification_pl.Prelude.{
  String, ◌≡◌, refl, ◌∙◌, ap, none, some, List, str_eq, if◌then◌else◌, arith,
}
use realtime_notification_pl.Prelude.Dict.{insert, erase, lookup-insert, lookup-erase}
use realtime_notification_pl.Platform.{Platform}
use realtime_notification_pl.World.{World, ok, err, Error, Socket, ◌>>=◌}
use realtime_notification_pl.World.Quiet.{Within-call}
use realtime_notification_pl.Websocket.ConnectionManager.{add, remove, get_socket}
use realtime_notification_pl.Websocket.Gateway.{
  Gateway, Inbound, session_body, connect, clean_up, accept, admitted,
}
use realtime_notification_pl.Websocket.Gateway.Holds.{
  Held, Held-Keeping, session_body-Holds, registered-Holds, forgotten-Holds,
}

module _ ⦃p : Platform⦄ where
  connect-connections :
      (self : Gateway) (socket : Socket) (u : String) (w : World)
      → (connect self socket u w).1.connections ≡ insert u socket w.connections
  unfolding connect add ◌>>=◌
  connect-connections self socket u w = (registered-Holds self u).at _

  clean_up-connections :
      (u : String) (w : World) → (clean_up u w).1.connections ≡ erase u w.connections
  unfolding clean_up remove ◌>>=◌
  clean_up-connections u w = (forgotten-Holds u).at _

  accept-connections : (w : World) → (accept w).1.connections ≡ w.connections
  accept-connections w = (Within-call Held Held-Keeping (λ w. (tt, w)) (λ w. refl)).at w

  -- the table at the end of a session that was opened
  session_end :
      (self : Gateway) (socket : Socket) (u id : String) (inbound : List Inbound) (w : World)
      → let opened = (connect self socket u (accept w).1).1 in
        (clean_up u (session_body self socket u id inbound opened).1).1.connections
        ≡ erase u (insert u socket w.connections)
  session_end self socket u id inbound w =
      clean_up-connections u _
      ∙ ap (erase u) (
          (session_body-Holds self socket u id inbound).at _
          ∙ connect-connections self socket u (accept w).1
          ∙ ap (insert u socket) (accept-connections w))

  -- A session that was opened ends with the user's socket out of the table, and every other user's
  -- connection as it was, whatever the client sends and whatever calls fail meanwhile.
  pub admitted-get_socket :
      (self : Gateway) (socket : Socket) (u v id : String) (inbound : List Inbound) (w : World)
      → (accept w).0 ≡ ok tt
      → (connect self socket u (accept w).1).0 ≡ ok tt
      → let (r, w') = admitted self socket id inbound (some u) w in
        get_socket v w' ≡ (if str_eq u v then none else get_socket v w)
  unfolding get_socket ◌>>=◌
  admitted-get_socket self socket u v id inbound w accepted connected =
      rw (accepted, connected)
        (rw (session_end self socket u id inbound w)
          (lookup-erase u v _ ∙ ground (arith, lookup-insert u v socket w.connections)))

  -- An accepted connection whose registration fails, or whose first presence does, ends with the
  -- exception, and its dead socket stays in the table.
  pub failed_connect_leaks :
      (self : Gateway) (socket : Socket) (u id : String) (inbound : List Inbound) (w : World)
      (e : Error)
      → (accept w).0 ≡ ok tt
      → (connect self socket u (accept w).1).0 ≡ err e
      → let (r, w') = admitted self socket id inbound (some u) w in
        (r ≡ err e) × (get_socket u w' ≡ some socket)
  unfolding get_socket ◌>>=◌
  failed_connect_leaks self socket u id inbound w e accepted refused =
      rw (accepted, refused)
        (
          refl,
          rw
              (
                connect-connections self socket u (accept w).1,
                lookup-insert u u socket (accept w).1.connections,
                eq_refl u,
              )
              refl,
        )

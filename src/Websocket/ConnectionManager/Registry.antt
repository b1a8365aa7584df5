-- ===== src/Websocket/ConnectionManager/Registry.antt =====
-- The table of connections and the gauge that reports its size.
use text.Mathlib.TextPositions.{eq_refl}
use realtime_notification_pl.Prelude.{
  String, ◌≡◌, ◌≢◌, ◌∙◌, ap, refl, Bool, true, false, none, some, inl, inr, List, [], ◌∷◌, ◌++◌,
  str_eq, Option-cases, if◌then◌else◌,
}
use realtime_notification_pl.Prelude.Lists.{length}
use realtime_notification_pl.Prelude.Dict.{lookup, lookup-insert, lookup-erase}
use realtime_notification_pl.Json.{Json}
use realtime_notification_pl.Platform.{Platform}
use realtime_notification_pl.Keys.Distinct.{eq_false}
use realtime_notification_pl.World.{
  World, Result, ok, err, Fault, answered, refused, lost, Socket, serve, ◌>>=◌,
}
use realtime_notification_pl.Websocket.ConnectionManager.{
  add, remove, get_socket, transmit, dropped, send_json,
}

module _ ⦃p : Platform⦄ where
  -- the gauge shows how many connections are held
  abbrev pub IsGauged : World → Type 0
  IsGauged w = w.metrics.active_connections ≡ length w.connections

  -- Adding a connection makes it the user's, and leaves every other user's connection.
  pub add-get_socket :
      (u v : String) (socket : Socket) (w : World)
      → (get_socket v (add u socket w).1 ≡ (if str_eq u v then some socket else get_socket v w))
        × IsGauged (add u socket w).1
  unfolding add get_socket ◌>>=◌
  add-get_socket u v socket w = (lookup-insert u v socket w.connections, refl)

  -- Removing a connection leaves the user without one, and every other user's connection as it is.
  pub remove-get_socket :
      (u v : String) (w : World)
      → (get_socket v (remove u w).1 ≡ (if str_eq u v then none else get_socket v w))
        × IsGauged (remove u w).1
  unfolding remove get_socket ◌>>=◌
  remove-get_socket u v w = (lookup-erase u v w.connections, refl)

  -- what became of a frame
  abbrev Transmitted : Socket → Json → World → Result Unit → World → Type 0
  Transmitted socket message w (ok _) w' =
      (w'.frames ≡ w.frames ++ (socket, message) ∷ []) × (w'.connections ≡ w.connections)
  Transmitted socket message w (err _) w' = w'.connections ≡ w.connections

  abbrev frame_sent : Socket → Json → World → Unit {0} × World
  frame_sent socket message w = (tt, record w { frames = w.frames ++ (socket, message) ∷ [] })

  serve-Transmitted :
      (fs : List Fault) (socket : Socket) (message : Json) (w : World)
      → let (r, w') = serve fs (frame_sent socket message) w in Transmitted socket message w r w'
  serve-Transmitted [] socket message w = (refl, refl)
  serve-Transmitted (answered ∷ fs) socket message w = (refl, refl)
  serve-Transmitted (refused ∷ fs) socket message w = refl
  serve-Transmitted (lost ∷ fs) socket message w = refl

  -- What `send_json` does: true is returned only when the frame was sent to the user's socket; else
  -- the user has no connection here afterwards, and every other user keeps theirs.
  abbrev pub Sent : String → Json → World → Result Bool → World → Type 0
  Sent u message w (ok true) w' =
      (socket : Socket) × (lookup u w.connections ≡ some socket)
      × (w'.frames ≡ w.frames ++ (socket, message) ∷ [])
      × (w'.connections ≡ w.connections)
  Sent u message w (ok false) w' =
      (lookup u w'.connections ≡ none)
      × ((v : String) → u ≢ v → lookup v w'.connections ≡ lookup v w.connections)
  Sent u message w (err e) w' = ⊥

  dropped-Sent :
      (u : String) (socket : Socket) (message : Json) (w : World) (r : Result Unit) (w' : World)
      → lookup u w.connections ≡ some socket
      → Transmitted socket message w r w'
      → let (b, w'') = dropped u r w' in Sent u message w b w''
  unfolding remove ◌>>=◌
  dropped-Sent u socket message w (ok _) w' e h = (socket, e, h.0, h.1)
  dropped-Sent u socket message w (err _) w' e h = (
    lookup-erase u u w'.connections ∙ rw (eq_refl u),
    λ v ne. lookup-erase u v w'.connections ∙ rw (eq_false u v ne) (ap (lookup v) h),
  )

  -- A send either reaches the user's socket with one frame, and keeps the table, or it answers
  -- false: then the user has no connection left here, and the other users keep theirs. It never
  -- raises.
  pub send_json-Sent :
      (u : String) (message : Json) (w : World)
      → let (r, w') = send_json u message w in Sent u message w r w'
  unfolding send_json ◌>>=◌
  send_json-Sent u message w = elim (Option-cases (lookup u w.connections)) [
    | inl e ↦ rw e (e, λ v ne. refl)
    | inr (socket, e) ↦ rw e (
        dropped-Sent u socket message w (transmit socket message w).0 (transmit socket message w).1
          e (serve-Transmitted w.schedule socket message w))
  ]

-- ===== src/Websocket/ConnectionManager/Closing.antt =====
-- Closing every connection of an instance.
use realtime_notification_pl.Prelude.{
  ℕ, String, ◌≡◌, refl, sym, ◌∙◌, ap, inl, inr, List, [], ◌∷◌, ◌++◌, Option-cases,
}
use realtime_notification_pl.Prelude.Lists.{length}
use realtime_notification_pl.Prelude.Dict.{lookup, erase, keys, erase_each, erase_keys}
use realtime_notification_pl.Platform.{Platform}
use realtime_notification_pl.World.{
  World, ok, Fault, answered, refused, lost, Socket, serve, calm, ◌>>=◌,
}
use realtime_notification_pl.Websocket.ConnectionManager.{
  close_one, close_each, connected_user_ids, close_all,
}

module _ ⦃p : Platform⦄ where
  abbrev close_frame : Socket → ℕ → World → Unit {0} × World
  close_frame socket code w = (tt, record w { closed = w.closed ++ (socket, code) ∷ [] })

  -- whatever becomes of the close, the table is as before
  serve-connections :
      (fs : List Fault) (socket : Socket) (code : ℕ) (w : World)
      → (serve fs (close_frame socket code) w).1.connections ≡ w.connections
  serve-connections [] socket code w = refl
  serve-connections (answered ∷ fs) socket code w = refl
  serve-connections (refused ∷ fs) socket code w = refl
  serve-connections (lost ∷ fs) socket code w = refl

  close_one_lem :
      (code : ℕ) (u : String) (w : World)
      → let (r, w') = close_one code u w in (r ≡ ok tt) × (w'.connections ≡ erase u w.connections)
  unfolding close_one ◌>>=◌
  close_one_lem code u w = elim (Option-cases (lookup u w.connections)) [
    | inl e ↦ rw e (refl, refl)
    | inr (socket, e) ↦ rw e (refl, serve-connections w.schedule socket code _)
  ]

  close_each_lem :
      (code : ℕ) (us : List String) (w : World)
      → let (r, w') = close_each code us w in
        (r ≡ ok tt) × (w'.connections ≡ erase_each us w.connections)
  unfolding close_each ◌>>=◌
  close_each_lem code [] w = (refl, refl)
  close_each_lem code (u ∷ us) w =
      let (done, rest) = close_one_lem code u w in
      let (r, s) = close_each_lem code us (close_one code u w).1 in
      (rw done r, rw done (s ∙ ap (erase_each us) rest))

  -- However the sockets respond, closing everything answers the users that were connected, and
  -- leaves none: the table is empty and the gauge is zero.
  pub close_all-empty :
      (code : ℕ) (w : World)
      → let (r, w') = close_all code w in
        (r ≡ ok (keys w.connections)) × (w'.connections ≡ []) × (w'.metrics.active_connections ≡ 0)
  unfolding close_all connected_user_ids ◌>>=◌
  close_all-empty code w =
      let (done, rest) = close_each_lem code (keys w.connections) w in
      let empty : (close_each code (keys w.connections) w).1.connections ≡ [] =
        rest ∙ erase_keys w.connections in
      (rw done refl, rw done empty, rw done (ap length empty))

  serve-cache :
      (fs : List Fault) (socket : Socket) (code : ℕ) (w : World)
      → (serve fs (close_frame socket code) w).1.cache ≡ w.cache
  serve-cache [] socket code w = refl
  serve-cache (answered ∷ fs) socket code w = refl
  serve-cache (refused ∷ fs) socket code w = refl
  serve-cache (lost ∷ fs) socket code w = refl

  close_one-cache : (code : ℕ) (u : String) (w : World) → (close_one code u w).1.cache ≡ w.cache
  unfolding close_one ◌>>=◌
  close_one-cache code u w = elim (Option-cases (lookup u w.connections)) [
    | inl e ↦ rw e refl
    | inr (socket, e) ↦ rw e (serve-cache w.schedule socket code _)
  ]

  close_each-cache :
      (code : ℕ) (us : List String) (w : World) → (close_each code us w).1.cache ≡ w.cache
  unfolding close_each ◌>>=◌
  close_each-cache code [] w = refl
  close_each-cache code (u ∷ us) w =
      rw (close_one_lem code u w).0
        (close_each-cache code us (close_one code u w).1 ∙ close_one-cache code u w)

  -- However the sockets respond, closing everything leaves Redis as it was.
  pub close_all-cache : (code : ℕ) (w : World) → (close_all code w).1.cache ≡ w.cache
  unfolding close_all connected_user_ids ◌>>=◌
  close_all-cache code w =
      rw (close_each_lem code (keys w.connections) w).0
        (close_each-cache code (keys w.connections) w)

  -- where every service answers, every service still does
  close_one-calm :
      (code : ℕ) (u : String) (w : World) → w.schedule ≡ [] → (close_one code u w).1.schedule ≡ []
  unfolding close_one ◌>>=◌
  close_one-calm code u w h = elim (Option-cases (lookup u w.connections)) [
    | inl e ↦ rw e h
    | inr (socket, e) ↦ rw (e, h) refl
  ]

  close_each-calm :
      (code : ℕ) (us : List String) (w : World)
      → w.schedule ≡ []
      → (close_each code us w).1.schedule ≡ []
  unfolding close_each ◌>>=◌
  close_each-calm code [] w h = h
  close_each-calm code (u ∷ us) w h =
      let (done, rest) = close_one_lem code u w in
      rw done (close_each-calm code us (close_one code u w).1 (close_one-calm code u w h))

  pub close_all-calm : (code : ℕ) (w : World) → (close_all code (calm w)).1.schedule ≡ []
  unfolding close_all connected_user_ids ◌>>=◌
  close_all-calm code w =
      let (done, rest) = close_each_lem code (keys w.connections) (calm w) in
      rw done (close_each-calm code (keys w.connections) (calm w) refl)

  pub calm-id : (w : World) → w.schedule ≡ [] → calm w ≡ w
  calm-id w e = ap (λ fs. record w { schedule = fs }) (sym e)

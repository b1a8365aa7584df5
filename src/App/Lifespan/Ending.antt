-- ===== src/App/Lifespan/Ending.antt =====
-- What is left of an instance after its end.
use mathlib.Core.Path.{subst}
use realtime_notification_pl.Prelude.{◌≡◌, refl, ap, ◌∙◌, String, List, [], ◌∷◌}
use realtime_notification_pl.Config.{Settings}
use realtime_notification_pl.Platform.{Platform}
use realtime_notification_pl.World.{
  World, ok, err, unavailable, Fault, refused, Action, command, call, calm, ◌>>=◌,
}
use realtime_notification_pl.Prelude.Dict.{keys}
use realtime_notification_pl.Pubsub.InstanceRegistry.{unregister}
use realtime_notification_pl.Websocket.ConnectionManager.{close_all}
use realtime_notification_pl.Websocket.ConnectionManager.Closing.{
  calm-id, close_all-empty, close_all-cache,
}
use realtime_notification_pl.Api.Shutdown.{shutdown, forget_each}
use realtime_notification_pl.Api.Shutdown.Forgotten.{shutdown_lem}
use realtime_notification_pl.App.Lifespan.{start_up, release, tear_down, lifespan}
use realtime_notification_pl.App.Lifespan.Apart.{close_all-Apart, shutdown-Apart}
use realtime_notification_pl.App.Lifespan.Release.{AreSound, IsReleased, release_lem}

module _ ⦃p : Platform⦄ where
  -- When Redis refuses the removal of the first user's entry, after the sockets were closed,
  -- the end of the instance ends by that exception: no connection is left, but not one entry is
  -- removed from Redis, and the loops, the subscription, the client of Redis and the engine are as
  -- they were.
  pub tear_down_stops_short :
      (w : World) (u : String) (us : List String) (fs : List Fault)
      → keys w.connections ≡ u ∷ us
      → (close_all 1001 w).1.schedule ≡ refused ∷ fs
      → let (r, w') = tear_down w in
        (r ≡ err unavailable)
        × (w'.connections ≡ [])
        × (w'.cache ≡ w.cache)
        × (w'.process ≡ w.process)
  unfolding tear_down shutdown forget_each unregister command call ◌>>=◌
  tear_down_stops_short w u us fs h refusal =
      let (closed, empty, gauge) = close_all-empty 1001 w in
      rw (closed ∙ ap ok h, refusal)
        (refl, empty, close_all-cache 1001 w, (close_all-Apart 1001).at w)

  tear_down_lem :
      (w : World)
      → AreSound w.process
      → let (r, w') = tear_down (calm w) in
        (r ≡ ok tt)
        × (w'.connections ≡ [])
        × IsReleased w.process.engine w.process.disposed w'.process
  unfolding tear_down ◌>>=◌
  tear_down_lem w h =
      let (done, empty, answered) = shutdown_lem w in
      let w1 = (shutdown (calm w)).1 in
      let same = calm-id w1 answered in
      let sound : AreSound w1.process = rw (shutdown-Apart.at (calm w)) h in
      let (r, kept, released) = release_lem w1 sound in
      rw (done, ← same)
        (
          r,
          kept ∙ empty,
          subst (λ g. IsReleased g.engine g.disposed (release (calm w1)).1.process)
              (shutdown-Apart.at (calm w)) released,
        )

  -- An instance that was started, whose loops have not crashed, and whose calls are answered at its
  -- end, ends with the result of what it served, with no connection, no running loop, its
  -- subscription and its client of Redis closed, and the engine that it had, if any, disposed of,
  -- once and after those disposed of before.
  pub lifespan-IsReleased :
      (settings : Settings) (serve : Action Unit) (w : World)
      → (start_up settings w).0 ≡ ok tt
      → (serve (start_up settings w).1).1.schedule ≡ []
      → AreSound (serve (start_up settings w).1).1.process
      → let (r, w') = lifespan settings serve w in
        let w1 = (serve (start_up settings w).1).1 in
        (r ≡ (serve (start_up settings w).1).0)
        × (w'.connections ≡ [])
        × IsReleased w1.process.engine w1.process.disposed w'.process
  unfolding lifespan ◌>>=◌
  lifespan-IsReleased settings serve w started answered sound =
      let w1 = (serve (start_up settings w).1).1 in
      let (r, empty, released) = tear_down_lem w1 sound in
      let same = calm-id w1 answered in rw (started, ← same) (rw r refl, empty, released)

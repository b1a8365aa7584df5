-- ===== src/Tests/Lifespans.antt =====
-- Sessions, loops and engines from their start to their end.
use realtime_notification_pl.Prelude.{
  ℕ, ◌+◌, ◌≤◌, ◌≡◌, refl, true, String, Option, List, none, some, inl, [], ◌∷◌, arith, str_eq,
  if◌then◌else◌,
}
use realtime_notification_pl.Config.{defaults}
use realtime_notification_pl.Platform.Sample.{sample}
use realtime_notification_pl.World.{
  World, Action, call, command, modify, ◌>>=◌, ok, err, calm, unavailable, pure, refused, answered,
}
use realtime_notification_pl.Db.Connection.{get_session_factory, bind_factory}
use realtime_notification_pl.Db.Connection.Pool.{IsPooled}
use realtime_notification_pl.Db.Connection.Pooled.{
  engine, session, disposal, play, sessions_are_current,
}
use realtime_notification_pl.Websocket.ConnectionManager.{
  get_socket, is_connected, add, close_all, close_each, connected_user_ids,
}
use realtime_notification_pl.Websocket.Heartbeat.{
  ReconciliationLoop, reconcile, passes, start_reconciliation, start,
}
use realtime_notification_pl.Websocket.Heartbeat.Expiry.{IsLost}
use realtime_notification_pl.Websocket.Heartbeat.Reconciliation.{
  Reports, logged, warnings, reconcile-Reports, passes_only_warn,
}
use realtime_notification_pl.Websocket.Gateway.{admitted, garbled, accept, connect}
use realtime_notification_pl.Websocket.Gateway.Sockets.{admitted-get_socket, failed_connect_leaks}
use realtime_notification_pl.Pubsub.Subscriber.{start_subscriber}
use realtime_notification_pl.Pubsub.InstanceRegistry.{register, mark_alive}
use realtime_notification_pl.Presence.Manager.{mark_online}
use realtime_notification_pl.Presence.Store.{set_online, touch_last_seen}
use realtime_notification_pl.App.Lifespan.{start_up, tear_down, lifespan}
use realtime_notification_pl.App.Lifespan.Release.{AreSound, IsReleased}
use realtime_notification_pl.App.Lifespan.Ending.{tear_down_stops_short, lifespan-IsReleased}
use realtime_notification_pl.Tests.Worlds.{quiet, connected, gateway, idle}

accepted : (accept connected).0 ≡ ok tt
unfolding call
accepted = refl

opened : (connect gateway 43 "|." (accept connected).1).0 ≡ ok tt
unfolding connect add register mark_online set_online touch_last_seen command call pure ◌>>=◌
opened = refl

admitted-get_socket_example :
    let (r, w') = admitted gateway 43 "c" (garbled ∷ []) (some "|.") connected in
    get_socket "||." w' ≡ (if str_eq "|." "||." then none else get_socket "||." connected)
admitted-get_socket_example =
    admitted-get_socket gateway 43 "|." "||." "c" (garbled ∷ []) connected accepted opened

-- Redis refuses after the handshake
abbrev failing : World
failing = record connected { schedule = answered ∷ refused ∷ [] }

accepted_failing : (accept failing).0 ≡ ok tt
unfolding call
accepted_failing = refl

failed : (connect gateway 43 "|." (accept failing).1).0 ≡ err unavailable
unfolding connect add register mark_online set_online touch_last_seen command call pure ◌>>=◌
failed = refl

failed_connect_leaks_example :
    let (r, w') = admitted gateway 43 "c" [] (some "|.") failing in
    (r ≡ err unavailable) × (get_socket "|." w' ≡ some 43)
failed_connect_leaks_example =
    failed_connect_leaks gateway 43 "|." "c" [] failing unavailable accepted_failing failed

closing_refused : (close_all 1001 failing).1.schedule ≡ refused ∷ []
unfolding close_all connected_user_ids close_each call pure ◌>>=◌
closing_refused = refl

tear_down_stops_short_example :
    let (r, w') = tear_down failing in
    (r ≡ err unavailable)
    × (w'.connections ≡ [])
    × (w'.cache ≡ failing.cache)
    × (w'.process ≡ failing.process)
tear_down_stops_short_example = tear_down_stops_short failing "||." [] [] refl closing_refused

-- while the instance serves, a query makes the engine
abbrev querying : Action Unit
querying = do factory ← get_session_factory; pure tt

started : (start_up defaults quiet).0 ≡ ok tt
unfolding start_up start_subscriber start_reconciliation start mark_alive call command pure modify
    ◌>>=◌
started = refl

end_answered : (querying (start_up defaults quiet).1).1.schedule ≡ []
unfolding get_session_factory bind_factory start_up start_subscriber start_reconciliation start
    mark_alive call command pure modify ◌>>=◌
end_answered = refl

end_sound : AreSound (querying (start_up defaults quiet).1).1.process
unfolding get_session_factory bind_factory start_up start_subscriber start_reconciliation start
    mark_alive call command pure modify ◌>>=◌
end_sound = record { liveness = tt; reconciliation = tt; subscriber = tt }

lifespan-IsReleased_example :
    let (r, w') = lifespan defaults querying quiet in
    (r ≡ ok tt) × (w'.connections ≡ []) × IsReleased (some 0) [] w'.process
unfolding get_session_factory bind_factory start_up start_subscriber start_reconciliation start
    mark_alive call command pure modify ◌>>=◌
lifespan-IsReleased_example =
    lifespan-IsReleased defaults querying quiet started end_answered end_sound

idle-IsPooled : IsPooled idle
idle-IsPooled = record {
  bound = inl refl;
  made = λ n e. absurd (cc e);
  released = λ n lt. absurd (omega arith);
}

sessions_are_current_example :
    let (r, w') = get_session_factory (play (session ∷ disposal ∷ engine ∷ []) quiet) in
    IsPooled w'.process × ((n : ℕ) × (r ≡ ok n) × (w'.process.engine ≡ some n))
sessions_are_current_example =
    sessions_are_current (session ∷ disposal ∷ engine ∷ []) quiet idle-IsPooled

reconcile-Reports_example :
    (xs : List (String × Option String)) × (reconcile "i1" (calm connected)
      ≡ (ok tt, logged xs (calm connected)))
    × Reports "i1" connected ("||." ∷ []) xs
reconcile-Reports_example = reconcile-Reports "i1" connected

-- connected, and unknown to Redis
abbrev expired : World
expired = record quiet { connections = ("||.", 41) ∷ [] }

expired-IsLost : IsLost "||." expired
expired-IsLost = record { presence = λ d. refl; owner = λ d. refl }

here : is_connected "||." expired ≡ true
unfolding is_connected
here = refl

abbrev reconciliation : ReconciliationLoop
reconciliation = record { instance_id = "i2"; interval_seconds = 30 }

passes_only_warn_example :
    let w' = (passes reconciliation 3 (calm expired)).1 in
    IsLost "||." w'
    × (3 + warnings "||." expired.process.drift_warnings ≤ warnings "||." w'.process.drift_warnings)
passes_only_warn_example = passes_only_warn reconciliation 3 "||." expired expired-IsLost here

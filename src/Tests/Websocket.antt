-- ===== src/Tests/Websocket.antt =====
-- Connections, tickets, heartbeats and the liveness of an instance.
use realtime_notification_pl.Prelude.{
  ◌+◌, ◌*◌, ◌<◌, ◌≡◌, ◌≢◌, refl, true, false, none, some, [], ◌∷◌, arith, eq_iff, String,
}
use realtime_notification_pl.Json.{null}
use realtime_notification_pl.Platform.Sample.{sample}
use realtime_notification_pl.World.{World, ok, calm, wait}
use realtime_notification_pl.Presence.Store.{get_status}
use realtime_notification_pl.Pubsub.InstanceRegistry.{lookup, is_alive}
use realtime_notification_pl.Websocket.AuthHandshake.{WsTicketAuth, issue_ticket, redeem_ticket}
use realtime_notification_pl.Websocket.AuthHandshake.SingleUse.{redeem-issue, redeem_twice}
use realtime_notification_pl.Websocket.ConnectionManager.{get_socket, send_json}
use realtime_notification_pl.Websocket.ConnectionManager.Registry.{Sent, send_json-Sent}
use realtime_notification_pl.Websocket.Heartbeat.{start, rounds, interval_seconds}
use realtime_notification_pl.Websocket.Heartbeat.Expiry.{IsLost, beats, beats_restore_nothing}
use realtime_notification_pl.Websocket.Heartbeat.Liveness.{refusing, missed_rounds-is_alive}
use realtime_notification_pl.Websocket.Gateway.{connect, clean_up}
use realtime_notification_pl.Websocket.Gateway.Lifecycle.{reconnect_is_forgotten}
use realtime_notification_pl.Api.Notifications.{deliver_live}
use realtime_notification_pl.Api.Auth.Subjects.{other_spelling_is_unreachable}
use realtime_notification_pl.Tests.Worlds.{quiet, connected, seven, body, heartbeats, loop, gateway}

abbrev tickets : WsTicketAuth
tickets = record { ttl_seconds = 10 }

redeem-issue_example :
    (redeem_ticket "t" (wait 9 (issue_ticket tickets "t" "||." (calm quiet)).1)).0 ≡ ok (some "||.")
redeem-issue_example = redeem-issue tickets "t" "||." 9 quiet (omega arith)

abbrev issued : World
issued = (issue_ticket tickets "t" "||." (calm quiet)).1

issued_redeems : (redeem_ticket "t" (wait 1 issued)).0 ≡ ok (some "||.")
issued_redeems = redeem-issue tickets "t" "||." 1 quiet (omega arith)

redeem_twice_example :
    (redeem_ticket "t" (wait 1 (redeem_ticket "t" (wait 1 issued)).1)).0 ≢ ok (some "||.")
redeem_twice_example = redeem_twice "t" (some "||.") "||." 1 (wait 1 issued) issued_redeems

send_json-Sent_example :
    let (r, w') = send_json "||." null connected in Sent "||." null connected r w'
send_json-Sent_example = send_json-Sent "||." null connected

quiet-IsLost : IsLost "||." quiet
quiet-IsLost = record { presence = λ d. refl; owner = λ d. refl }

beats_restore_nothing_example :
    ((get_status "||." (calm (beats heartbeats "||." (15 ∷ 15 ∷ []) quiet))).0 ≡ ok "offline")
    × ((lookup "||." (calm (beats heartbeats "||." (15 ∷ 15 ∷ []) quiet))).0 ≡ ok none)
beats_restore_nothing_example =
    beats_restore_nothing heartbeats "||." (15 ∷ 15 ∷ []) quiet (omega arith) (omega arith)
      quiet-IsLost

-- a lifetime of 15 seconds
short : 4 < interval_seconds loop
unfolding interval_seconds
short = omega arith

abbrev two_missed : World
two_missed =
    (rounds loop 2 (refusing loop 2 (rounds loop 3 (calm (start loop (calm quiet)).1)).1)).1

missed_rounds-is_alive_example :
    ((is_alive "i2" (calm (wait 4 two_missed))).0 ≡ ok true)
    × (two_missed.now ≡ quiet.now + 5 * interval_seconds loop)
missed_rounds-is_alive_example =
    missed_rounds-is_alive loop 3 2 4 quiet (omega arith) (omega arith) short

abbrev both : World
both = (connect gateway 44 "||." (calm (connect gateway 43 "||." (calm quiet)).1)).1

abbrev after : World
after = beats heartbeats "||." (15 ∷ []) (clean_up "||." (calm both)).1

reconnect_is_forgotten_example :
    ((get_status "||." (calm both)).0 ≡ ok "online")
    × ((lookup "||." (calm both)).0 ≡ ok (some gateway.instance_id))
    × ((get_status "||." (calm after)).0 ≡ ok "offline")
    × ((lookup "||." (calm after)).0 ≡ ok none)
reconnect_is_forgotten_example =
    reconnect_is_forgotten gateway gateway heartbeats "||." 43 44 (15 ∷ []) quiet (omega arith)
      (omega arith) (omega arith) (omega arith)

starred : ◌≢◌ {A = String} "||*" "||."
starred = ground (arith, eq_iff "||*" "||.")

abbrev elsewhere : World
elsewhere = (connect gateway 45 "||*" (calm quiet)).1

other_spelling_is_unreachable_example :
    (get_socket "||*" elsewhere ≡ some 45)
    × (deliver_live body seven (calm elsewhere) ≡ (ok false, calm elsewhere))
other_spelling_is_unreachable_example =
    other_spelling_is_unreachable gateway 45 "||*" body seven quiet (omega arith) (omega arith) refl
      starred refl

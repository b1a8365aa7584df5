-- ===== src/Pubsub/Subscriber.antt =====
-- app/pubsub/subscriber.py: the loop that a gateway instance runs over its own channel.
use realtime_notification_pl.Prelude.{
  String, Option, none, some, List, [], ◌∷◌, str_eq, not, if◌then◌else◌,
}
use realtime_notification_pl.Json.{Json}
use realtime_notification_pl.Platform.{Platform}
use realtime_notification_pl.Pubsub.Publisher.{instance_channel}
use realtime_notification_pl.World.{
  World, Action, Task, running, stop_task, value, pure, raise, gets, modify, call, suppress, ◌>>=◌,
  ◌>>◌,
}

module _ ⦃p : Platform⦄ where
  -- what `pubsub.listen()` yields; a confirmation of a subscription has another type
  pub record Message : Type 0 where
    pub type : String
    pub payload : p.Wire

  -- MessageHandler
  abbrev pub Handler : Type 0
  Handler = Json → Action Unit

  -- what the subscription to a channel receives of what was published
  abbrev pub received : String → List (String × p.Wire) → List Message
  received channel [] = []
  received channel ((c, m) ∷ rest) =
      if str_eq c channel
      then record { type = "message"; payload = m } ∷ received channel rest
      else received channel rest

  -- a text that is no JSON is discarded, and a failing handler does not end the loop
  abbrev pub handle : Handler → Option Json → Action Unit
  handle handler none = pure tt
  handle handler (some payload) = suppress (handler payload)

  -- bytes that cannot be decoded raise a ValueError that is no JSONDecodeError: it ends the loop
  abbrev pub receive : Handler → Message → Action Unit
  receive handler m =
      if not (str_eq m.type "message")
      then pure tt
      else if p.is_unicode m.payload
      then handle handler (p.loads m.payload)
      else raise value

  unfoldable pub listen : Handler → List Message → Action Unit
  listen handler [] = pure tt
  listen handler (m ∷ rest) = receive handler m >> listen handler rest

  abbrev pub put_subscriber_task : Option Task → World → World
  put_subscriber_task t w = record w { process = record (w.process) { subscriber_task = t } }

  -- `Subscriber.start`: the subscription, then the task
  unfoldable pub start_subscriber : String → Action Unit
  start_subscriber instance_id = do
    call (λ w. (
      tt,
      record w {
        process = record (w.process) { subscribed = some (instance_channel instance_id) };
      },
    ))
    modify (put_subscriber_task (some running))

  -- `Subscriber.stop`
  abbrev pub close_pubsub : Option String → Action Unit
  close_pubsub none = pure tt
  close_pubsub (some channel) =
      call (λ w. (tt, record w { process = record (w.process) { subscribed = none } }))

  unfoldable pub stop_subscriber : Action Unit
  stop_subscriber = do
    task ← gets (λ w. w.process.subscriber_task)
    stop_task task put_subscriber_task
    subscribed ← gets (λ w. w.process.subscribed)
    close_pubsub subscribed

-- ===== src/App/Lifespan/Release.antt =====
-- The loops and the clients after the end of an instance.
use mathlib.Core.List.{append-nil}
use realtime_notification_pl.Prelude.{
  ℕ, ◌≡◌, ◌≢◌, refl, sym, ap, String, true, Option, none, some, List, [], ◌∷◌, ◌++◌,
}
use realtime_notification_pl.Platform.{Platform}
use realtime_notification_pl.World.{
  World, Process, Task, running, cancelled, crashed, ok, calm, modify, pure, call, stop_task, ◌>>=◌,
  ◌>>◌,
}
use realtime_notification_pl.Pubsub.Subscriber.{put_subscriber_task, close_pubsub, stop_subscriber}
use realtime_notification_pl.Db.Connection.{put_process, dispose, dispose_engine}
use realtime_notification_pl.Websocket.Heartbeat.{
  put_liveness_task, put_reconciliation_task, stop_liveness, stop_reconciliation,
}
use realtime_notification_pl.App.Lifespan.{release}

-- a task that has not ended by an exception of its own
abbrev pub IsSound : Option Task → Type 0
IsSound (some (crashed e)) = ⊥
IsSound _ = Unit

abbrev stopped : Option Task → Option Task
stopped none = none
stopped (some t) = some cancelled

not_running : (t : Option Task) → stopped t ≢ some running
not_running none = λ e. cc e
not_running (some t) = λ e. cc e

pub record AreSound (g : Process) : Type 0 where
  pub liveness : IsSound g.liveness_task
  pub reconciliation : IsSound g.reconciliation_task
  pub subscriber : IsSound g.subscriber_task

-- no loop runs, and the client of Redis is closed
record IsQuiet (g : Process) : Type 0 where
  liveness : g.liveness_task ≢ some running
  reconciliation : g.reconciliation_task ≢ some running
  subscriber : g.subscriber_task ≢ some running
  unsubscribed : g.subscribed ≡ none
  redis : g.redis_closed ≡ true

-- the engine that an option names
abbrev pub engines : Option ℕ → List ℕ
engines none = []
engines (some n) = n ∷ []

-- no loop runs, the client of Redis is closed, and the engine that there was is disposed of, after
-- those that had been before it, and is no longer named
pub record IsReleased (engine : Option ℕ) (disposed : List ℕ) (g : Process) : Type 0 where
  pub liveness : g.liveness_task ≢ some running
  pub reconciliation : g.reconciliation_task ≢ some running
  pub subscriber : g.subscriber_task ≢ some running
  pub unsubscribed : g.subscribed ≡ none
  pub redis : g.redis_closed ≡ true
  pub disposal : g.disposed ≡ disposed ++ engines engine
  pub engine_gone : g.engine ≡ none
  pub session_factory : g.session_factory ≡ none

module _ ⦃p : Platform⦄ where
  stop_task_lem :
      (t : Option Task) (put : Option Task → World → World) (w : World)
      → put t w ≡ w
      → IsSound t
      → stop_task t put w ≡ (ok tt, put (stopped t) w)
  unfolding pure modify
  stop_task_lem none put w e h = ap (λ v. (ok tt, v)) (sym e)
  stop_task_lem (some running) put w e h = refl
  stop_task_lem (some cancelled) put w e h = ap (λ v. (ok tt, v)) (sym e)
  stop_task_lem (some (crashed x)) put w e h = absurd h

  stop_liveness_lem :
      (w : World)
      → IsSound w.process.liveness_task
      → stop_liveness w ≡ (ok tt, put_liveness_task (stopped w.process.liveness_task) w)
  unfolding stop_liveness ◌>>=◌
  stop_liveness_lem w h = stop_task_lem w.process.liveness_task put_liveness_task w refl h

  stop_reconciliation_lem :
      (w : World)
      → IsSound w.process.reconciliation_task
      → stop_reconciliation w
        ≡ (ok tt, put_reconciliation_task (stopped w.process.reconciliation_task) w)
  unfolding stop_reconciliation ◌>>=◌
  stop_reconciliation_lem w h =
      stop_task_lem w.process.reconciliation_task put_reconciliation_task w refl h

  unsubscribed : World → World
  unsubscribed w = record w { process = record (w.process) { subscribed = none } }

  close_pubsub_lem :
      (o : Option String) (w : World)
      → w.process.subscribed ≡ o
      → close_pubsub o (calm w) ≡ (ok tt, unsubscribed (calm w))
  unfolding unsubscribed pure call
  close_pubsub_lem none w e =
      ap (λ s. (ok tt, record (calm w) { process = record (w.process) { subscribed = s } })) e
  close_pubsub_lem (some channel) w e = refl

  stop_subscriber_lem :
      (w : World)
      → IsSound w.process.subscriber_task
      → stop_subscriber (calm w)
        ≡ (ok tt, unsubscribed (put_subscriber_task (stopped w.process.subscriber_task) (calm w)))
  unfolding stop_subscriber ◌>>=◌
  stop_subscriber_lem w h =
      rw (stop_task_lem w.process.subscriber_task put_subscriber_task (calm w) refl h) (
        close_pubsub_lem w.process.subscribed
          (put_subscriber_task (stopped w.process.subscriber_task) w) refl)

  disposed_lem :
      (o : Option ℕ) (w : World)
      → IsQuiet w.process
      → let (r, w') =
          (do
            dispose o
            modify (put_process (λ g. record g { engine = none; session_factory = none })))
            (calm w) in
        (r ≡ ok tt) × (w'.connections ≡ w.connections) × IsReleased o w.process.disposed w'.process
  unfolding ◌>>=◌
  disposed_lem none w h = (
    refl,
    refl,
    record {
      liveness = h.liveness;
      reconciliation = h.reconciliation;
      subscriber = h.subscriber;
      unsubscribed = h.unsubscribed;
      redis = h.redis;
      disposal = sym (append-nil w.process.disposed);
      engine_gone = refl;
      session_factory = refl;
    },
  )
  disposed_lem (some n) w h = (
    refl,
    refl,
    record {
      liveness = h.liveness;
      reconciliation = h.reconciliation;
      subscriber = h.subscriber;
      unsubscribed = h.unsubscribed;
      redis = h.redis;
      disposal = refl;
      engine_gone = refl;
      session_factory = refl;
    },
  )

  -- with every call answered, everything is let go
  pub release_lem :
      (w : World)
      → AreSound w.process
      → let (r, w') = release (calm w) in
        (r ≡ ok tt)
        × (w'.connections ≡ w.connections)
        × IsReleased w.process.engine w.process.disposed w'.process
  unfolding release dispose_engine unsubscribed ◌>>=◌
  release_lem w h =
      rw
        (
          stop_liveness_lem (calm w) h.liveness,
          stop_reconciliation_lem (put_liveness_task (stopped w.process.liveness_task) (calm w))
              h.reconciliation,
          stop_subscriber_lem
              (put_reconciliation_task (stopped w.process.reconciliation_task)
                (put_liveness_task (stopped w.process.liveness_task) (calm w)))
              h.subscriber,
        )
        (disposed_lem w.process.engine
          (put_process (λ g. record g { redis_closed = true })
            (unsubscribed (
              put_subscriber_task (stopped w.process.subscriber_task) (
                put_reconciliation_task (stopped w.process.reconciliation_task)
                  (put_liveness_task (stopped w.process.liveness_task) (calm w))))))
          (record {
            liveness = not_running w.process.liveness_task;
            reconciliation = not_running w.process.reconciliation_task;
            subscriber = not_running w.process.subscriber_task;
            unsubscribed = refl;
            redis = refl;
          }))

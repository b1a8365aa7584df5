-- ===== src/Websocket/Heartbeat.antt =====
-- app/websocket/heartbeat.py
pub mod Expiry
pub mod Liveness
pub mod Reconciliation
use Prim.Native.Nat.{max, ◌/◌}
use realtime_notification_pl.Prelude.{
  ℕ, zero, suc, ◌*◌, String, Bool, true, false, not, Option, none, some, List, [], ◌∷◌, str_eq,
  if◌then◌else◌,
}
use mathlib.Core.List as List
use realtime_notification_pl.Platform.{Platform}
use realtime_notification_pl.World.{
  World, Action, Task, running, stop_task, pure, gets, modify, wait, suppress, ◌>>=◌, ◌>>◌,
}
use realtime_notification_pl.Presence.Manager.{PresenceManager, heartbeat}
use realtime_notification_pl.Pubsub.InstanceRegistry.{refresh, lookup, mark_alive}
use realtime_notification_pl.Websocket.ConnectionManager.{connected_user_ids}

pub record HeartbeatHandler : Type 0 where
  pub presence : PresenceManager
  pub ttl_seconds : ℕ

pub record ReconciliationLoop : Type 0 where
  pub instance_id : String
  pub interval_seconds : ℕ

pub record InstanceLivenessLoop : Type 0 where
  pub instance_id : String
  pub ttl_seconds : ℕ

-- `_interval_seconds`
unfoldable pub interval_seconds : InstanceLivenessLoop → ℕ
interval_seconds self = max 1 (self.ttl_seconds / 3)

-- `owner != self._instance_id`
abbrev pub drifts : String → Option String → Bool
drifts instance_id none = true
drifts instance_id (some owner) = not (str_eq owner instance_id)

module _ ⦃p : Platform⦄ where
  -- `HeartbeatHandler.handle`
  unfoldable pub handle : HeartbeatHandler → String → Action Unit
  handle self user_id = do heartbeat self.presence user_id; refresh user_id self.ttl_seconds

  -- the warning of a drift
  abbrev pub warn : String → Option String → Action Unit
  warn user_id owner = modify (λ w. record w {
    process = record (w.process) {
      drift_warnings = List.◌++◌ w.process.drift_warnings ((user_id, owner) ∷ []);
    };
  })

  -- `ReconciliationLoop._reconcile`
  unfoldable pub reconcile_each : String → List String → Action Unit
  reconcile_each instance_id [] = pure tt
  reconcile_each instance_id (user_id ∷ rest) = do
    owner ← lookup user_id
    if drifts instance_id owner then warn user_id owner else pure tt
    reconcile_each instance_id rest

  unfoldable pub reconcile : String → Action Unit
  unfolding reconcile_each
  reconcile instance_id = do user_ids ← gets connected_user_ids; reconcile_each instance_id user_ids

  -- passes of `ReconciliationLoop._run`: sleep, reconcile, and log a failure
  unfoldable pub passes : ReconciliationLoop → ℕ → Action Unit
  unfolding reconcile
  passes self zero = pure tt
  passes self (suc n) = do
    modify (wait self.interval_seconds)
    suppress (reconcile self.instance_id)
    passes self n

  abbrev pub put_reconciliation_task : Option Task → World → World
  put_reconciliation_task t w = record w {
    process = record (w.process) { reconciliation_task = t };
  }

  abbrev pub put_liveness_task : Option Task → World → World
  put_liveness_task t w = record w { process = record (w.process) { liveness_task = t } }

  -- `ReconciliationLoop.start` and `stop`
  unfoldable pub start_reconciliation : Action Unit
  start_reconciliation = modify (put_reconciliation_task (some running))

  unfoldable pub stop_reconciliation : Action Unit
  stop_reconciliation = do
    task ← gets (λ w. w.process.reconciliation_task)
    stop_task task put_reconciliation_task

  -- `InstanceLivenessLoop.start` and `stop`
  unfoldable pub start : InstanceLivenessLoop → Action Unit
  start self = do
    mark_alive self.instance_id self.ttl_seconds
    modify (put_liveness_task (some running))

  unfoldable pub stop_liveness : Action Unit
  stop_liveness = do task ← gets (λ w. w.process.liveness_task); stop_task task put_liveness_task

  -- one round of `_run`: sleep, then refresh, and log a failure
  unfoldable pub round : InstanceLivenessLoop → Action Unit
  round self = do
    modify (wait (interval_seconds self))
    suppress (mark_alive self.instance_id self.ttl_seconds)

  unfoldable pub rounds : InstanceLivenessLoop → ℕ → Action Unit
  unfolding round
  rounds self zero = pure tt
  rounds self (suc n) = round self >> rounds self n

-- ===== src/Db/Connection.antt =====
-- app/db/connection.py: the engine and the session factory, made when they are first asked for and
-- kept in globals of the module.
pub mod Pool
pub mod Pooled
use realtime_notification_pl.Prelude.{ℕ, ◌+◌, Bool, Option, none, some, [], ◌∷◌, ◌++◌}
use realtime_notification_pl.Platform.{Platform}
use realtime_notification_pl.World.{World, Process, Action, pure, gets, modify, call, ◌>>=◌, ◌>>◌}

module _ ⦃p : Platform⦄ where
  abbrev pub put_process : (Process → Process) → World → World
  put_process f w = record w { process = f w.process }

  -- `create_async_engine(...)` opens no connection yet: a new engine, with the next number
  unfoldable pub create_engine : Action ℕ
  create_engine = do
    n ← gets (λ w. w.process.engines)
    modify (put_process (λ g. record g { engines = g.engines + 1; engine = some n }))
    pure n

  abbrev pub or_create : Option ℕ → Action ℕ
  or_create none = create_engine
  or_create (some n) = pure n

  unfoldable pub get_engine : Action ℕ
  get_engine = do engine ← gets (λ w. w.process.engine); or_create engine

  -- a factory is known by the engine that it is bound to
  unfoldable pub bind_factory : Action ℕ
  unfolding get_engine create_engine
  bind_factory = do
    n ← get_engine
    modify (put_process (λ g. record g { session_factory = some n }))
    pure n

  abbrev pub or_bind : Option ℕ → Action ℕ
  or_bind none = bind_factory
  or_bind (some n) = pure n

  unfoldable pub get_session_factory : Action ℕ
  get_session_factory = do factory ← gets (λ w. w.process.session_factory); or_bind factory

  -- `await _engine.dispose()`
  abbrev pub dispose : Option ℕ → Action Unit
  dispose none = pure tt
  dispose (some n) =
      call (λ w. (tt, put_process (λ g. record g { disposed = g.disposed ++ n ∷ [] }) w))

  unfoldable pub dispose_engine : Action Unit
  dispose_engine = do
    engine ← gets (λ w. w.process.engine)
    dispose engine
    modify (put_process (λ g. record g { engine = none; session_factory = none }))

-- ===== src/Db/Connection/Pooled.antt =====
-- Engines and factories over the life of a process.
use realtime_notification_pl.Prelude.{
  ℕ, ◌≡◌, refl, ◌⊎◌, inl, inr, none, some, List, [], ◌∷◌, ◌++◌, Option-cases,
}
use realtime_notification_pl.Platform.{Platform}
use realtime_notification_pl.World.{
  World, ok, Fault, answered, refused, lost, serve, continue, modify, ◌>>=◌,
}
use realtime_notification_pl.Db.Connection.{
  put_process, create_engine, get_engine, bind_factory, get_session_factory, dispose_engine,
}
use realtime_notification_pl.Db.Connection.Pool.{
  IsPooled, create-IsPooled, bind-IsPooled, disposing-IsPooled, cleared, reset_none-IsPooled,
  reset-IsPooled,
}

pub data Use : Type 0 where
  engine session disposal : Use

module _ ⦃p : Platform⦄ where
  -- a caller that is given an engine is given the current one
  pub get_engine_lem :
      (w : World)
      → IsPooled w.process
      → let (r, w') = get_engine w in
        IsPooled w'.process × ((n : ℕ) × (r ≡ ok n) × (w'.process.engine ≡ some n))
  unfolding get_engine create_engine ◌>>=◌
  get_engine_lem w h = elim (Option-cases w.process.engine) [
    | inl e ↦ simp e (create-IsPooled w.process h e, (w.process.engines, refl, refl))
    | inr (n, e) ↦ simp e (h, (n, refl, refl))
  ]

  bind_factory_lem :
      (w : World)
      → IsPooled w.process
      → let (r, w') = bind_factory w in
        IsPooled w'.process × ((n : ℕ) × (r ≡ ok n) × (w'.process.engine ≡ some n))
  unfolding bind_factory ◌>>=◌
  bind_factory_lem w h =
      let (pooled, (n, given, current)) = get_engine_lem w h in
      rw given (bind-IsPooled _ n pooled current, (n, refl, current))

  pub get_session_factory_lem :
      (w : World)
      → IsPooled w.process
      → let (r, w') = get_session_factory w in
        IsPooled w'.process × ((n : ℕ) × (r ≡ ok n) × (w'.process.engine ≡ some n))
  unfolding get_session_factory ◌>>=◌
  get_session_factory_lem w h = elim (Option-cases w.process.session_factory) [
    | inl e ↦ simp e (bind_factory_lem w h)
    | inr (n, e) ↦ simp e (h, (n, refl, bound n e h.bound))
  ]
    where
      bound :
          (n : ℕ)
          → w.process.session_factory ≡ some n
          → (w.process.session_factory ≡ none) ⊎ (w.process.session_factory ≡ w.process.engine)
          → w.process.engine ≡ some n
      bound n e (inl f) = absurd (cc (e, f))
      bound n e (inr f) = cc (e, f)

  abbrev disposing : ℕ → World → Unit {0} × World
  disposing n w = (tt, put_process (λ g. record g { disposed = g.disposed ++ n ∷ [] }) w)

  -- `await _engine.dispose()` and what follows it
  dispose_lem :
      (n : ℕ) (fs : List Fault) (w : World)
      → IsPooled w.process
      → w.process.engine ≡ some n
      → let (r, v) = serve fs (disposing n) w in
        IsPooled (continue r (λ _. modify (put_process cleared)) v).1.process
  unfolding modify
  dispose_lem n [] w h e = reset-IsPooled w.process n h e
  dispose_lem n (answered ∷ fs) w h e = reset-IsPooled w.process n h e
  dispose_lem n (refused ∷ fs) w h e = h
  dispose_lem n (lost ∷ fs) w h e = disposing-IsPooled w.process n h

  dispose_engine-IsPooled : (w : World) → IsPooled w.process → IsPooled (dispose_engine w).1.process
  unfolding dispose_engine ◌>>=◌
  dispose_engine-IsPooled w h = elim (Option-cases w.process.engine) [
    | inl e ↦ simp e (reset_none-IsPooled w.process h e)
    | inr (n, e) ↦ simp e (dispose_lem n w.schedule w h e)
  ]

  -- what the requests and the shutdown do to the globals
  abbrev pub perform : Use → World → World
  perform engine w = (get_engine w).1
  perform session w = (get_session_factory w).1
  perform disposal w = (dispose_engine w).1

  abbrev pub play : List Use → World → World
  play [] w = w
  play (x ∷ xs) w = play xs (perform x w)

  perform-IsPooled : (x : Use) (w : World) → IsPooled w.process → IsPooled (perform x w).process
  perform-IsPooled engine w h = (get_engine_lem w h).0
  perform-IsPooled session w h = (get_session_factory_lem w h).0
  perform-IsPooled disposal w h = dispose_engine-IsPooled w h

  play-IsPooled : (xs : List Use) (w : World) → IsPooled w.process → IsPooled (play xs w).process
  play-IsPooled [] w h = h
  play-IsPooled (x ∷ xs) w h = play-IsPooled xs (perform x w) (perform-IsPooled x w h)

  -- From a pooled state, after any requests for the engine and for sessions, and any disposals,
  -- also failing ones: no engine that was replaced has been left open, and a session that is asked
  -- for is bound to the current engine.
  pub sessions_are_current :
      (xs : List Use) (w : World)
      → IsPooled w.process
      → let (r, w') = get_session_factory (play xs w) in
        IsPooled w'.process × ((n : ℕ) × (r ≡ ok n) × (w'.process.engine ≡ some n))
  sessions_are_current xs w h = get_session_factory_lem (play xs w) (play-IsPooled xs w h)

-- ===== src/World.antt =====
-- One gateway instance with the services that it talks to, and the actions of its coroutines.
-- Each awaited call of a service is answered, or is refused, or is carried out with its answer
-- lost: the schedule lists what the environment chooses for the calls to come.
pub mod Keeps
pub mod Frame
pub mod Quiet
use realtime_notification_pl.Prelude.{ℕ, ◌+◌, String, Bool, Option, none, some, List, [], ◌∷◌}
use realtime_notification_pl.Prelude.Dict.{Dict}
use realtime_notification_pl.Prelude.Int.{ℤ}
use realtime_notification_pl.Json.{Json}
use realtime_notification_pl.Platform.{Platform}

-- the exceptions
pub data Error : Type 0 where
  -- of redis.asyncio, of SQLAlchemy, or of a socket
  unavailable : Error
  disconnect : Error
  -- `HTTPException(status_code, detail)`
  http : ℕ → String → Error
  -- ValidationError, AttributeError, KeyError and TypeError, ValueError
  validation attribute key_or_type value : Error

pub data Result (A : Type 0) : Type 0 where
  ok : A → Result A
  err : Error → Result A

pub data Fault : Type 0 where
  answered refused lost : Fault

-- core/metrics.py
pub record Metrics : Type 0 where
  pub active_connections : ℕ
  pub notifications_persisted_total : ℕ
  pub notifications_delivered_live_total : ℕ
  pub ws_messages_received_total : List String
  pub rate_limited_total : ℕ
  pub read_receipts_recorded_total : ℕ
  pub delivery_latency_seconds : List ℤ

-- an asyncio task; `crashed` has ended by an exception of its own
pub data Task : Type 0 where
  running cancelled : Task
  crashed : Error → Task

-- the fields of a request's log line
pub record RequestLine : Type 0 where
  pub request_id : String
  pub method : String
  pub path : String
  pub status_code : ℕ
  pub duration_ms : ℕ

-- What the process holds besides its connections: the tasks of its loops, the subscription, the
-- client of Redis, and the globals of db/connection.py, where an engine is known by its number and a
-- session factory by the engine that it is bound to.
pub record Process : Type 0 where
  pub subscriber_task : Option Task
  pub reconciliation_task : Option Task
  pub liveness_task : Option Task
  pub subscribed : Option String
  -- what a reconciliation pass has logged: a user, and the owner that was found
  pub drift_warnings : List (String × Option String)
  -- the lines of "app.request"
  pub request_log : List RequestLine
  pub redis_closed : Bool
  pub engines : ℕ
  pub engine : Option ℕ
  pub session_factory : Option ℕ
  pub disposed : List ℕ

-- A socket, by its identity.
abbrev pub Socket : Type 0
Socket = ℕ

module _ ⦃p : Platform⦄ where
  pub record World : Type 0 where
    pub cache : p.redis.State
    -- what is committed, and what the session at hand sees
    pub database : p.postgres.State
    pub session : p.postgres.State
    -- what was published, by channel
    pub published : List (String × p.Wire)
    -- `ConnectionManager._connections`
    pub connections : Dict Socket
    -- the frames sent, and the sockets closed with their code
    pub frames : List (Socket × Json)
    pub closed : List (Socket × ℕ)
    pub metrics : Metrics
    pub process : Process
    pub now : ℕ
    pub schedule : List Fault

  abbrev pub Action : Type 0 → Type 0
  Action A = World → Result A × World

  -- every service answers from here on
  abbrev pub calm : World → World
  calm w = record w { schedule = [] }

  module _ {A : Type 0} where
    unfoldable pub pure : A → Action A
    pure a w = (ok a, w)

    unfoldable pub raise : Error → Action A
    raise e w = (err e, w)

    unfoldable pub gets : (World → A) → Action A
    gets f w = (ok (f w), w)

    abbrev pub settle : Fault → World → A × World → Result A × World
    settle answered w (a, w') = (ok a, w')
    settle refused w (a, w') = (err unavailable, w)
    settle lost w (a, w') = (err unavailable, w')

    abbrev pub serve : List Fault → (World → A × World) → Action A
    serve [] m w = (ok (m w).0, (m w).1)
    serve (f ∷ rest) m w = let w' = record w { schedule = rest } in settle f w' (m w')

    -- an awaited call
    unfoldable pub call : (World → A × World) → Action A
    call m w = serve w.schedule m w

  unfoldable pub modify : (World → World) → Action (Unit {0})
  modify f w = (ok tt, f w)

  -- a command to Redis
  unfoldable pub command : {A : Type 0} → (p.redis.State → A × p.redis.State) → Action A
  unfolding call
  command f = call (λ w. let (a, s) = f w.cache in (a, record w { cache = s }))

  abbrev pub command_ : (p.redis.State → p.redis.State) → Action (Unit {0})
  command_ f = command (λ s. (tt, f s))

  abbrev pub query : {A : Type 0} → (p.redis.State → A) → Action A
  query f = command (λ s. (f s, s))

  abbrev pub continue : {A B : Type 0} → Result A → (A → Action B) → Action B
  continue (ok a) f w = f a w
  continue (err e) f w = (err e, w)

  -- an exception ends the coroutine, and what was done before it stays done
  infixl 5 ◌>>=◌ ◌>>◌
  -- (opening this opens every action above)
  unfoldable pub ◌>>=◌ : {A B : Type 0} → Action A → (A → Action B) → Action B
  unfolding pure raise gets modify call command
  ◌>>=◌ m f w = let (r, w') = m w in continue r f w'

  abbrev pub ◌>>◌ : {A B : Type 0} → Action A → Action B → Action B
  m >> k = m >>= λ _. k

  -- time passes with no command
  abbrev pub wait : ℕ → World → World
  wait n w = record w { cache = p.redis.elapse n w.cache; now = w.now + n }

  -- a change of the counters
  abbrev pub count : (Metrics → Metrics) → Action (Unit {0})
  count f = modify (λ w. record w { metrics = f w.metrics })

  -- `try: m except Exception: log`
  abbrev pub suppress : Action (Unit {0}) → Action (Unit {0})
  suppress m w = (ok tt, (m w).1)

  -- `try: m finally: cleanup`; an exception of the cleanup replaces that of `m`
  abbrev pub conclude : {A : Type 0} → Result A → Result (Unit {0}) → Result A
  conclude r (ok _) = r
  conclude r (err e) = err e

  abbrev pub finally : {A : Type 0} → Action A → Action (Unit {0}) → Action A
  finally m cleanup w = let (r, w') = m w in let (c, w'') = cleanup w' in (conclude r c, w'')

  -- `task.cancel()` and `await task`: the CancelledError is swallowed, another exception is not
  abbrev pub stop_task : Option Task → (Option Task → World → World) → Action (Unit {0})
  stop_task none put = pure tt
  stop_task (some running) put = modify (put (some cancelled))
  stop_task (some cancelled) put = pure tt
  stop_task (some (crashed e)) put = raise e

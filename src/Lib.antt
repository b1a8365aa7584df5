-- ===== src/Lib.antt =====
-- The real-time notification platform: a gateway of FastAPI instances that hold WebSocket
-- connections, share Redis and PostgreSQL, and deliver notifications live or as a backlog.
--
-- How the parts interact. A client exchanges a JWT for a ticket (app/api/routes/auth.py), opens a
-- WebSocket with it (app/websocket/gateway.py), is entered in the connection table of the instance,
-- in the instance registry and as online, receives its backlog, and then sends heartbeats, presence
-- updates and read receipts, which app/websocket/message_router.py dispatches. POST /notifications
-- (app/api/routes/notifications.py) limits the caller, drops duplicates, inserts a row, and
-- publishes to the channel of the instance that owns the user if that instance is alive; the
-- subscriber there hands the message to app/main.py, which writes to the socket.
--
-- Services are parameters. Platform is the interface of what the program calls: Redis (module Redis,
-- whose state is known only by what GET would find d seconds from now), PostgreSQL (module Postgres:
-- inserts, updates and ordered selects of the two tables), and the functions of Python libraries
-- (UUIDs, ISO times, JSON on the wire, JWT, regular expressions, HTTP headers). Its laws state the
-- documented behaviour of these. Platform.Sample is a concrete platform, built on Redis.Table and
-- Postgres.Table, in which the witnesses of the module Tests run.
--
-- Files:
--   Prelude, Json             Booleans, lists, dictionaries, integers; JSON values
--   Redis, Postgres           the interfaces of the two services, with implementations as tables
--   World                     the state of an instance and its services, and the actions of its
--                             coroutines: state, exceptions and failing calls (World.Keeps: a logic
--                             of invariants; World.Frame and World.Quiet: what an action leaves
--                             alone)
--   Keys                      the keys in Redis, and that those of different parts differ
--   Core                      app/core: rate_limiter.py, idempotency.py, logging_config.py
--   Presence                  app/presence, app/api/routes/presence.py
--   Pubsub                    app/pubsub
--   Regex, HeaderNames        regular expressions and what they match; names of HTTP headers
--   Db                        app/db/repository.py, app/db/connection.py
--   Schemas                   app/schemas/notifications.py
--   Ddl, Alembic              definitions of tables and the interface of the server that runs them,
--                             with a value of it; alembic/versions, and the tables of
--                             app/db/models.py
--   Scripts                   scripts/simulate_notifications.py, scripts/ws_client_demo.py
--   Config                    app/config.py
--   Websocket                 app/websocket, with the frames of app/schemas/ws_messages.py
--   Api                       app/api, and the delivery and shutdown of app/main.py
--   App                       the wiring and the lifespan of app/main.py
--
-- A function of the source has the name of its model; a method takes the record of its object's
-- configuration first, and what the object shares with others (Redis, the database, the sockets) is
-- in World. A coroutine is an action, World to a result and a World. Each awaited call consumes one
-- entry of the world's schedule: it is answered, or refused before it takes effect, or carried out
-- with its answer lost; beyond the schedule every call is answered, and calm w is w with none. So a
-- statement about an arbitrary world covers every failure of every call. Time is in seconds and
-- passes by wait and in the steps that sleep. An awaiting coroutine may be overtaken by another:
-- the steps that interleave are composed explicitly where a theorem is about them.
--
-- Loops are structural: the receive loop and the listener over the list of what arrives, the
-- liveness loop over its number of rounds, close_all over the connections, the script over the pauses
-- before its posts. Only the walk back along down_revision has fuel: three steps for three revisions.
--
-- Two instances are two worlds: a statement that goes from one to the other (Api.Delivery) says what
-- the second receives of what the first published.
--
-- Between two awaited calls of POST /notifications other coroutines run: Api.Notifications.Stages
-- gives the handler call by call, and Api.Notifications.Interleaving the steps of any number of
-- handlers, on any instances, in any order.
--
-- World.process holds what the process owns besides connections: the asyncio tasks of its loops
-- (running, cancelled, or ended by an exception of their own), the subscription, whether the client
-- of Redis is closed, the log lines that statements are about, and the globals of
-- app/db/connection.py, with an engine known by its number.
--
-- Not modelled: the bodies of the tasks as concurrent processes (their passes are actions that are
-- run explicitly), the connection pool inside an engine, the link from a session to the engine that
-- serves it (get_session opens a session on the tables, and Db.Connection follows the globals), the
-- root logger's handler, the reading of the settings from the environment, the routers and tags of
-- create_app, the rendering of the metrics, the command lines of the scripts, what the demo client
-- prints, and the load tests and the migration tool's entry point, which drive a running system.
pub mod Prelude
pub mod Redis
pub mod Json
pub mod Postgres
pub mod Ddl
pub mod Alembic
pub mod Regex
pub mod HeaderNames
pub mod Schemas
pub mod Scripts
pub mod Platform
pub mod World
pub mod Keys
pub mod Core
pub mod Presence
pub mod Pubsub
pub mod Db
pub mod Websocket
pub mod Api
pub mod Config
pub mod App
pub mod Tests

-- ===== src/Lib.antt =====
-- Verification of NotifyStream, a service that accepts notifications over HTTP, stores them in
-- PostgreSQL, queues them on RabbitMQ and delivers them to a provider by a webhook.
--
-- Parts and how they interact. The API (internal/api) validates a request, stores its items in one
-- transaction and publishes them; a publication that fails leaves a row in the outbox. The relay and
-- the scheduler (internal/runner) publish outbox entries and due notifications. A worker (cmd/worker)
-- takes a delivery, claims the row, posts the request and writes the outcome. All of them meet in the
-- tables (internal/db) and on the exchanges (internal/amqp).
--
-- Files.
--   Prelude                 shared names, lists, texts as code points, Go's integers, sorting
--   Domain                  internal/domain: types, ValidateCreateItem, RenderTemplateBody
--   Amqp                    internal/amqp: headers, topology, messages, publishing, consumer loops, and
--                           the connection with its channels
--   Db/Tables, Db/Change    the tables of migrations/, and every statement that writes them
--   Db/Store                the methods of Store on one row, as calls of a pool
--   Db/Transaction          Begin, statements, Commit and Rollback
--   Db/Create, Db/Claims    insertion with its idempotency key; claims, MarkQueuedWithRetry
--   Db/Pool                 OpenPool, and Up of internal/migrate
--   Db/Listing              List, ListByBatchID and the page of ListNotifications
--   Delivery                internal/delivery: the request and the meaning of its response
--   Worker                  cmd/worker/main.go: waiting times, the outbound envelope, handleDelivery, and
--                           the messages that wait in the queues of the workers
--   Runner                  internal/runner/background.go: a tick of each loop
--   Api/Create              internal/api/handlers.go: CreateNotifications
--   Api/Notification        GetNotification, CancelNotification, ListBatchNotifications
--   Api/Listing, Api/Cursor ListNotifications, its parameters and its cursor
--   Api/Template            internal/api/template_handlers.go, Store.CreateTemplate
--   Api/Hub, Api/Broadcast, internal/api/ws.go: the registries of connections, the channel of
--   Api/Origin              DispatchStatus, the check of the origin
--   Api/Router              internal/api/router.go with all handlers, Readyz, the codes of the responses
--   Api/Response            toNotificationJSON
--   Config                  internal/config: Load; internal/db/pool.go: MigrateDSN
--   Ratelimit               internal/ratelimit: the limits, and the loop on Redis
--   Tracing                 internal/tracing: Setup
--   Process                 the main functions of cmd/api, cmd/scheduler and cmd/worker
--   Flow                    requests of one item and of many, a relayed and a scheduled notification, and
--                           the deliveries of the messages to the workers
--   World                   the tables, all that was sent, and the environment of a call
--   Tests                   concrete inputs
--
-- State and environment. A handler acts on a `World`: the tables, the messages on the topic exchange,
-- the status events, and the requests that the provider received. Each call out of the process takes
-- a turn of the environment, a function of the turn's number that is a parameter of every theorem. A
-- turn says which statements other processes committed before the call, the time, whether the call
-- fails, and what the provider answers. A call that fails may have taken effect all the same. A
-- PostgreSQL statement is atomic, and a transaction takes place at one point of the history.
--
-- Loops. The attempts of markDeliveredWithRetry and MarkQueuedWithRetry and the doublings of
-- retryBackoff are recursion on the number that is left. The scan of a template takes one character
-- or one placeholder in a round, and the length of the text is fuel enough.
--
-- The loop on Redis has fuel; one more than the questions that are refused is enough. A client that
-- follows the cursors has fuel too, and one request more than there are rows is enough. The queues
-- of the workers are emptied by six deliveries for each message, less the retries behind it.
--
-- Connection. The client library's connections and channels are a state of their own, a `Net`; each
-- call of the library takes a turn that says what the network lost before it and whether it works.
--
-- Processes. A main function acts on a log of what it obtained, started and released, and on the calls
-- that it has deferred; `os.Exit` ends it without them.
--
-- Parameters. The JSON decoder and printers (`Json`), the wire format of envelopes and the text form
-- of a UUID (`Wire`), the texts of a cursor (`Codec`), the multiplexer, the pages of libraries and the
-- upgrade to a WebSocket (`Http`), what a process is answered when it starts (`Remote`, `Pgx`,
-- `Migrator`), the token buckets and the trace headers are libraries, and arguments of the
-- definitions.
--
-- Not modelled: metrics, logs and spans, the sockets of the WebSocket hub, the clock of the runner's
-- loops. docs/docs.go is generated.
pub mod Prelude
pub mod Domain
pub mod Amqp
pub mod World
pub mod Db
pub mod Delivery
pub mod Worker
pub mod Runner
pub mod Api
pub mod Config
pub mod Tracing
pub mod Flow
pub mod Process
pub mod Ratelimit
pub mod Tests

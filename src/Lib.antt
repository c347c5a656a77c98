-- ===== src/Lib.antt =====
-- A model of the Rust API server, with the theorems that make its parts correct.
--
-- The server's core is infrastructure that its handlers share. A WebSocket client is accepted by
-- the hub, which keeps the table of connections and two reverse indexes, by topic and by user; the
-- session of the connection reads the client's frames and asks the application's policy before it
-- calls the hub; code of the server publishes events through the hub, which delivers them to the
-- bounded queue of each connection, drops the connections that do not keep up, and hands the event
-- to the cluster bridge, whose subscribers on the other instances deliver it there. Handlers and
-- the scheduler hand jobs to the dispatcher, which puts them into a queue; the worker takes them
-- from there, runs the handler that the registry has for their type, and puts a failed job back.
-- Users are rows of a database with a cache in front; a login issues the token that the other
-- endpoints and the handshake read. The updater downloads an archive and starts a process of its
-- own, which waits for the server to end and replaces its binary. The installer puts the binaries,
-- a config and a unit of systemd in place, and the uninstaller removes them.
--
--   Prelude, Map, Set, Text   shared names, tests, results, `HashMap`/`DashMap`, `HashSet`, `str`
--   Config                    src/infra/config/app_config.rs, the sections in use
--   Ws/Message                src/infra/ws/message.rs, error.rs
--   Ws/Hub, Ws/Publish        src/infra/ws/hub.rs: `register`, `unregister`, `subscribe`,
--                             `unsubscribe`, `deliver`, `publish`, `send_to` and the rest; Hub/Mirror
--                             and Hub/Limits have its invariant, Publish/Exact who gets an event,
--                             Publish/History any sequence of calls, Hub/Race two calls at once
--   Ws/Policy                 src/infra/ws/policy.rs and src/app/ws/policy.rs
--   Ws/Session                src/infra/ws/session.rs: `handle_text` and the loop of `run`
--   Ws/Cluster                src/infra/ws/cluster.rs: `publish_loop`, `run_subscriber`
--   Queue/Job                 src/infra/queue/job.rs, error.rs
--   Queue/Channel             src/infra/queue/backends/channel.rs
--   Queue/Dispatcher          src/infra/queue/dispatcher.rs
--   Queue/Worker              src/infra/queue/worker.rs, registry.rs: one turn of the loop (`turn`),
--                             a task up to the wait in `fail` (`handle`) and after it (`resend`), a
--                             client (`submit`); Worker/Run has any interleaving of these
--   Queue/Database            src/infra/queue/backends/database.rs: the table `jobs` as a list of
--                             rows; Database/Pick has what `dequeue` takes, Database/Stuck any calls
--                             after it, Database/Locks the transactions of several workers
--   Jobs                      src/app/jobs: the jobs, their handlers, the registry, the schedule
--   Scheduler                 src/infra/scheduler/runner.rs, registry.rs: the sleep (`wait`) and the
--                             loop over the jobs after it (`round`)
--   Errors                    src/app/error.rs
--   Http/Pagination           src/app/http/pagination.rs
--   Http/Auth                 src/app/auth.rs, src/app/http/middleware/auth.rs and the identity of
--                             a handshake in src/app/http/handlers/ws.rs
--   Updater                   src/infra/updater/mod.rs, src/bootstrap/updater.rs,
--                             src/app/http/handlers/updater.rs: `Updater/Verified` has the download,
--                             `Updater/Status` what the endpoints share
--   Updater/Program           src/bin/updater.rs over a map of files, each of whose calls may fail:
--                             Program/Args its arguments, with those of `spawn_updater`,
--                             Program/Wait the wait, Program/Main the extraction and `main`
--   Install                   src/bin/installer.rs and src/bin/uninstaller.rs as they are built for
--                             Unix: Install/System has the machine and its calls, Install/Options
--                             the arguments and prompts, Install/Program and Install/Uninstaller the
--                             two programs, Install/Arguments their command lines; the lemmas are in
--                             Frames, Names, Untouched, Copies, Stages, Removal and Made
--   Users                     src/app/services/user_service.rs, src/app/entities/user.rs: Users/Store
--                             has the interfaces of the database, the cache and the codecs,
--                             Users/Service the operations, Users/Table their meaning without a
--                             cache, Users/Race a deletion within a read, and Users/Login the token
--                             (`generate_token` of src/app/auth.rs); Users/Handlers has the
--                             endpoints of src/app/http/handlers/user.rs
--   Http/Observe              src/app/http/middleware/observability.rs
--   Http/Security             src/app/http/middleware/security_headers.rs
--   Http/Logs                 src/app/http/handlers/observability.rs
--   Bootstrap                 src/bootstrap/logger.rs: the cleanup of the log files
--   RateLimit                 src/infra/rate_limit/registry.rs, src/app/http/router.rs
--
-- State is passed explicitly: a method that mutates is a function from the state to the next one,
-- with its result. Numbers are natural; a counter of a fixed width wraps where it is written so,
-- and saturates where the source says so. What the program gets from outside is an argument of the
-- definitions that use it: fresh ids, the clock, the answer of a bounded queue to `try_send`, the
-- JSON encoder and parser, Redis, the bounded channel of async_channel (a record of its documented
-- laws, as those of the database, the cache and the codecs of Users are), the handlers of jobs, the
-- HTTP client, the digest, password hashes, JWT, the zip archive and the process table. Loops run
-- over the list of the events they are given; only `wait_for_pid_exit` runs on fuel, two rounds for
-- each second of its timeout and one more, as a round takes half a second or longer.
-- `Step`, `Move` and `Run` are the relations that let calls follow each other in any order.
--
-- A call is one step, except where a module says that it is split: `subscribe` and `register` in
-- Ws/Hub/Race, `dequeue` of the database backend in Queue/Database/Locks, `fail` of the queue, which
-- waits, `apply_update` of the updater, in `apply_twice`, and `find_by_id` of the users, in
-- Users/Race. Logging is left out, but for the table of Http/Observe.
--
-- Not modelled: the shutdown of the worker and of the scheduler, a handler that panics, the endpoint
-- of the health and the start-up, which wires the parts together. Of the installer and the
-- uninstaller, what is built for Windows, symbolic links and what systemctl does. The clients of
-- outside services are thin wrappers and stay parameters.
mod Prelude
pub mod Map
pub mod Set
pub mod Text
pub mod Config
pub mod Ws
pub mod Queue
pub mod Errors
pub mod Scheduler
pub mod Updater
pub mod Users
pub mod Jobs
pub mod RateLimit
pub mod Install
pub mod Bootstrap
pub mod Http

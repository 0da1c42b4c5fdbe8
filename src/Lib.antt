-- ===== src/Lib.antt =====
-- hocuspocus-rs, a collaborative editing server: a WebSocket server that keeps one actor for each
-- open document, merges the clients' updates with yrs, fans every change out, and stores documents
-- through extension hooks. This library models its core. Paths below are relative to
-- crates/hocuspocus/src.
--
-- The parts, and how they interact:
-- * Errors (error.rs): close codes, and the error that stops a chain of hooks.
-- * Codec, Yrs and Platform are interfaces for what is not in the repository. Codec is the lib0
--   encoding of `yrs::encoding` with its documented round-trip laws (IsLib0). Yrs is what the program
--   calls of the CRDT: apply an update, encode a state or what is new since a state vector,
--   awareness; Yrs/Crdt has what its documentation promises of values and diffs, and Yrs/Unnoticed is
--   the relation of updates that it refuses, possibly in part applied, or finds no change in, after
--   which the actor notes nothing. Platform adds the
--   rest of the process as a state, World: the extensions' own data, the clock, and the bounded
--   channels to the clients, which take a frame or report that they are full or gone.
-- * Protocol (protocol.rs): opcodes, the frame envelope with its parser, routing keys
--   (`document NUL session`), and the builder OutgoingMessage. Protocol/Outgoing has one function for
--   each builder method; Protocol/Opcodes and Protocol/Frames hold proofs.
-- * Origin (origin.rs): the origin of a mutation and its byte form.
-- * Config (config.rs): the configuration and its defaults; durations are in milliseconds.
-- * Context (context.rs): the bag of values of a connection as a map, and the request metadata.
-- * Extension (extension.rs): the payloads, and the trait as a record of functions of a payload and
--   the world. run_each and run_until_error are the two loops that the callers write.
-- * Throttle (extensions/throttle.rs): the sliding window of attempts for each IP, with its bans, and
--   in Throttle/Hook the hook that denies a connection. Window and Ban hold proofs.
-- * Document (document.rs): the actor. State has its types and bookkeeping (mark_dirty,
--   store_deadline), Broadcast the fan-out with the eviction of clients that lag, Connections joining
--   and leaving, Updates the sync protocol and apply_and_broadcast, Store persistence and unloading,
--   Frames and Commands the dispatch of client frames and of commands, and Actor the spawn and the
--   loop. The methods of the actor are functions from its state and the world to both. The loop is
--   the relation Step: a batch of commands, the result of a store, a deadline, the mailbox closed, or
--   a turn of the store task that runs beside the actor; Reach is its closure from spawn. The other
--   modules of Document hold proofs: Core projects the state on what a change or a store touches,
--   Handlers and Invariant carry a predicate through every command, Reachable through every step.
--   Debounce follows the store deadline over a
--   burst of edits, FanOut and Coalesce the broadcasts.
--   View and Quiet say which part of the world no operation but a store reaches, Durable and its
--   children follow the state of a document into the storage, Resident an actor that nobody
--   needs, and Handshake the first sync of a client.
-- * Server (server.rs): Hub is the interface to the maps, locks and mailboxes that tasks share, with
--   `document`, the look-up of a document that starts its actor. Client is ClientConnection with the
--   queue of frames before authentication, Auth the handshake and the registration with a document
--   (register_connection recurses on the rounds of its loop, which are 2), Socket the routing of frames
--   and the loop of a socket over the events that end its waits, Writer the task that writes to a
--   client, over the `send` of its sink, up to the round in which the socket's end aborts it. Held says what the channels are taken to do to the
--   connections that documents hold for a socket. Admitted says what lets a client into a document. Totals, Fits, Limits, Gate, Idle, Throttled,
--   Registration, Stable, Evicted, Handover, Accounted and Cleanup hold proofs.
--   Life is `prepare` and `listen`, with Net for what they call of the standard library, tokio and
--   axum; a port has 5 digits and the number of a socket 20, which are enough for `u16` and `u64`.
--   Builder is ServerBuilder, with the sort of the extensions; Capacity is ws_handler with its cap, and
--   the counter of open sockets as a relation on the steps of requests and sockets; Shed and Priority
--   hold proofs.
-- * Registry (server.rs, document.rs): two tasks that open one document, step by step, as a relation:
--   the points of `document` and of the loop of register_connection between which other tasks run,
--   the creation lock, and the actor that unloads. Stages, Progress, Undisturbed, Split and TwoLocks
--   hold proofs.
-- * Query (server.rs): form_urlencoded_parse and percent_decode, where a slice that ends inside a
--   character is a panic. Escapes, RoundTrip and Pairs hold proofs.
-- * Database (extensions/database.rs): the trait Storage as an interface, the extension over it, and
--   the in-memory storage. Contract has the map that a storage stands for, Reload what a load makes
--   of a store. Sqlite (extensions/sqlite.rs) is a Storage over Connection, the calls of rusqlite;
--   Table has what SQLite documents of the two statements and what a fetch makes of a store, Unreadable what a failing query does.
-- * Redis (extensions/redis.rs): the extension over RedisServer, the calls of Redis and the node's own
--   locks; Subscriber has the rounds of its two loops, Startup the loops whole, with the set-up of
--   the connections over RedisClient. Filter, Replication, Convergence, CatchUp, Lock and Saved hold
--   proofs; IsLock in Lock is what Redis documents of the keys. Exclusion has the lock among any
--   number of nodes as a relation.
-- * Webhook (extensions/webhook.rs): the extension over WebClient, the libraries that it calls; Signed
--   holds proofs.
-- * Logger (extensions/logger.rs): the extension over the macro `info`; Silent holds proofs.
--
-- Conventions: a hash map is an association list (Prelude/Maps). Text is its UTF-8 bytes, and a byte
-- is a number; an integer that the source bounds is bounded where a statement needs it (IsU64), and
-- the priority of an extension is a signed number (Prelude/Int). A `Duration` or an `Instant` is a
-- number, and differences stop at 0, as `saturating_duration_since` does. Panics of a hook are not
-- modelled. The loop of percent_decode runs on fuel for one round more than bytes, which is enough
-- since each round takes a byte at least. All other recursion is structural; the batch of commands
-- is a list that ends where the source's `try_recv` loop and its limit end it.
--
-- Not modelled: the router of server.rs, which is axum's; the drop of a socket's guard and its tasks
-- beyond what Capacity and Writer have; the running out of a lock in time, which is a step of the rest
-- of the process; tasks that wait for an acknowledgement while an actor leaves; `documents_count`,
-- which only an example uses, and the sentinel SkipFurtherHooks, which nothing uses; the log lines
-- outside the logger. The programs that only call the library (examples, benchmarks and tests) and
-- the crate's re-exports are left out.
pub mod Prelude
pub mod Errors
pub mod Codec
pub mod Protocol
pub mod Origin
pub mod Throttle
pub mod Config
pub mod Yrs
pub mod Platform
pub mod Context
pub mod Extension
pub mod Document
pub mod Database
pub mod Sqlite
pub mod Server
pub mod Registry
pub mod Query
pub mod Redis
pub mod Webhook
pub mod Logger
mod Tests

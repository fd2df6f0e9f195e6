-- ===== src/Lib.antt =====
-- A model of the TEE prover server: a JSON-RPC server in an enclave that agrees on a secret with a
-- client, takes a proof request that the client encrypts with it, and runs the request through three
-- stages to a proof in a database.
--
-- The parts, and how they interact:
-- - `hello` (src/server.rs) reads the client's public key, makes an attestation token over both
--   public keys and puts the agreed secret into the store under the session's identifier.
-- - the store (src/store.rs) is an LRU cache of secrets behind a lock.
-- - `submit_request` (src/server.rs) takes the secret of a session from the store, decrypts and parses
--   the message, checks the request's kind and circuit, records the request in the database, sends it
--   to the first stage and gives the session up.
-- - the stages (src/main.rs) write the input file, compute the witness and compute the proof
--   (src/generator), and note the progress in the database (src/db); a failure marks the row and
--   removes the request's folder (`cleanup` of src/utils.rs).
--
-- The files:
-- - Types: the requests, their kinds and their numbers (src/types.rs, src/generator/mod.rs);
--   Types/Codes has the laws of the numbers.
-- - Store: `LruStore` with `new`, `insert_new_agreement`, `get_shared_secret` and `remove_agreement`;
--   Store/Bounds and Store/Survival have its laws.
-- - Database: the statements of src/db/mod.rs and the statuses of src/db/types.rs; Database/Rows says
--   what they do to the rows, Database/History and Database/Distinct what the table holds after any
--   of them, Database/Schema compares them with setup.sql, and Database/Notify has its triggers.
-- - Utils: `decrypt` and `get_custom_token_bytes` of src/utils.rs. Paths: the joins of paths.
-- - Generators: the three `run` methods of src/generator; Generators/Laws has their laws,
--   and Generators/Files the files by which they are linked.
-- - Server/Env: the state `RpcServerImpl` and the way in which a method returns; Server/Hello and
--   Server/Submit: the methods. Server/Submit/Verdict is the specification of the checks,
--   Server/Submit/Enqueue of the rest, and Server/Submit/Outcome, Once and Kinds have the laws of the
--   whole method. Server/Recorded describes the row of a recorded request, and
--   Server/Session puts `hello` and `submit_request` together. Server/Interleave cuts
--   `submit_request` at its awaits, so that calls interleave; Server/Interleave/Alone compares that
--   with the one step, and Server/Interleave/Jobs counts what is queued.
-- - Startup: the map from circuits to key files that `main` builds. Pipeline: the tasks of the stages
--   and `cleanup`, each as one step; Pipeline/Stages and its Failures have their outcomes,
--   Pipeline/Folders says which of them remove a request's folder, and Pipeline/Keys has the paths of
--   the key files. Pipeline/Tasks cuts the tasks at their awaits, and Pipeline/Alone compares that
--   with the one step.
-- - System: the whole server at work, the select of `main`: calls under way, the channels, the
--   spawned tasks and the third stage's loop, as a step relation. System/Life is the specification,
--   the life of a request, and System/Moves what a step may do to a request, with what that does to
--   its life in Moves/Places, Moves/Others and Moves/Turned; System/Tallies and its use in
--   System/Parts count where a request is, System/Calls, Rows and Tasks say what calls and tasks do
--   to it, and System/Refines puts them together. System/Lives draws from it what a client sees who
--   reads the table, and System/Notices what one hears who listens to its triggers; System/Isolation
--   says what a request has to do with the others. System/Circuits, its Tasks and System/Queued
--   follow a request's circuit through the server; System/Effort and System/Work measure what is left
--   to do, System/Ready finds what can go on, and System/Drains puts the two together.
--   System/Mishaps lists what can make the server drop a request or leave it without a mark of its
--   failure, which the moves carry along, and System/Decided looks at a machine where none of it
--   happens.
-- - Arguments: the options of src/args.rs. Launch: the start of `main`; Launch/Ready says what it has
--   checked, Launch/Service what the server does from there on.
-- - Os, and the records `Lru`, `Postgres`, `Mpsc`, `Crypto` and `TokenClient`: what is not in this
--   repository, as parameters. The records `IsLru`, `IsPostgres`, `IsMpsc`, `IsEcdh` and `IsSealing`
--   say what their documentation promises; Tests/Crates and Tests/System have instances. Of the
--   operating system nothing is assumed.
-- - Prelude: results, lists, texts (bytes of UTF-8) and association lists.
--
-- How the code is read. A method or a task is one step from a state to a result and a state, and
-- again cut at its awaits: `submit_request` in Server/Interleave, the tasks in Pipeline/Tasks. System
-- is made of the second reading; there the calls, the tasks and the third stage's loop go on in any
-- order, one await at a time. `hello` stays one step, since its only use of the state is its last
-- call. An identifier is a number, and `Uuid::to_string` a parameter; so is the time that a statement
-- reads, and the random private key. A text is its bytes. A `u32` is a number, and its conversion to
-- `i32` is written out. A panic is a value of its own, apart from errors; it ends a task. The loops of
-- the code go over lists or are steps of the relation, so no definition of it has fuel; System/Drains
-- runs on as many steps as work is left. A channel has room for a number of jobs, which its library
-- keeps and which is at least one: a step that sends is there only where the channel has room, or has
-- lost its receiver. An error of the database is taken to mean that the statement wrote nothing: that
-- a statement is committed and its acknowledgement is lost on the way is left out. A `write` to a file
-- answers with the number of bytes that tokio has taken; what the file holds is not read off it, since
-- the source never flushes.
--
-- Not modelled: the awaits inside of one run of src/generator, whose paths are in the folder of its
-- request, with the circuit and the key, and inside of one statement; the moment at which the server
-- stops, which ends the select and the program wherever it is, so that what holds of every state
-- that can be reached holds there; what serde derives; logging; the limit of PostgreSQL on the size
-- of a notice, which is taken not to be met; the scripts and the programs of instance-deps, which
-- start and connect processes.
pub mod Prelude
pub mod Types
pub mod Store
pub mod Paths
pub mod Os
pub mod Database
pub mod Utils
pub mod Generators
pub mod Server
pub mod Arguments
pub mod Startup
pub mod Pipeline
pub mod System
pub mod Launch
pub mod Tests

-- ===== src/Lib.antt =====
-- hsin: a local daemon (crates/hsind) and its clients (crates/hsin), which switch the providers of
-- AI coding clients. They share the types of crates/hsin-core and the local protocol of
-- crates/hsin-ipc.
--
-- Core models crates/hsin-core/src/lib.rs: the enums and their text forms (Core/Enums), client
-- settings (Core/Clients), model mapping, image and tuning settings (Core/Model), proxy settings and
-- base URLs (Core/Network), providers and their drafts (Core/Provider), token totals (Core/Usage) and
-- price rules (Core/Pricing). A record has the source's fields; `validate` functions return
-- `Result ValidationError`.
-- Errors models crates/hsind/src/error.rs and the conversion to `AppError` of crates/hsind/src/app.rs.
-- Ipc models crates/hsin-ipc/src/lib.rs: the messages (Ipc/Protocol), `write_frame` and `read_frame`
-- (Ipc/Frame) and `IpcClient` (Ipc/Client), whose methods take the client and give the result and the
-- client after it.
-- Rpc models crates/hsind/src/rpc.rs: the methods (Rpc/Methods), and the rounds of
-- `serve_connection` on a list of events (Rpc/Serve). It answers what Ipc/Client calls; the operations
-- of the application are the interface `Daemon`.
-- Link puts the two ends together: a round of `serve_connection` on the bytes that the client's frame has,
-- and the client on those of the response.
-- Ownership models crates/hsind/src/ownership.rs: the records (Ownership/Record), the file they are in
-- the guard that is read from it (Ownership/Document) and the steps by which it writes it
-- (Ownership/Document/Write), and the locks and the status of a target
-- (Ownership/Status). A function that reads the file takes what stands at its path as an `Entry`.
-- Config models a part of crates/hsind/src/config.rs: which environment keys a provider's model mapping
-- gives Claude Code.
-- Proxy models crates/hsind/src/proxy.rs: the header rules (Proxy/Headers), image requests
-- (Proxy/Image) and `forward` until the request is sent (Proxy/Forward). It relies on Core/Model for
-- the image settings of a provider.
-- Usage models crates/hsind/src/usage.rs: what the lines of session files tell (Usage/Event, Usage/Tokens,
-- Usage/Session, Usage/Quota), `sync_file` on the bytes of a file (Usage/Lines, Usage/Store, Usage/Sync),
-- the observer of the responses that pass through Proxy (Usage/Observer), and the rows that both write,
-- by the SQL of `insert_event` and `relabel_unknown_event` on the tables of crates/hsind/src/db.rs
-- (Usage/Table). A sync reaches the database through the interface `Store`.
-- Login models the sessions of crates/hsind/src/app/official_login.rs: the calls that come over IPC, and
-- the worker of a session by what its process and its home gave (Login), and the steps of all of them
-- (Login/Steps).
-- Prelude holds texts, results, machine words and list lemmas; Examples has runs at concrete inputs.
--
-- A text is the list of its code points; `String` is for the source's literals. A u64 is a natural
-- number with saturation or wrapping written out. Recursion is structural; the fuel of
-- `decimal` is one more than the number and so more than it has digits, and that of the loop over the
-- events of a stream is the length of its buffer, of which each turn takes two bytes at least.
--
-- Parameters, with what their documentation says of them: `serde_json` (`Codec`, `Wire`, `ImageJson`),
-- `url` and `std::net` (`NetParsers`), `http::HeaderMap` (`Http`), SHA-256 (`Format`), the real path of
-- a path (`resolve`), floating point numbers (`Floats`), JSON values, time and digests (`Json`,
-- `Calendar`), SQLite (`Store`), `AtomicWriteFile` (its commit puts all of what was written at the path,
-- and nothing before), and where a timer fires or a file operation fails. A file is its bytes
-- at the time of the call.
--
-- Not modelled: the application's operations, the rest of the configuration files, the rest of the database, the
-- usage overview and its rollups, the processes of logins, native authentication, encryption, updates, the terminal interface; sockets, processes and
-- concurrency between connections.
pub mod Prelude
pub mod Core
pub mod Config
pub mod Errors
pub mod Ipc
pub mod Rpc
pub mod Ownership
pub mod Proxy
pub mod Usage
pub mod Login
pub mod Link
pub mod Examples

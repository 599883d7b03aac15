-- ===== src/Lib.antt =====
-- hermitdb is a Redis-compatible server in C++: clients speak RESP2, commands act on a keyspace with
-- deadlines, and mutations go to a write-ahead log that a restart replays over the last snapshot.
--
-- The parts and where they are modelled:
-- * src/protocol/resp_parser.cpp, the incremental parser, in Protocol/Parser and its children. A
--   `Parser` is what RespParser keeps between two calls: `unread` is `buf_` from `cursor_` on. `round`
--   is one pass of the loop in `feed`, `run` the loop, `feed` the call. `parse_i64` and
--   `std::to_string` stand in Protocol/Decimal.
-- * src/protocol/resp_writer.cpp, the replies, in Protocol/Writer.
-- * src/persist/wal.cpp, the log, in Persist: Encoding is Wal::encode, Wal the writing side with the
--   system calls of a `Kernel`, Wal/Replay is Wal::replay from what the reads return.
-- * src/core/db.cpp, the keyspace, in Core/Db, and its glob patterns in Core/Glob.
-- * src/core/expiry.cpp, the deadlines, in Core/Expiry; eviction, which also changes the keyspace and
--   the log, in Core/Server, and the active cycle in Core/Server/Cycle.
-- * src/core/commands.cpp in Core/Commands (the handlers), Core/Replies and Core/Dispatch (`execute`
--   and `log_mutation`). A handler is a function on `Server`, the state behind `Ctx`: it returns a
--   reply and the new state, or a `Fault` where the C++ throws or is undefined.
-- * src/persist/snapshot.cpp in Persist/Snapshot: `put_...` writes and a `Reader` reads a field of the
--   file, `save_snapshot` and `load_snapshot` are the calls.
-- * src/util/config.cpp in Config: `parse_args` with `split_flag`, and `parse_u64` in Config/Numbers.
-- * src/net/event_loop.cpp and connection.h in Net: Connection is a connection with `flush`,
--   `modify_fd` and `close_connection`, EventLoop is `handle_readable`, `accept_new_clients` and the
--   loop over the events of one wait, Reactor is `run` with the ticks.
-- * src/main.cpp in Boot, where `recover` is the start up to the attachment of the log, and in Process:
--   the handler and the tick of the loops, and in Process/Main what `main` returns.
-- * src/core/shard.cpp in Process/Shards: a `Worker` is a thread with the calls that its loop makes, and
--   `run_steps` runs the threads' steps in the order of a schedule. A call under the lock is the copy
--   of the shared state and the write of what it made of the copy, as two steps.
-- * Core/Healthy is about what `execute` and the active cycle keep. Core/Logged is about the handlers on
--   a server without deadlines and what the log gets of them; Boot/Journal to Boot/Durable put them,
--   the log and the start together. A `Journal` is the log as they need it, and Boot/LogFile makes one of
--   a `Wal`. Process/Counter and Process/Readback put `execute`, its handlers and the log together for
--   single commands. Process/Shards/Serial runs the threads' calls as wholes, to compare them with the steps.
--
-- How they interact: the start loads the snapshot and then replays the log through `execute`, while
-- the log is not attached. The event loop feeds what it receives to the parser of the connection,
-- and its handler, which is `execute`, runs the commands and returns the replies, which the loop
-- queues and flushes. A command evicts a key whose deadline has passed before it looks at it; a
-- mutation is turned into log records, which the parser reads back in recovery. Eviction is the
-- hook that src/main.cpp installs.
--
-- Bounds and fuel: `int64_t` is an integer with its range checked, and leaving the range is a fault.
-- A schedule of threads is a finite list of steps of any length. The parser's loop runs on fuel that
-- the number of unread bytes gives, `write_all` on the length of the data and a bound on the
-- interruptions in a row, and the active cycle on the number of slots.
-- `size_t` does not wrap around: buffers are shorter than 2 ^ 63 bytes. A snapshot is little-endian.
-- The readings of the steady clock plus an interval are in the range of `int64_t`.
--
-- Parameters: the kernel's write, fsync and open (`Kernel`), the reads of a file (a list of what they
-- return), and the clocks, the random draws and the log that commands use (`Host`). What the socket
-- calls, `epoll_ctl` and `epoll_wait` return is input of the event loop: a list of answers for each
-- event. The handler of the event loop and the callbacks of its ticks are arguments (`Handler`,
-- `Tick`). `strtoull` and `std::from_chars` are written out from their documented behaviour; no
-- argument of the process holds a NUL byte. The kernel hands out no descriptor that is open.
--
-- Not modelled: the listener's set-up (src/net/listener.cpp), which is system calls in a row; the event
-- loops of the threads of src/core/shard.cpp, whose calls are input; log output. The log that a start
-- attaches is not opened from the bytes that recovery left: `serving` has those bytes beside a server
-- with the log that it was given. The order in which an unordered map is traversed is the order of
-- insertion.
pub mod Prelude
pub mod Protocol
pub mod Persist
pub mod Core
pub mod Config
pub mod Net
pub mod Boot
pub mod Process

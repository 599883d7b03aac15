-- ===== src/Boot.antt =====
-- Recovery at the start of the process: src/main.cpp, from the construction of the dispatcher to the
-- attachment of the log.
pub mod Recovered
pub mod Torn
pub mod Journal
pub mod LogFile
pub mod Fitting
pub mod Rebuilt
pub mod Served
pub mod History
pub mod Restart
pub mod Durable
mod Tests
pub mod RestartTests
use hermitdb.Prelude.{List, [], Option, none, some, Bytes, Bool, true, false, not, if◌then◌else◌, ℕ}
use hermitdb.Protocol.Parser.{Command}
use hermitdb.Persist.Wal.{WalStatus, ok, io_error, corrupt, not_implemented}
use hermitdb.Persist.Wal.Replay.{replay, Replayed, OpenReturn, ReadReturn}
use hermitdb.Persist.Snapshot.{load_snapshot, Loaded}
use hermitdb.Core.Fault.{Fault, Result, ret, fault}
use hermitdb.Core.Expiry
use hermitdb.Core.Server.{Host, Server}
use hermitdb.Core.Dispatch.{execute}
use hermitdb.Config.{Config, snapshot_path}

-- What the start finds on the disk: whether the directory can be created, whether there is a snapshot
-- and what the opening of it gives, the calls of the replay and the log's bytes, and whether the log
-- can be opened for appending.
pub record Disk : Type 0 where
  pub creates : Bool
  pub has_snapshot : Bool
  pub snapshot : Option Bytes
  pub open_log : OpenReturn
  pub reads : List ReadReturn
  pub truncates : Bool
  pub log : Bytes
  pub appends : Bool

-- The process goes on to the listener, with the log's bytes, or returns this from `main`, or faults.
pub data Start (h : Host) : Type 0 where
  serving : Server h → Bytes → Start h
  exits : ℕ → Start h
  crashed : Fault → Start h

-- the dispatcher and what it refers to, when it has been constructed
abbrev pub fresh_server : (h : Host) → h.Log → Server h
fresh_server h log = record {
  db = [];
  expiry = Expiry.empty;
  log = log;
  attached = false;
  shutdown = false;
  persistence_failed = false;
  readings = 0;
  micro_readings = 0;
  draws = 0;
}

module _ {h : Host} where
  abbrev pub after_record : Result (Bytes × Server h) → Result (Server h)
  after_record (ret (reply, s)) = ret s
  after_record (fault f) = fault f

  -- the callback of replay: `dispatcher.execute(cmd);`
  unfoldable pub apply_record : Command → Result (Server h) → Result (Server h)
  unfolding execute
  apply_record cmd (ret s) = after_record (execute cmd s)
  apply_record cmd (fault f) = fault f

  -- `logging_wal = wal.get(); dispatcher.set_wal(wal.get());`
  abbrev pub attach : Server h → Bytes → Bool → Start h
  attach s log appends = if appends then serving (record s { attached = true }) log else exits 1

  -- from the result of the replay on
  abbrev pub replayed : Bool → WalStatus → Result (Server h) → Bytes → Start h
  replayed appends status (fault f) log = crashed f
  replayed appends ok (ret s) log = attach s log appends
  replayed appends io_error (ret s) log = exits 1
  replayed appends corrupt (ret s) log = exits 1
  replayed appends not_implemented (ret s) log = exits 1

  unfoldable pub replay_log : Disk → Server h → Start h
  unfolding replay apply_record
  replay_log d s =
      let r = replay apply_record d.open_log d.reads d.truncates d.log (ret s) in
      replayed d.appends r.status r.state r.file

  abbrev pub loaded : Disk → Server h → Option Bytes → Loaded → Start h
  loaded d s none l = replay_log d (record s { db = l.db; expiry = l.expiry })
  loaded d s (some e) l = exits 1

  -- `if (std::filesystem::exists(cfg.snapshot_path())) ...`, and what follows
  unfoldable pub load_disk : Config → Disk → Server h → Start h
  unfolding load_snapshot replay_log
  load_disk cfg d s =
      let l = load_snapshot (snapshot_path cfg) d.snapshot s.db s.expiry in
      if d.has_snapshot then loaded d s l.error l else replay_log d s

  -- `if (cfg.wal_enabled) ...`
  unfoldable pub recover : Config → Disk → Server h → Start h
  unfolding load_disk
  recover cfg d s =
      if not cfg.wal_enabled
      then serving s d.log
      else if not d.creates
      then exits 1
      else load_disk cfg d s

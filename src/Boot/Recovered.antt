-- ===== src/Boot/Recovered.antt =====
-- The server that recovery makes: src/main.cpp.
use hermitdb.Prelude.{
  ◌≡◌, refl, ap, ◌∙◌, List, [], ◌++◌, Option, none, some, Bytes, Bool, true, false, not,
  if◌then◌else◌,
}
use hermitdb.Protocol.Parser.{Command}
use hermitdb.Persist.Encoding.{encode_all, AllFit}
use hermitdb.Persist.Wal.{WalStatus, ok, io_error, corrupt, not_implemented}
use hermitdb.Persist.Wal.Replay.{replay, apply_all, opened, ReadReturn, replay_frame_cap}
use hermitdb.Persist.Wal.Replay.Keeps.{replay-keeps}
use hermitdb.Core.Fault.{Result, ret, fault, signed_overflow}
use hermitdb.Core.Server.{Host, Server}
use hermitdb.Core.Server.Touch.{Answers}
use hermitdb.Core.Dispatch.{execute}
use hermitdb.Core.Healthy.Steps.{Healthy, Safe}
use hermitdb.Core.Healthy.Whole.{execute_lem}
use hermitdb.Prelude.{◌^◌, ◌<◌, length}
use hermitdb.Prelude.Map.{find}
use hermitdb.Core.Db.{Db}
use hermitdb.Core.Db.Reachable.{Reachable}
use hermitdb.Core.Expiry.{Expiry, empty, expiry_at}
use hermitdb.Core.Expiry.Consistent.{empty-IsConsistent}
use hermitdb.Core.Healthy.{IsHealthy}
use hermitdb.Persist.Snapshot.{records_of, load_snapshot, save_snapshot, done, Loaded}
use hermitdb.Persist.Snapshot.RoundTrip.{RecordsFit}
use hermitdb.Persist.Snapshot.Restart.{load_snapshot-IsHealthy}
use hermitdb.Boot.{fresh_server}
use hermitdb.Persist.Encoding.Torn.{IsTail}
use hermitdb.Persist.Wal.Replay.Recovery.{replay_recovers, data_of, NoneBroken}
use hermitdb.Config.{Config, snapshot_path}
use hermitdb.Boot.{
  Disk, Start, serving, exits, crashed, apply_record, after_record, replayed, replay_log, loaded,
  load_disk, recover,
}

-- A disk without a snapshot, with a log of which the reads return all.
abbrev pub torn_disk : List ReadReturn → Bytes → Disk
torn_disk reads log = record {
  creates = true;
  has_snapshot = false;
  snapshot = none;
  open_log = opened;
  reads = reads;
  truncates = true;
  log = log;
  appends = true;
}

module _ {h : Host} where
  -- A server between two records of the replay.
  abbrev Replaying : Result (Server h) → Type 0
  Replaying (ret s) = Healthy s
  Replaying (fault f) = f ≡ signed_overflow

  -- How recovery ends: with a healthy server that logs if it was asked to, with 1, or by an overflow.
  abbrev pub Recovered : Bool → Start h → Type 0
  Recovered logs (serving s log) = Healthy s × (s.attached ≡ logs)
  Recovered logs (exits code) = code ≡ 1
  Recovered logs (crashed f) = f ≡ signed_overflow

  replayed-Recovered :
      (appends : Bool) (status : WalStatus) (r : Result (Server h)) (log : Bytes)
      → Replaying r
      → Recovered true (replayed appends status r log)
  replayed-Recovered appends status (fault f) log p = p
  replayed-Recovered true ok (ret s) log p = (p, refl)
  replayed-Recovered false ok (ret s) log p = refl
  replayed-Recovered appends io_error (ret s) log p = refl
  replayed-Recovered appends corrupt (ret s) log p = refl
  replayed-Recovered appends not_implemented (ret s) log p = refl

  module _ (answers : Answers h) where
    apply_record-Replaying :
        (cmd : Command) (r : Result (Server h)) → Replaying r → Replaying (apply_record cmd r)
    unfolding apply_record
    apply_record-Replaying cmd (fault f) p = p
    apply_record-Replaying cmd (ret s) p = go (execute cmd s) (execute_lem answers cmd s p)
      where
        go : (r : Result (Bytes × Server h)) → Safe r → Replaying (after_record r)
        go (ret (reply, s')) k = k
        go (fault f) k = k

    replay_log-Recovered :
        (d : Disk) (s : Server h) → Healthy s → Recovered true (replay_log {h = h} d s)
    unfolding replay_log
    replay_log-Recovered d s p =
        let r = replay apply_record d.open_log d.reads d.truncates d.log (ret s) in
        replayed-Recovered d.appends r.status r.state r.file (
          replay-keeps apply_record Replaying apply_record-Replaying d.open_log d.reads d.truncates
            d.log (ret s) p)

    loaded-Recovered :
        (d : Disk) (s : Server h) (e : Option Bytes) (l : Loaded)
        → IsHealthy l.db l.expiry
        → Recovered true (loaded {h = h} d s e l)
    loaded-Recovered d s none l p =
        replay_log-Recovered d (record s { db = l.db; expiry = l.expiry }) p
    loaded-Recovered d s (some e) l p = refl

module _ (h : Host) where
  fresh-Healthy : (log : h.Log) → Healthy (fresh_server h log)
  unfolding find expiry_at
  fresh-Healthy log = record {
    full = λ key p. cc;
    consistent = empty-IsConsistent;
    covered = λ j p. refl;
  }

  module _ (answers : Answers h) (cfg : Config) (d : Disk) (log : h.Log) where
    load_disk-Recovered :
        (b : Bool)
        → d.has_snapshot ≡ b
        → (b ≡ true
            → IsHealthy
                (load_snapshot (snapshot_path cfg) d.snapshot [] empty).db
                (load_snapshot (snapshot_path cfg) d.snapshot [] empty).expiry)
        → Recovered true (load_disk cfg d (fresh_server h log))
    unfolding load_disk
    load_disk-Recovered true e k =
        let l = load_snapshot (snapshot_path cfg) d.snapshot [] empty in
        rw e (loaded-Recovered answers d (fresh_server h log) l.error l (k refl))
    load_disk-Recovered false e k =
        rw e (replay_log-Recovered answers d (fresh_server h log) (fresh-Healthy log))

  -- If the snapshot, where there is one, was saved from a keyspace that the operations make, whose
  -- lengths and deadlines fit their fields in the file, and the log's appends return, then the start,
  -- whatever the log holds and however its reads go, ends with a server in which no list is empty, the
  -- table of deadlines is consistent and only keys of the keyspace have deadlines, and the log is
  -- attached exactly if the configuration enables it; or the process exits with 1, or an `int64_t`
  -- overflows in a command of the log.
  pub recover_lem :
      Answers h
      → (cfg : Config) (d : Disk) (log : h.Log) (db : Db) (e : Expiry) (file : Option Bytes)
      → length db < 2 ^ 64
      → RecordsFit (records_of db e)
      → Reachable db
      → (d.has_snapshot ≡ true → d.snapshot ≡ (save_snapshot done (snapshot_path cfg) db e file).1)
      → Recovered cfg.wal_enabled (recover cfg d (fresh_server h log))
  unfolding recover
  recover_lem answers cfg d log db e file few fits reachable saved =
      go cfg.wal_enabled d.creates
        (load_disk-Recovered answers cfg d log d.has_snapshot refl (λ p. healthy (saved p)))
    where
      path : Bytes
      path = snapshot_path cfg

      healthy :
          d.snapshot ≡ (save_snapshot done path db e file).1
          → IsHealthy
              (load_snapshot path d.snapshot [] empty).db
              (load_snapshot path d.snapshot [] empty).expiry
      healthy same =
          let (l, loads, fine, p) = load_snapshot-IsHealthy path db e few fits reachable file in
          rw (same, loads) p

      go :
          (b c : Bool)
          → Recovered true (load_disk cfg d (fresh_server h log))
          → Recovered b (
              if◌then◌else◌ {A = Start h}
                (not b)
                (serving (fresh_server h log) d.log)
                (if not c then exits 1 else load_disk cfg d (fresh_server h log)))
      go false c p = (fresh-Healthy log, refl)
      go true false p = refl
      go true true p = p

  -- recovery from a torn log, by the operations of the replay
  pub recover_torn :
      (cfg : Config) (log : h.Log) (cs : List Command) (t u : Bytes) (reads : List ReadReturn)
      → cfg.wal_enabled ≡ true
      → AllFit replay_frame_cap cs
      → t ++ u ≡ encode_all cs
      → data_of reads ≡ t
      → NoneBroken reads
      → (finished rest : List Command) × (tail : Bytes) × (cs ≡ finished ++ rest)
        × (t ≡ encode_all finished ++ tail)
        × IsTail tail rest
        × (recover cfg (torn_disk reads t) (fresh_server h log)
            ≡ replayed true ok
                (apply_all apply_record finished (ret (fresh_server h log)))
                (encode_all finished))
  unfolding recover load_disk replay_log
  recover_torn cfg log cs t u reads enabled fits cut all unbroken =
      let s = fresh_server h log in
      let (finished, rest, tail, split, same, torn, e) =
        replay_recovers apply_record cs t u reads (ret s) fits cut all unbroken in
      (
        finished,
        rest,
        tail,
        split,
        same,
        torn,
        ap
              (λ b.
                if◌then◌else◌ {A = Start h} (not b) (serving s t)
                  (replay_log (torn_disk reads t) s))
              enabled
            ∙ ap (λ r. replayed {h = h} true r.status r.state r.file) e,
      )

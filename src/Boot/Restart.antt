-- ===== src/Boot/Restart.antt =====
-- The clients' commands up to a crash, and the start after it: src/core/commands.cpp,
-- src/persist/wal.cpp and src/main.cpp together.
use hermitdb.Prelude.{
  ◌≡◌, refl, ap, sym, ◌∙◌, List, [], ◌∷◌, ◌++◌, Bytes, true, arith, length, append-nil,
  length-append,
}
use hermitdb.Protocol.Parser.{Command}
use hermitdb.Persist.Encoding.{encode, encode_all, AllFit}
use hermitdb.Persist.Encoding.Torn.{IsTail}
use hermitdb.Persist.Wal.{ok}
use hermitdb.Persist.Wal.Replay.{apply_all, ReadReturn, replay_frame_cap}
use hermitdb.Persist.Wal.Replay.Recovery.{data_of, NoneBroken}
use hermitdb.Core.Fault.{Result, ret, fault}
use hermitdb.Core.Db.{Db}
use hermitdb.Core.Server.{Host, Server}
use hermitdb.Core.Logged.{plain}
use hermitdb.Config.{Config}
use hermitdb.Prelude.Map.{find}
use hermitdb.Boot.Rebuilt.{Replays}
use hermitdb.Boot.{apply_record, fresh_server, recover, replayed, serving, Start}
use hermitdb.Boot.Journal.{Journal}
use hermitdb.Boot.History.{AllTimeless, History, history, encode_all-append}
use hermitdb.Boot.Recovered.{torn_disk, recover_torn}

-- the server that recovery makes where there is nothing to recover, with its log
abbrev pub live_server : (h : Host) → h.Log → Server h
live_server h log = record (fresh_server h log) { attached = true }

-- the log's file after some commands
abbrev pub file_of : {h : Host} → Journal h → Result (Server h) → Bytes
file_of j (ret s) = j.file s.log
file_of j (fault f) = []

-- a log that is whole has no tail
no_tail :
    (done rest : List Command) (tail : Bytes)
    → encode_all (done ++ rest) ≡ encode_all done ++ tail
    → IsTail tail rest
    → rest ≡ []
unfolding encode_all
no_tail done [] tail e torn = refl
no_tail done (c ∷ rest) tail e (w, part, some_left) = absurd (
    some_left (
      nothing w (
        omega (
          arith,
          ap length (sym (encode_all-append done (c ∷ rest)) ∙ e),
          length-append (encode_all done) (encode c ++ encode_all rest),
          length-append (encode_all done) tail,
          length-append (encode c) (encode_all rest),
          ap length part,
          length-append tail w,
        ))))
  where
    nothing : (w : Bytes) → length w ≡ 0 → w ≡ []
    nothing [] e = refl
    nothing (x ∷ w) e = cc

module _ {h : Host} (j : Journal h) (cfg : Config) (cmds : List Command) (log log' : h.Log) where
  -- the history of the commands from the start of the process on
  started : AllTimeless cmds → j.Open log → History j cmds (live_server h log) []
  unfolding find
  started all opened = history j cmds (live_server h log) [] (λ key e. cc) (refl, refl, opened) all

  -- the commands return, and the log is still open
  pub commands-return :
      AllTimeless cmds
      → j.Open log
      → (v : Server h) × (apply_all apply_record cmds (ret (live_server h log)) ≡ ret v)
        × j.Open v.log
  commands-return all opened =
      let r = started all opened in (plain r.next r.after, r.runs, r.live.2)

  started-file :
      (r : History j cmds (live_server h log) [])
      → j.file log ≡ []
      → file_of j (apply_all apply_record cmds (ret (live_server h log))) ≡ encode_all r.rs
  started-file r fresh = ap (file_of j) r.runs ∙ r.file ∙ ap (λ x. x ++ encode_all r.rs) fresh

  -- what the start makes of a part of the records
  recovered :
      (done : List Command) (db : Db) (d : Start h)
      → Replays h done [] db
      → d
        ≡ replayed true ok
            (apply_all apply_record done (ret (fresh_server h log')))
            (encode_all done)
      → d ≡ serving (record (fresh_server h log') { db = db; attached = true }) (encode_all done)
  recovered done db d same e =
      e ∙ ap (λ r. replayed true ok r (encode_all done)) (same (fresh_server h log') refl refl)

  -- From an empty keyspace, on a log that is open and empty and whose appends succeed, clients'
  -- commands that give no key a deadline and fit the parser's limits leave a file in the log. If a
  -- crash leaves any first part of its bytes, and the reads of the next start return that part, in any
  -- chunks and with any interruptions, then this start, where the configuration has a log and there is
  -- no snapshot, goes on to serve, without deadlines and with the log attached. Its keyspace and its
  -- log's file are as they were after some first part of the commands, which had returned, and no whole
  -- record is lost: behind that file the crash has left nothing, or a part of the next record.
  pub crash_lem :
      (t u : Bytes) (reads : List ReadReturn)
      → cfg.wal_enabled ≡ true
      → AllTimeless cmds
      → AllFit replay_frame_cap cmds
      → j.Open log
      → j.file log ≡ []
      → t ++ u ≡ file_of j (apply_all apply_record cmds (ret (live_server h log)))
      → data_of reads ≡ t
      → NoneBroken reads
      → (first rest : List Command) × (cmds ≡ first ++ rest)
        × (v : Server h) × (apply_all apply_record first (ret (live_server h log)) ≡ ret v)
        × (lost : List Command) × (tail : Bytes) × (file_of j
              (apply_all apply_record cmds (ret (live_server h log)))
            ≡ j.file v.log ++ encode_all lost)
        × (t ≡ j.file v.log ++ tail)
        × IsTail tail lost
        × (recover cfg (torn_disk reads t) (fresh_server h log')
            ≡ serving (record (fresh_server h log') { db = v.db; attached = true }) (j.file v.log))
  crash_lem t u reads enabled all fits opened fresh cut read unbroken =
      let r = started all opened in
      let (done, lost, tail, split, same, torn, e) =
        recover_torn h cfg log' r.rs t u reads enabled (r.fits fits) (cut ∙ started-file r fresh)
          read unbroken in
      let (first, rest, parts, v, db, ran, file, replays) = r.earlier done lost split in
      let kept : j.file v.log ≡ encode_all done = file ∙ ap (λ x. x ++ encode_all done) fresh in
      (
        first,
        rest,
        parts,
        plain v db,
        ran,
        lost,
        tail,
        started-file r fresh
            ∙ ap encode_all split
            ∙ encode_all-append done lost
            ∙ ap (λ x. x ++ encode_all lost) (sym kept),
        same ∙ ap (λ x. x ++ tail) (sym kept),
        torn,
        recovered done db (recover cfg (torn_disk reads t) (fresh_server h log')) replays e
            ∙ ap (serving (record (fresh_server h log') { db = db; attached = true })) (sym kept),
      )

  -- From an empty keyspace, on a log that is open and empty and whose appends succeed, clients'
  -- commands that give no key a deadline and fit the parser's limits all return. If the reads of the
  -- next start return the whole of the log's file, in any chunks and with any interruptions, then this
  -- start, where the configuration has a log and there is no snapshot, goes on to serve with exactly
  -- the keyspace and the deadlines of the server after the commands, with the log attached and its
  -- file as it is.
  pub restart_lem :
      (reads : List ReadReturn)
      → cfg.wal_enabled ≡ true
      → AllTimeless cmds
      → AllFit replay_frame_cap cmds
      → j.Open log
      → j.file log ≡ []
      → data_of reads ≡ file_of j (apply_all apply_record cmds (ret (live_server h log)))
      → NoneBroken reads
      → (v : Server h) × (apply_all apply_record cmds (ret (live_server h log)) ≡ ret v)
        × (recover cfg (torn_disk reads (j.file v.log)) (fresh_server h log')
            ≡ serving
                (record (fresh_server h log') { db = v.db; expiry = v.expiry; attached = true })
                (j.file v.log))
  restart_lem reads enabled all fits opened fresh read unbroken =
      let r = started all opened in
      let whole = started-file r fresh in
      let (done, lost, tail, split, same, torn, e) =
        recover_torn h cfg log' r.rs (encode_all r.rs) [] reads enabled (r.fits fits)
          (append-nil (encode_all r.rs)) (read ∙ whole) unbroken in
      let none_lost : lost ≡ [] = no_tail done lost tail (ap encode_all (sym split) ∙ same) torn in
      let all_done : done ≡ r.rs =
        sym (append-nil done) ∙ ap (λ x. done ++ x) (sym none_lost) ∙ sym split in
      let file : j.file r.next.log ≡ encode_all r.rs = sym (ap (file_of j) r.runs) ∙ whole in
      (
        plain r.next r.after,
        r.runs,
        rw file (
            recovered r.rs r.after
              (recover cfg (torn_disk reads (encode_all r.rs)) (fresh_server h log')) r.replays
              (e
                ∙ ap
                    (λ x.
                      replayed true ok (apply_all apply_record x (ret (fresh_server h log')))
                        (encode_all x))
                    all_done)),
      )

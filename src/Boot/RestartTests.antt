-- ===== src/Boot/RestartTests.antt =====
-- A crash and a restart at concrete input.
use hermitdb.Prelude.{
  ◌≡◌, refl, List, [], ◌∷◌, ◌++◌, some, Bytes, codes, arith, true, false, take, drop,
  take-append-drop, append-nil,
}
use hermitdb.Prelude.Int.{pos}
use hermitdb.Protocol.Parser.{Command}
use hermitdb.Persist.Encoding.{AllFit, encode_all}
use hermitdb.Persist.Encoding.Torn.{IsTail}
use hermitdb.Persist.Wal.{Wal, always}
use hermitdb.Persist.Tests.{slow}
use hermitdb.Persist.Wal.Unfailing.{Unfailing}
use hermitdb.Persist.Wal.Replay.{chunk, interrupted, ReadReturn, apply_all, replay_frame_cap}
use hermitdb.Core.Fault.{ret}
use hermitdb.Core.Server.{Host, Server}
use hermitdb.Core.Dispatch.{rule_of, is_one_of}
use hermitdb.Core.Replies.{upper}
use hermitdb.Core.Logged.Set.{has_time, is_time}
use hermitdb.Core.Logged.Table.{timeless}
use hermitdb.Prelude.{bytes_eq}
use hermitdb.Config.{Config, defaults}
use hermitdb.Boot.{apply_record, recover, fresh_server, serving}
use hermitdb.Boot.Journal.{Journal}
use hermitdb.Boot.LogFile.{wal_host, wal_journal}
use hermitdb.Boot.Durable.{durable_of, durable_lem}
use hermitdb.Boot.History.{AllTimeless}
use hermitdb.Boot.Recovered.{torn_disk}
use hermitdb.Boot.Restart.{live_server, file_of, crash_lem, restart_lem}

pub slow-Unfailing : Unfailing slow
slow-Unfailing = record { writes = λ i len h. cc; syncs = λ i. refl }

abbrev pub host : Host
host = wal_host slow (λ n. pos 100) (λ n. pos 0) (λ n last. 0)

abbrev pub host_journal : Journal host
host_journal = wal_journal slow (λ n. pos 100) (λ n. pos 0) (λ n last. 0) slow-Unfailing

abbrev pub new_log : Wal
new_log = record {
  policy = always;
  is_open = true;
  last_fsync_ms = pos 0;
  dirty = false;
  file = [];
  durable = [];
  calls = 0;
}

abbrev logging : Config
logging = record defaults { wal_enabled = true; fsync = some always }

-- a SET, a command that logs nothing, a counter, and a list that is emptied
abbrev session : List Command
session =
    (codes "set" ∷ codes "k" ∷ codes "v" ∷ codes "NX" ∷ [])
    ∷ (codes "GET" ∷ codes "k" ∷ [])
    ∷ (codes "INCR" ∷ codes "n" ∷ [])
    ∷ (codes "LPUSH" ∷ codes "l" ∷ codes "a" ∷ [])
    ∷ (codes "LPOP" ∷ codes "l" ∷ [])
    ∷ []

session-AllTimeless : AllTimeless session
unfolding timeless rule_of is_one_of upper bytes_eq has_time is_time
session-AllTimeless = (refl, (refl, (refl, (refl, (refl, tt)))))

session-AllFit : AllFit replay_frame_cap session
session-AllFit = omega arith

-- the log's file after the session
abbrev written : Bytes
written = file_of host_journal (apply_all apply_record session (ret (live_server host new_log)))

-- the crash leaves 100 bytes of it, and a signal interrupts the first read
abbrev first_reads : List ReadReturn
first_reads = interrupted ∷ chunk (take 100 written) ∷ []

abbrev whole_reads : List ReadReturn
whole_reads = interrupted ∷ chunk written ∷ []

crash_lem_example :
    (first rest : List Command) × (session ≡ first ++ rest)
    × (v : Server host) × (apply_all apply_record first (ret (live_server host new_log)) ≡ ret v)
    × (lost : List Command) × (tail : Bytes) × (written ≡ v.log.file ++ encode_all lost)
    × (take 100 written ≡ v.log.file ++ tail)
    × IsTail tail lost
    × (recover logging (torn_disk first_reads (take 100 written)) (fresh_server host new_log)
        ≡ serving (record (fresh_server host new_log) { db = v.db; attached = true }) v.log.file)
crash_lem_example =
    crash_lem host_journal logging session new_log new_log (take 100 written) (drop 100 written)
      first_reads refl session-AllTimeless session-AllFit refl refl (take-append-drop 100 written)
      (append-nil (take 100 written)) tt

restart_lem_example :
    (v : Server host) × (apply_all apply_record session (ret (live_server host new_log)) ≡ ret v)
    × (recover logging (torn_disk whole_reads v.log.file) (fresh_server host new_log)
        ≡ serving
            (record (fresh_server host new_log) { db = v.db; expiry = v.expiry; attached = true })
            v.log.file)
restart_lem_example =
    restart_lem host_journal logging session new_log new_log whole_reads refl session-AllTimeless
      session-AllFit refl refl (append-nil written) tt

-- what is durable after the session
abbrev synced : Bytes
synced =
    durable_of slow (λ n. pos 100) (λ n. pos 0) (λ n last. 0)
      (apply_all apply_record session (ret (live_server host new_log)))

abbrev synced_reads : List ReadReturn
synced_reads = interrupted ∷ chunk synced ∷ []

durable_lem_example :
    (v : Server host) × (apply_all apply_record session (ret (live_server host new_log)) ≡ ret v)
    × (recover logging (torn_disk synced_reads v.log.durable) (fresh_server host new_log)
        ≡ serving
            (record (fresh_server host new_log) { db = v.db; expiry = v.expiry; attached = true })
            v.log.durable)
durable_lem_example =
    durable_lem slow (λ n. pos 100) (λ n. pos 0) (λ n last. 0) slow-Unfailing logging session
      new_log new_log synced_reads refl session-AllTimeless session-AllFit refl refl refl refl
      (append-nil synced) tt

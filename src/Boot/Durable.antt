-- ===== src/Boot/Durable.antt =====
-- The log under the policy `always`: src/persist/wal.cpp behind src/core/commands.cpp, and the start
-- of src/main.cpp from what is durable.
use hermitdb.Prelude.{ℕ, ◌≡◌, ap, sym, ◌∙◌, List, [], Bytes, true, arith}
use mathlib.Core.Path.{subst}
use hermitdb.Prelude.Int.{ℤ}
use hermitdb.Protocol.Parser.{Command}
use hermitdb.Persist.Encoding.{AllFit}
use hermitdb.Persist.Wal.{Kernel, Wal, always}
use hermitdb.Persist.Wal.Unfailing.{Unfailing}
use hermitdb.Persist.Wal.Replay.{apply_all, ReadReturn, replay_frame_cap}
use hermitdb.Persist.Wal.Replay.Recovery.{data_of, NoneBroken}
use hermitdb.Core.Fault.{Result, ret, fault}
use hermitdb.Core.Server.{Host, Server}
use hermitdb.Config.{Config}
use hermitdb.Boot.{apply_record, fresh_server, recover, serving}
use hermitdb.Boot.Journal.{Journal}
use hermitdb.Boot.LogFile.{wal_host, durable_journal}
use hermitdb.Boot.History.{AllTimeless}
use hermitdb.Boot.Recovered.{torn_disk}
use hermitdb.Boot.Restart.{live_server, file_of, commands-return, restart_lem}

ret-injective : {A : Type 0} {a b : A} → ret a ≡ ret b → a ≡ b
ret-injective e = ground (arith, e)

module _ (k : Kernel) (wall_ms micros : ℕ → ℤ) (pick : ℕ → ℕ → ℕ) where
  -- what an fsync has made durable after some commands
  abbrev pub durable_of : Result (Server (wal_host k wall_ms micros pick)) → Bytes
  durable_of (ret s) = s.log.durable
  durable_of (fault f) = []

  -- Over system calls that do not fail, with the policy `always` and an empty log that is open,
  -- clients' commands from an empty keyspace that give no key a deadline and fit the parser's limits
  -- return, and what an fsync has made durable by then is enough: a start that reads those bytes, in
  -- any chunks and with any interruptions, where the configuration has a log and there is no snapshot,
  -- goes on to serve with exactly the keyspace and the deadlines of the server after the commands.
  pub durable_lem :
      Unfailing k
      → (cfg : Config) (cmds : List Command) (w w' : Wal) (reads : List ReadReturn)
      → cfg.wal_enabled ≡ true
      → AllTimeless cmds
      → AllFit replay_frame_cap cmds
      → w.is_open ≡ true
      → w.policy ≡ always
      → w.file ≡ []
      → w.durable ≡ []
      → data_of reads
        ≡ durable_of
            (apply_all apply_record cmds (ret (live_server (wal_host k wall_ms micros pick) w)))
      → NoneBroken reads
      → (v : Server (wal_host k wall_ms micros pick)) × (apply_all apply_record cmds
            (ret (live_server (wal_host k wall_ms micros pick) w))
          ≡ ret v)
        × (recover cfg
              (torn_disk reads v.log.durable)
              (fresh_server (wal_host k wall_ms micros pick) w')
            ≡ serving
                (record (fresh_server (wal_host k wall_ms micros pick) w') {
                  db = v.db;
                  expiry = v.expiry;
                  attached = true;
                })
                v.log.durable)
  durable_lem fine cfg cmds w w' reads enabled all fits opened policy empty nothing read unbroken =
      let host : Host = wal_host k wall_ms micros pick in
      let j : Journal host = durable_journal k wall_ms micros pick fine in
      let fresh : (w.is_open ≡ true) × (w.policy ≡ always) × (w.durable ≡ w.file) =
        (opened, policy, nothing ∙ sym empty) in
      let (v, runs, still) = commands-return j cfg cmds w w' all fresh in
      let whole : data_of reads
          ≡ file_of j (apply_all apply_record cmds (ret (live_server host w))) =
        read ∙ ap durable_of runs ∙ still.2 ∙ sym (ap (file_of j) runs) in
      let (v', runs', e) =
        restart_lem j cfg cmds w w' reads enabled all fits fresh empty whole unbroken in
      let same : v' ≡ v = ret-injective (sym runs' ∙ runs) in
      (
        v,
        runs,
        subst
            (λ file.
              recover cfg (torn_disk reads file) (fresh_server host w')
              ≡ serving
                  (record (fresh_server host w') { db = v.db; expiry = v.expiry; attached = true })
                  file)
            (sym still.2)
            (subst
              (λ x.
                recover cfg (torn_disk reads x.log.file) (fresh_server host w')
                ≡ serving
                    (record (fresh_server host w') {
                      db = x.db;
                      expiry = x.expiry;
                      attached = true;
                    })
                    x.log.file)
              same e),
      )

-- ===== src/Boot/LogFile.antt =====
-- The log that src/main.cpp gives the dispatcher: class Wal of src/persist/wal.cpp behind `execute`.
use hermitdb.Prelude.{ℕ, ◌≡◌, ◌∙◌, true}
use hermitdb.Prelude.Int.{ℤ}
use hermitdb.Persist.Wal.{Wal, Kernel, append, tick_fsync, always}
use hermitdb.Persist.Wal.Unfailing.{Unfailing, append-ok, append-returns}
use hermitdb.Core.Server.{Host}
use hermitdb.Boot.Journal.{Journal}

-- the process whose log is a `Wal`, over these system calls, with these clocks and this generator
abbrev pub wal_host : Kernel → (ℕ → ℤ) → (ℕ → ℤ) → (ℕ → ℕ → ℕ) → Host
wal_host k wall_ms micros pick = record {
  Log = Wal;
  append = append k;
  tick_fsync = tick_fsync k;
  wall_ms = wall_ms;
  micros = micros;
  pick = pick;
}

-- such a log, over system calls that do not fail
abbrev pub wal_journal :
    (k : Kernel) (wall_ms micros : ℕ → ℤ) (pick : ℕ → ℕ → ℕ)
    → Unfailing k
    → Journal (wal_host k wall_ms micros pick)
wal_journal k wall_ms micros pick fine = record {
  Open = λ w. w.is_open ≡ true;
  file = λ w. w.file;
  answers = λ cmd w. append-returns k cmd w;
  keeps = λ cmd w opened.
      let (v, e, file, still, _, _) = append-ok k fine cmd w opened in (v, e, file, still);
}

-- such a log under the policy `always`, where an fsync has made the whole file durable
abbrev pub durable_journal :
    (k : Kernel) (wall_ms micros : ℕ → ℤ) (pick : ℕ → ℕ → ℕ)
    → Unfailing k
    → Journal (wal_host k wall_ms micros pick)
durable_journal k wall_ms micros pick fine = record {
  Open = λ w. (w.is_open ≡ true) × (w.policy ≡ always) × (w.durable ≡ w.file);
  file = λ w. w.file;
  answers = λ cmd w. append-returns k cmd w;
  keeps = λ cmd w opened.
      let (v, e, file, still, policy, durable) = append-ok k fine cmd w opened.0 in
      (v, e, file, (still, policy ∙ opened.1, durable opened.1));
}

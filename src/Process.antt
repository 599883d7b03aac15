-- ===== src/Process.antt =====
-- What the process does for its event loops: the handler and the tick that src/main.cpp and
-- src/core/shard.cpp install, and how `main` ends. `Shards` is below.
pub mod Shards
pub mod Main
mod Tests
pub mod Counter
pub mod Readback
use hermitdb.Prelude.{
  ℕ, List, [], ◌∷◌, ◌++◌, Option, none, some, Bytes, Bool, true, false, not, ◌&&◌, if◌then◌else◌,
  ltb,
}
use hermitdb.Prelude.Int.{ℤ, pos}
use hermitdb.Protocol.Parser.{Command}
use hermitdb.Persist.Wal.{WalStatus, ok}
use hermitdb.Core.Fault.{Fault, Result, ret, fault, hangs}
use hermitdb.Core.Server.{
  Host, Server, M, ◌>>=◌, ◌>>◌, pure, demand, wall_ms, report_persistence_failure,
}
use hermitdb.Core.Server.Cycle.{active_cycle}
use hermitdb.Core.Dispatch.{execute}

module _ {h : Host} where
  -- the handler of a loop: the reply, and whether it calls `stop()`
  unfoldable pub on_command : Command → M h (Bytes × Bool)
  unfolding execute
  on_command cmd = execute cmd >>= λ reply s. ret ((reply, s.shutdown), s)

  abbrev pub synced : WalStatus × h.Log → M h (Unit {0})
  synced (ok, l) s = ret (tt, record s { log = l })
  synced (_, l) s = report_persistence_failure (record s { log = l })

  -- `if (wal && !dispatcher.persistence_failed() && wal->tick_fsync(...) != kOk) ...`
  unfoldable pub sync_log : M h (Unit {0})
  sync_log s =
      let synced_now : M h (Unit {0}) = wall_ms >>= λ now s. synced (h.tick_fsync now s.log) s in
      if s.attached && not s.persistence_failed then synced_now s else ret (tt, s)

  -- the tick of a loop: whether it calls `stop()`
  unfoldable pub on_tick : M h Bool
  unfolding active_cycle sync_log
  on_tick = do
    stats ← active_cycle (pos 1000)
    _ ← demand hangs stats
    sync_log
    λ s. ret (s.persistence_failed, s)

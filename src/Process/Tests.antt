-- ===== src/Process/Tests.antt =====
-- Two threads and their steps, at concrete input.
use hermitdb.Prelude.{ℕ, ◌+◌, ◌≡◌, refl, inr, none, List, [], ◌∷◌, some, codes, Bytes, arith}
use hermitdb.Prelude.Map.{find}
use hermitdb.Core.Fault.{ret}
use hermitdb.Core.Db
use hermitdb.Core.Db.{Db}
use hermitdb.Core.Server.{Server}
use hermitdb.Core.Logged.{plain}
use hermitdb.Boot.Restart.{live_server}
use hermitdb.Boot.RestartTests.{host, host_journal, new_log}
use hermitdb.Process.Counter.{incr, Counts, Ready}
use hermitdb.Process.Readback.{execute_readback}
use hermitdb.Core.Expiry.{empty, set_expiry, expiry_at}
use hermitdb.Core.Expiry.Consistent.{IsConsistent, empty-IsConsistent}
use hermitdb.Core.Expiry.Arming.{set_expiry-IsConsistent}
use hermitdb.Core.Dispatch.{execute}
use hermitdb.Core.Replies.{upper}
use hermitdb.Protocol.Writer.{simple, bulk}
use hermitdb.Prelude.Int.{pos}
use hermitdb.Process.Shards.{Call, handle, tick, Shards, outside, entered, started, step, run_steps}
use hermitdb.Process.Shards.Serial.{serve_all, settled, settled_result}
use hermitdb.Process.Shards.Refines.{run_steps_lem}
use hermitdb.Process.Shards.Programs.{total, to_come}
use hermitdb.Process.Shards.Progress.{Finished, progress_lem}
use hermitdb.Process.Shards.Total.{total_lem}

abbrev counter : Bytes
counter = codes "counter"

-- what two threads call: a tick, a SET and a GET, and two INCRs
abbrev mixed : List (List Call)
mixed =
    (tick ∷ handle (codes "SET" ∷ codes "k" ∷ codes "v" ∷ []) ∷ [])
    ∷ (handle (codes "GET" ∷ codes "k" ∷ []) ∷ [])
    ∷ []

abbrev counting : List (List Call)
counting = (handle (incr counter) ∷ handle (incr counter) ∷ []) ∷ (handle (incr counter) ∷ []) ∷ []

-- the threads' steps in turn, so that the one waits for the other
abbrev in_turn : List ℕ
in_turn = 0 ∷ 1 ∷ 0 ∷ 1 ∷ 0 ∷ 1 ∷ 0 ∷ 1 ∷ 0 ∷ 1 ∷ 1 ∷ 1 ∷ 0 ∷ 0 ∷ []

run_steps_lem_example :
    (order : List ℕ) × (serve_all order (started (live_server host new_log) mixed)
      ≡ settled_result (run_steps in_turn (started (live_server host new_log) mixed)))
run_steps_lem_example = run_steps_lem in_turn (live_server host new_log) mixed

no_counter : Counts counter 0 []
unfolding Db.key_type Db.get find
no_counter = (refl, refl)

total_lem_example :
    (sh : Shards host) × (run_steps in_turn (started (plain (live_server host new_log) []) counting)
      ≡ ret sh)
    × (t : Server host) × (db' : Db) × (m : ℕ) × (sh.server ≡ plain t db')
    × Counts counter m db'
    × (m + to_come (settled sh).workers ≡ 0 + total counting)
total_lem_example =
    total_lem host_journal counter in_turn (live_server host new_log) [] 0 counting
      ((refl, (refl, tt)), ((refl, tt), tt)) no_counter (refl, inr (refl, refl))
      (unfold total in omega arith)

-- after one step: thread 0 has the lock
abbrev locked_out : Shards host
locked_out = record (started (live_server host new_log) mixed) {
  lock = some 0;
  workers =
      record {
        calls = tick ∷ handle (codes "SET" ∷ codes "k" ∷ codes "v" ∷ []) ∷ [];
        phase = entered;
        replies = [];
      }
      ∷ record { calls = handle (codes "GET" ∷ codes "k" ∷ []) ∷ []; phase = outside; replies = [] }
      ∷ [];
}

one_step : run_steps (0 ∷ []) (started (live_server host new_log) mixed) ≡ ret locked_out
unfolding run_steps step
one_step = refl

progress_lem_example : (more : List ℕ) × Finished (run_steps more locked_out)
progress_lem_example = progress_lem (0 ∷ []) (live_server host new_log) mixed locked_out one_step

-- a key with a deadline, on a server that logs
abbrev armed : Server host
armed = record (live_server host new_log) {
  db = (codes "k", Db.str (codes "old")) ∷ [];
  expiry = set_expiry (codes "k") (pos 200) empty;
}

execute_readback_example :
    (t : Server host) × (execute (codes "set" ∷ codes "k" ∷ codes "new" ∷ []) armed
      ≡ ret (simple (codes "OK"), t))
    × (execute (codes "Get" ∷ codes "k" ∷ []) t ≡ ret (bulk (codes "new"), t))
    × (expiry_at (codes "k") t.expiry ≡ none)
    × IsConsistent t.expiry
    × Ready host_journal t
unfolding upper
execute_readback_example =
    execute_readback host_journal (codes "set") (codes "Get") (codes "k") (codes "new") armed refl
      refl (refl, inr (refl, refl))
      (set_expiry-IsConsistent empty empty-IsConsistent (codes "k") (pos 200))

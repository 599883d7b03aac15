-- ===== src/Core/ServerTests.antt =====
-- The commands at concrete input.
use hermitdb.Prelude.{
  refl, ℕ, ◌*◌, ◌≤◌, ◌<◌, ◌⊎◌, arith, ◌≡◌, ◌∷◌, [], List, codes, some, Bool, true, false,
  if◌then◌else◌,
}
use hermitdb.Prelude.Int.{pos, ◌+ℤ◌}
use hermitdb.Prelude.Map.{erase}
use hermitdb.Protocol.Parser.{Command}
use hermitdb.Persist.Wal.{ok}
use hermitdb.Core.Fault.{ret, fault, signed_overflow}
use hermitdb.Core.Db.{str}
use hermitdb.Core.Expiry.{Expiry, empty, set_expiry, untrack, expiry_at}
use hermitdb.Core.Expiry.Consistent.{IsConsistent, empty-IsConsistent}
use hermitdb.Core.Expiry.Arming.{set_expiry-IsConsistent}
use hermitdb.Core.Server.{Host, Server, check_and_expire}
use hermitdb.Core.Server.Touch.{Answers, is_due, check_and_expire_lem}
use hermitdb.Core.Commands.Strings.{cmd_set}
use hermitdb.Core.Commands.Overflow.{Stored, OutOfRange, cmd_set_lem}
use hermitdb.Protocol.Decimal.{parse_i64}

-- a log that keeps the records, the last one first, and a clock that stands still
abbrev pub still : Host
still = record {
  Log = List Command;
  append = λ c l. some (ok, c ∷ l);
  tick_fsync = λ now l. (ok, l);
  wall_ms = λ n. pos 100;
  micros = λ n. pos 0;
  pick = λ n last. 0;
}

pub still-Answers : Answers still
still-Answers = λ c l h. cc

abbrev armed : Expiry
armed = set_expiry (codes "k") (pos 50) empty

armed-IsConsistent : IsConsistent armed
armed-IsConsistent = set_expiry-IsConsistent empty empty-IsConsistent (codes "k") (pos 50)

-- the deadline of "k" has passed
abbrev pub serving : Server still
serving = record {
  db = (codes "k", str (codes "old")) ∷ [];
  expiry = armed;
  log = [];
  attached = true;
  shutdown = false;
  persistence_failed = false;
  readings = 0;
  micro_readings = 0;
  draws = 0;
}

check_and_expire_lem_example :
    (s : Server still) × (due : Bool) × (due ≡ is_due (expiry_at (codes "k") armed) (pos 100))
    × (check_and_expire (codes "k") serving ≡ ret (due, s))
    × (s.db ≡ (if due then erase (codes "k") serving.db else serving.db))
    × (s.expiry ≡ (if due then (untrack (codes "k") armed).1 else armed))
check_and_expire_lem_example =
    check_and_expire_lem still-Answers (codes "k") serving armed-IsConsistent

cmd_set_lem_example :
    (Stored
        (codes "k")
        (codes "v")
        (pos (10 * 1000))
        (cmd_set (codes "SET" ∷ codes "k" ∷ codes "v" ∷ codes "EX" ∷ codes "10" ∷ []) serving)
      × (10 ≤ 9223372036854775))
    ⊎ ((cmd_set (codes "SET" ∷ codes "k" ∷ codes "v" ∷ codes "EX" ∷ codes "10" ∷ []) serving
          ≡ fault signed_overflow)
        × ((9223372036854775 < 10) ⊎ ((i : ℕ) × OutOfRange (still.wall_ms i +ℤ pos (10 * 1000)))))
unfolding parse_i64
cmd_set_lem_example =
    cmd_set_lem still-Answers (codes "SET") (codes "k") (codes "v") (codes "10") 10 serving
      armed-IsConsistent refl (omega arith)

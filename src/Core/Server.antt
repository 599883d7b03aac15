-- ===== src/Core/Server.antt =====
-- The state that the command handlers share, and the handlers' monad: `Ctx` of src/core/commands.cpp
-- with the dispatcher's own fields, and the eviction that src/main.cpp installs as the hook of
-- ExpiryManager. `attached` says that `logging_wal` and the dispatcher's `wal_` are set, which main
-- does in one step when recovery is over.
pub mod Cycle
pub mod Touch
use hermitdb.Prelude.{
  ℕ, zero, suc, ◌+◌, Option, none, some, [], ◌∷◌, Bytes, codes, Bool, true, false, not, ◌&&◌, ◌||◌,
  if◌then◌else◌, get_elem?,
}
use hermitdb.Prelude.Int.{ℤ, ltb_ℤ, checked}
use hermitdb.Prelude.Map.{find}
use hermitdb.Protocol.Parser.{Command}
use hermitdb.Persist.Wal.{WalStatus, ok}
use hermitdb.Core.Fault.{Fault, Result, ret, fault, hangs, out_of_bounds, or_fault}
use hermitdb.Core.Db
use hermitdb.Core.Db.{Db}
use hermitdb.Core.Expiry
use hermitdb.Core.Expiry.{Expiry, Slot, untrack}

-- What the handlers use of the rest of the process: the log and its fsync at a time, the n-th reading
-- of the wall clock, of the steady clock in microseconds, and the n-th draw of the generator below a
-- bound.
pub record Host : Type 1 where
  pub Log : Type 0
  pub append : Command → Log → Option (WalStatus × Log)
  pub tick_fsync : ℤ → Log → WalStatus × Log
  pub wall_ms : ℕ → ℤ
  pub micros : ℕ → ℤ
  pub pick : ℕ → ℕ → ℕ

pub record Server (h : Host) : Type 0 where
  pub db : Db
  pub expiry : Expiry
  pub log : h.Log
  pub attached : Bool
  pub shutdown : Bool
  pub persistence_failed : Bool
  pub readings : ℕ
  pub micro_readings : ℕ
  pub draws : ℕ

abbrev pub M : Host → Type 0 → Type 0
M h A = Server h → Result (A × Server h)

infixl 5 ◌>>=◌ ◌>>◌
abbrev pub ◌>>=◌ : {h : Host} {A B : Type 0} → M h A → (A → M h B) → M h B
◌>>=◌ m f s = elim (m s) [ ret (a, s') ↦ f a s' | fault e ↦ fault e ]

abbrev pub ◌>>◌ : {h : Host} {B : Type 0} → M h (Unit {0}) → M h B → M h B
m >> k = m >>= λ _. k

module _ {h : Host} where
  abbrev pub pure : {A : Type 0} → A → M h A
  pure a s = ret (a, s)

  -- a value that may be missing, which is then the fault
  abbrev pub demand : {A : Type 0} → Fault → Option A → M h A
  demand f none s = fault f
  demand f (some a) s = ret (a, s)

  abbrev pub get_db : M h Db
  get_db s = ret (s.db, s)

  abbrev pub put_db : Db → M h (Unit {0})
  put_db db s = ret (tt, record s { db = db })

  abbrev pub get_expiry : M h Expiry
  get_expiry s = ret (s.expiry, s)

  abbrev pub put_expiry : Expiry → M h (Unit {0})
  put_expiry e s = ret (tt, record s { expiry = e })

  -- an operation of Db that may throw
  abbrev pub on_db : {A : Type 0} → (Db → Result (A × Db)) → M h A
  on_db f s = elim (f s.db) [ ret (a, db) ↦ ret (a, record s { db = db }) | fault e ↦ fault e ]

  abbrev pub disarm : Bytes → M h (Unit {0})
  disarm key s = ret (tt, record s { expiry = Expiry.persist key s.expiry })

  -- clock_.wall_ms()
  abbrev pub wall_ms : M h ℤ
  wall_ms s = ret (h.wall_ms s.readings, record s { readings = suc s.readings })

  -- CommandDispatcher::report_persistence_failure
  abbrev pub report_persistence_failure : M h (Unit {0})
  report_persistence_failure s = ret (tt, record s { persistence_failed = true; shutdown = true })

  -- `if (wal_->append(record) != WalStatus::kOk) report_persistence_failure();`
  abbrev pub appended : Option (WalStatus × h.Log) → M h (Unit {0})
  appended none s = fault hangs
  appended (some (ok, l)) s = ret (tt, record s { log = l })
  appended (some (_, l)) s = report_persistence_failure (record s { log = l })

  unfoldable pub append_record : Command → M h (Unit {0})
  append_record cmd s =
      if s.persistence_failed then ret (tt, s) else appended (h.append cmd s.log) s

  -- The evict hook: the key leaves the keyspace, and the log holds a DEL once it is attached.
  unfoldable pub evict : Bytes → M h (Unit {0})
  unfolding append_record Db.del
  evict key s =
      let s' : Server h = record s { db = (Db.del key s.db).1 } in
      if s.attached then append_record (codes "DEL" ∷ key ∷ []) s' else ret (tt, s')

  -- the deadline in a slot has passed: untrack first, then evict
  abbrev pub expire : Bytes → M h Bool
  expire key = do e ← get_expiry; put_expiry (untrack key e).1; evict key; pure true

  abbrev pub check_slot : Bytes → Option Slot → M h Bool
  check_slot key none s = fault out_of_bounds
  check_slot key (some slot) s =
      let read : M h Bool = (do
        now ← wall_ms
        if ltb_ℤ now slot.at_ms then pure false else expire key) in
      read s

  abbrev pub check_found : Bytes → Option ℕ → M h Bool
  check_found key none s = ret (false, s)
  check_found key (some i) s = check_slot key (get_elem? s.expiry.slots i) s

  -- ExpiryManager::check_and_expire
  unfoldable pub check_and_expire : Bytes → M h Bool
  unfolding evict untrack
  check_and_expire key s = check_found key (find key s.expiry.index) s

  unfoldable pub touch : Bytes → M h (Unit {0})
  unfolding check_and_expire
  touch key = do _ ← check_and_expire key; pure tt

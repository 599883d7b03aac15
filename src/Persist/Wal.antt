-- ===== src/Persist/Wal.antt =====
-- The write-ahead log: class Wal of src/persist/wal.h and wal.cpp. `Replay` is below.
-- The file and what an fsync has made durable are part of the state. The system calls answer through
-- a `Kernel`; `calls` counts them, so that each call may have another answer.
pub mod Append
pub mod Unfailing
pub mod Paths
pub mod Replay
use hermitdb.Prelude.{
  ℕ, zero, suc, ◌+◌, ◌*◌, ◌≤◌, ◌<◌, ◌≡◌, ◌≢◌, List, [], ◌∷◌, ◌++◌, Option, none, some, Bytes,
  length, take, drop, Bool, true, false, ◌&&◌, ◌||◌, not, if◌then◌else◌,
}
use hermitdb.Prelude.Int.{ℤ, pos, ◌-ℤ◌, ltb_ℤ}
use hermitdb.Protocol.Parser.{Command}
use hermitdb.Persist.Encoding.{encode}

pub data FsyncPolicy : Type 0 where
  always every_sec no_fsync : FsyncPolicy

pub data WalStatus : Type 0 where
  ok io_error corrupt not_implemented : WalStatus

-- What `::write` returns: a negative result with EINTR or another error, or a count of bytes.
pub data WriteReturn : Type 0 where
  interrupted failed : WriteReturn
  wrote : ℕ → WriteReturn

-- The documented behaviour of the calls: a write of at least one byte to a regular file that
-- succeeds writes at least one byte and at most as many as it was given, and signals do not
-- interrupt it for ever.
pub record Kernel : Type 0 where
  pub write : ℕ → ℕ → WriteReturn
  pub fsync : ℕ → Bool
  pub open_append : ℕ → Bool
  pub patience : ℕ
  pub progress : (i len n : ℕ) → write i (suc len) ≡ wrote n → (0 < n) × (n ≤ suc len)
  pub settles : (i len : ℕ) → (j : ℕ) × (j ≤ patience) × (write (i + j) len ≢ interrupted)

pub record Wal : Type 0 where
  pub policy : FsyncPolicy
  pub is_open : Bool
  pub last_fsync_ms : ℤ
  pub dirty : Bool
  pub file : Bytes
  pub durable : Bytes
  pub calls : ℕ

abbrev called : Wal → Wal
called w = record w { calls = suc w.calls }

abbrev pub is_always : FsyncPolicy → Bool
is_always always = true
is_always _ = false

abbrev pub is_every_sec : FsyncPolicy → Bool
is_every_sec every_sec = true
is_every_sec _ = false

module _ (k : Kernel) where
  -- The loop of `write_all`; `none` where the fuel runs out. The last argument is what is left of
  -- the data, from `off` on.
  pub write_all : ℕ → Wal → Bytes → Option (Bool × Wal)
  write_all zero w rest = none
  write_all (suc fuel) w [] = some (true, w)
  write_all (suc fuel) w (c ∷ rest) = elim (k.write w.calls (length (c ∷ rest))) [
    | interrupted ↦ write_all fuel (called w) (c ∷ rest)
    | failed ↦ some (false, called w)
    | wrote n ↦
        write_all fuel (record (called w) { file = w.file ++ take n (c ∷ rest) })
          (drop n (c ∷ rest))
  ]

  abbrev pub write_fuel : Bytes → ℕ
  write_fuel bytes = suc (suc (length bytes) * suc k.patience)

  unfoldable pub fsync_now : Wal → WalStatus × Wal
  fsync_now w =
      if not w.is_open
      then (io_error, w)
      else if k.fsync w.calls
      then (ok, record (called w) { dirty = false; durable = w.file })
      else (io_error, called w)

  unfoldable pub open_for_append : Wal → WalStatus × Wal
  open_for_append w =
      if w.is_open
      then (ok, w)
      else if k.open_append w.calls
      then (ok, record (called w) { is_open = true })
      else (io_error, called w)

  -- what `append` does when `write_all` has returned
  abbrev after_write : Option (Bool × Wal) → Option (WalStatus × Wal)
  after_write none = none
  after_write (some (false, w)) = some (io_error, w)
  after_write (some (true, w)) =
      let dirtied = record w { dirty = true } in
      if is_always w.policy then some (fsync_now dirtied) else some (ok, dirtied)

  unfoldable pub append : Command → Wal → Option (WalStatus × Wal)
  append cmd w =
      if not w.is_open
      then some (io_error, w)
      else after_write (write_all (write_fuel (encode cmd)) w (encode cmd))

  -- the tick's `fsync_now`, and the time of the last one that succeeded
  abbrev stamped : ℤ → WalStatus × Wal → WalStatus × Wal
  stamped now_ms (ok, w) = (ok, record w { last_fsync_ms = now_ms })
  stamped now_ms (st, w) = (st, w)

  unfoldable pub tick_fsync : ℤ → Wal → WalStatus × Wal
  unfolding fsync_now ◌-ℤ◌
  tick_fsync now_ms w =
      if not (is_every_sec w.policy)
      then (ok, w)
      else if not w.dirty || not w.is_open
      then (ok, w)
      else if ltb_ℤ (now_ms -ℤ w.last_fsync_ms) (pos 1000)
      then (ok, w)
      else stamped now_ms (fsync_now w)

  -- Compaction is refused, and no file is touched.
  unfoldable pub rewrite : (Bytes → Bool) → Wal → WalStatus × Wal
  rewrite write_snapshot w = (not_implemented, w)

  -- Wal::~Wal: what the fsync returns is not looked at
  unfoldable pub destroy : Wal → Wal
  destroy w =
      if not w.is_open
      then w
      else if w.dirty && k.fsync w.calls
      then record (called w) { durable = w.file; is_open = false }
      else if w.dirty
      then record (called w) { is_open = false }
      else record w { is_open = false }

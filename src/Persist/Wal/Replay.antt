-- ===== src/Persist/Wal/Replay.antt =====
-- Recovery: Wal::replay of src/persist/wal.cpp.
pub mod Recovery
pub mod Keeps
use hermitdb.Prelude.{
  ℕ, zero, suc, ◌+◌, ◌*◌, ◌^◌, List, [], ◌∷◌, ◌++◌, Bytes, length, take, Bool, true, false, ltb,
  if◌then◌else◌,
}
use hermitdb.Protocol.Parser.{Command, Parser, initial, Outcome, ready, feed}
use hermitdb.Persist.Encoding.{encode}
use hermitdb.Persist.Wal.{WalStatus, ok, io_error, corrupt}

-- What `::open` of the log for reading returns.
pub data OpenReturn : Type 0 where
  opened missing refused : OpenReturn

-- What `::read` returns before it returns 0 at the end of the file.
pub data ReadReturn : Type 0 where
  chunk : Bytes → ReadReturn
  interrupted broken : ReadReturn

-- kReplayFrameCap
abbrev pub replay_frame_cap : ℕ
replay_frame_cap = 512 * 2 ^ 20

-- How the loop over the reads ends. `S` is the state that the callback changes.
pub data ReplayEnd (S : Type 0) : Type 0 where
  at_end : ℕ → ℕ → S → ReplayEnd S
  damaged : S → ReplayEnd S
  unreadable : S → ReplayEnd S

-- `good_bytes += encode(cmd).size();`
pub size_of : List Command → ℕ
size_of [] = 0
size_of (c ∷ cs) = length (encode c) + size_of cs

module _ {S : Type 0} (fn : Command → S → S) where
  -- `fn(cmd);` for each command
  unfoldable pub apply_all : List Command → S → S
  apply_all [] s = s
  apply_all (c ∷ cs) s = apply_all cs (fn c s)

  -- the loop, from `parser`, `good_bytes` and `total_bytes` on
  pub read_loop : List ReadReturn → Parser → ℕ → ℕ → S → ReplayEnd S
  read_loop [] p good total s = at_end good total s
  read_loop (interrupted ∷ reads) p good total s = read_loop reads p good total s
  read_loop (broken ∷ reads) p good total s = unreadable s
  read_loop (chunk b ∷ reads) p good total s = elim (feed replay_frame_cap p b) [
    | ready q cs ↦ read_loop reads q (good + size_of cs) (total + length b) (apply_all cs s)
    | _ ↦ damaged s
  ]

-- What replay returns: its status, the callback's state and the file.
pub record Replayed (S : Type 0) : Type 0 where
  pub status : WalStatus
  pub state : S
  pub file : Bytes

module _ {S : Type 0} where
  -- What follows the loop. A torn tail is cut off, if `::truncate` succeeds.
  pub finish : Bool → Bytes → ReplayEnd S → Replayed S
  finish truncates file (at_end good total s) =
      if ltb good total
      then if truncates
        then record { status = ok; state = s; file = take good file }
        else record { status = io_error; state = s; file = file }
      else record { status = ok; state = s; file = file }
  finish truncates file (damaged s) = record { status = corrupt; state = s; file = file }
  finish truncates file (unreadable s) = record { status = io_error; state = s; file = file }

  -- The whole of replay, from what the system calls return and the file that they read.
  unfoldable pub replay :
      (Command → S → S) → OpenReturn → List ReadReturn → Bool → Bytes → S → Replayed S
  unfolding read_loop apply_all size_of finish
  replay fn missing reads truncates file s = record { status = ok; state = s; file = file }
  replay fn refused reads truncates file s = record { status = io_error; state = s; file = file }
  replay fn opened reads truncates file s = finish truncates file (read_loop fn reads initial 0 0 s)

-- ===== src/Persist/Wal/Replay/Keeps.antt =====
-- The callback of a replay and its state: Wal::replay of src/persist/wal.cpp.
use hermitdb.Prelude.{ℕ, ◌+◌, List, [], ◌∷◌, Bytes, length, Bool, true, false, ltb, if◌then◌else◌}
use hermitdb.Protocol.Parser.{Command, Parser, initial, Outcome, ready, failed, out_of_fuel, feed}
use hermitdb.Prelude.{take}
use hermitdb.Persist.Wal.{ok, io_error}
use hermitdb.Persist.Wal.Replay.{
  replay, read_loop, finish, apply_all, size_of, Replayed, OpenReturn, opened, missing, refused,
  ReadReturn, chunk, interrupted, broken, replay_frame_cap, ReplayEnd, at_end, damaged, unreadable,
}

module _ {S : Type 0} (fn : Command → S → S) (P : S → Type 0)
    (step : (c : Command) (s : S) → P s → P (fn c s)) where
  apply_all-keeps : (cs : List Command) (s : S) → P s → P (apply_all fn cs s)
  unfolding apply_all
  apply_all-keeps [] s p = p
  apply_all-keeps (c ∷ cs) s p = apply_all-keeps cs (fn c s) (step c s p)

  -- the state at the end of the loop
  abbrev EndsIn : ReplayEnd S → Type 0
  EndsIn (at_end good total s) = P s
  EndsIn (damaged s) = P s
  EndsIn (unreadable s) = P s

  -- one chunk, and `loop` behind it
  chunk-keeps :
      (o : Outcome) (loop : Parser → List Command → S → ReplayEnd S) (s : S)
      → P s
      → ((q : Parser) (cs : List Command) (s : S) → P s → EndsIn (loop q cs s))
      → EndsIn (elim o [ ready q cs ↦ loop q cs (apply_all fn cs s) | _ ↦ damaged s ])
  chunk-keeps (ready q cs) loop s p k = k q cs (apply_all fn cs s) (apply_all-keeps cs s p)
  chunk-keeps (failed e) loop s p k = p
  chunk-keeps out_of_fuel loop s p k = p

  read_loop-keeps :
      (reads : List ReadReturn) (q : Parser) (good total : ℕ) (s : S)
      → P s
      → EndsIn (read_loop fn reads q good total s)
  unfolding read_loop
  read_loop-keeps [] q good total s p = p
  read_loop-keeps (interrupted ∷ reads) q good total s p = read_loop-keeps reads q good total s p
  read_loop-keeps (broken ∷ reads) q good total s p = p
  read_loop-keeps (chunk b ∷ reads) q good total s p =
      chunk-keeps (feed replay_frame_cap q b)
        (λ q' cs s'. read_loop fn reads q' (good + size_of cs) (total + length b) s') s p
        (λ q' cs s' p'. read_loop-keeps reads q' (good + size_of cs) (total + length b) s' p')

  choose-keeps :
      (b : Bool) (x y : Replayed S)
      → P x.state
      → P y.state
      → P (if◌then◌else◌ {A = Replayed S} b x y).state
  choose-keeps true x y p q = p
  choose-keeps false x y p q = q

  finish-keeps :
      (truncates : Bool) (file : Bytes) (r : ReplayEnd S)
      → EndsIn r
      → P (finish truncates file r).state
  unfolding finish
  finish-keeps truncates file (at_end good total s) p =
      choose-keeps (ltb good total) _ _
        (choose-keeps truncates (record { status = ok; state = s; file = take good file })
          (record { status = io_error; state = s; file = file }) p p)
        p
  finish-keeps truncates file (damaged s) p = p
  finish-keeps truncates file (unreadable s) p = p

  pub replay-keeps :
      (o : OpenReturn) (reads : List ReadReturn) (truncates : Bool) (file : Bytes) (s : S)
      → P s
      → P (replay fn o reads truncates file s).state
  unfolding replay
  replay-keeps opened reads truncates file s p =
      finish-keeps truncates file (read_loop fn reads initial 0 0 s)
        (read_loop-keeps reads initial 0 0 s p)
  replay-keeps missing reads truncates file s p = p
  replay-keeps refused reads truncates file s p = p

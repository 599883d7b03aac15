-- ===== src/Persist/Tests.antt =====
-- The log at concrete input.
use hermitdb.Prelude.{
  ℕ, suc, ◌≤◌, ◌<◌, ◌≡◌, refl, List, [], ◌∷◌, ◌++◌, Bytes, codes, crlf, some, arith, true, Bool,
  if◌then◌else◌, ltb,
}
use hermitdb.Prelude.Int.{pos}
use hermitdb.Protocol.Decimal.{to_string}
use hermitdb.Protocol.Parser.{Command, Parser, initial, ready, feed}
use hermitdb.Persist.Encoding.{encode, encode_all}
use hermitdb.Persist.Encoding.Whole.{feed-encode_all}
use hermitdb.Persist.Encoding.Torn.{IsTail}
use hermitdb.Persist.Wal.{Kernel, Wal, wrote, always, WalStatus, ok, append}
use hermitdb.Persist.Wal.Append.{append_lem, Appended}
use hermitdb.Persist.Wal.Replay.{replay, opened, chunk, ReadReturn, apply_all}
use hermitdb.Persist.Wal.Replay
use hermitdb.Persist.Wal.Replay.Recovery.{replay_recovers}

abbrev set_command : Command
set_command = codes "SET" ∷ codes "k" ∷ codes "v" ∷ []

abbrev incr_command : Command
incr_command = codes "INCR" ∷ codes "n" ∷ []

abbrev commands : List Command
commands = set_command ∷ incr_command ∷ []

encode_set :
    encode set_command
    ≡ codes "*3"
      ++ crlf
      ++ codes "$3"
      ++ crlf
      ++ codes "SET"
      ++ crlf
      ++ codes "$1"
      ++ crlf
      ++ codes "k"
      ++ crlf
      ++ codes "$1"
      ++ crlf
      ++ codes "v"
      ++ crlf
unfolding encode to_string
encode_set = refl

feed-encode_all_example :
    (q : Parser) × (feed 1024 initial (encode_all commands) ≡ ready q commands) × (q.unread ≡ [])
feed-encode_all_example = feed-encode_all 1024 commands (omega arith) (omega arith)

-- the second record is cut off inside its first argument
abbrev torn : Bytes
torn =
    codes "*3"
    ++ crlf
    ++ codes "$3"
    ++ crlf
    ++ codes "SET"
    ++ crlf
    ++ codes "$1"
    ++ crlf
    ++ codes "k"
    ++ crlf
    ++ codes "$1"
    ++ crlf
    ++ codes "v"
    ++ crlf
    ++ codes "*2"
    ++ crlf
    ++ codes "$4"
    ++ crlf
    ++ codes "IN"

abbrev lost : Bytes
lost = codes "CR" ++ crlf ++ codes "$1" ++ crlf ++ codes "n" ++ crlf

torn_log : torn ++ lost ≡ encode_all commands
unfolding encode_all encode to_string
torn_log = refl

abbrev reads : List ReadReturn
reads = chunk torn ∷ Replay.interrupted ∷ []

abbrev push : Command → List Command → List Command
push c cs = c ∷ cs

replay_recovers_example :
    (done rest : List Command) × (tail : Bytes) × (commands ≡ done ++ rest)
    × (torn ≡ encode_all done ++ tail)
    × IsTail tail rest
    × (replay push opened reads true torn []
        ≡ record { status = ok; state = apply_all push done []; file = encode_all done })
replay_recovers_example =
    replay_recovers push commands torn lost reads [] (omega arith) torn_log refl tt

-- every other write is interrupted, and no write takes more than five bytes
abbrev pub five_at_most : ℕ → ℕ
five_at_most n = if ltb n 5 then n else 5

pub five_is_progress :
    (i len n : ℕ) → wrote (five_at_most (suc len)) ≡ wrote n → (0 < n) × (n ≤ suc len)
five_is_progress i len n h = ground arith

abbrev pub slow : Kernel
slow = record {
  write = λ i len. wrote (five_at_most len);
  fsync = λ i. true;
  open_append = λ i. true;
  patience = 0;
  progress = five_is_progress;
  settles = λ i len. (0, omega arith, λ h. cc);
}

abbrev open_log : Wal
open_log = record {
  policy = always;
  is_open = true;
  last_fsync_ms = pos 0;
  dirty = Bool.false;
  file = codes "*0" ++ crlf;
  durable = codes "*0" ++ crlf;
  calls = 0;
}

append_lem_example :
    (st : WalStatus) × (v : Wal) × (append slow set_command open_log ≡ some (st, v))
    × Appended open_log set_command st v
append_lem_example = append_lem slow set_command open_log refl

-- ===== src/Protocol/Parser.antt =====
-- The incremental RESP2 command parser: src/protocol/resp_parser.cpp and resp_parser.h.
-- `unread` is what `buf_` holds from `cursor_` on. The code reads no byte before the cursor, and
-- `feed` erases those bytes before it returns.
pub mod Lines
pub mod Rounds
pub mod Runs
pub mod Chunks
pub mod Headers
pub mod Frames
use Lines.{take_line, split_inline}
use hermitdb.Prelude.{
  ℕ, zero, suc, ◌+◌, ◌*◌, ◌≡◌, ◌||◌, List, [], ◌∷◌, ◌++◌, Option, none, some, Bytes, codes, cr, lf,
  length, take, drop, ltb, leb, ◌==◌, if◌then◌else◌, Bool, true, false, get_elem?,
}
use hermitdb.Prelude.Int.{ℤ, pos, negsuc}
use hermitdb.Protocol.Decimal.{parse_i64}

-- A client command as argv.
abbrev pub Command : Type 0
Command = List Bytes

pub data State : Type 0 where
  line bulk_head bulk_body : State

pub record Parser : Type 0 where
  pub unread : Bytes
  pub state : State
  pub pending_argc : ℕ
  pub bulk_len : ℕ
  pub args : List Bytes

abbrev pub initial : Parser
initial = record { unread = []; state = line; pending_argc = 0; bulk_len = 0; args = [] }

-- kMaxArgs
abbrev pub max_args : ℕ
max_args = 1024 * 1024

-- One round of the loop in `feed`: `break`, `continue`, a command and `continue`, or `fail`.
pub data Round : Type 0 where
  wait : Round
  continue : Parser → Round
  command : Command → Parser → Round
  reject : Bytes → Round

-- `p` with the bytes behind the line that was taken
abbrev behind : Parser → Bytes → Parser
behind p rest = record p { unread = rest }

-- an array header, `*<n>`: the number that stands behind the asterisk
on_argc : ℕ → Parser → Option ℤ → Round
on_argc max_frame p none = reject (codes "ERR Protocol error: invalid multibulk length")
on_argc max_frame p (some (negsuc n)) = continue p
on_argc max_frame p (some (pos zero)) = continue p
on_argc max_frame p (some (pos (suc n))) =
    if ltb max_args (suc n) || ltb max_frame (suc n)
    then reject (codes "ERR Protocol error: invalid multibulk length")
    else continue (record p { pending_argc = suc n; args = []; state = bulk_head })

on_inline : Command → Parser → Round
on_inline [] p = continue p
on_inline (a ∷ cmd) p = command (a ∷ cmd) p

on_line : ℕ → Parser → Option (Bytes × Bytes) → Round
unfolding on_argc on_inline
on_line max_frame p none = wait
on_line max_frame p (some ([], rest)) = continue (behind p rest)
on_line max_frame p (some (c ∷ s, rest)) =
    if c == b'*'
    then on_argc max_frame (behind p rest) (parse_i64 s)
    else on_inline (split_inline (c ∷ s)) (behind p rest)

-- a bulk header, `$<len>`: the number that stands behind the dollar sign
on_bulk_len : ℕ → Parser → Option ℤ → Round
on_bulk_len max_frame p none = reject (codes "ERR Protocol error: invalid bulk length")
on_bulk_len max_frame p (some (negsuc n)) = reject (codes "ERR Protocol error: invalid bulk length")
on_bulk_len max_frame p (some (pos len)) =
    if ltb max_frame (len + 2)
    then reject (codes "ERR Protocol error: invalid bulk length")
    else continue (record p { bulk_len = len; state = bulk_body })

on_bulk_head : ℕ → Parser → Option (Bytes × Bytes) → Round
unfolding on_bulk_len
on_bulk_head max_frame p none = wait
on_bulk_head max_frame p (some ([], rest)) =
    reject (codes "ERR Protocol error: expected '$', got something else")
on_bulk_head max_frame p (some (c ∷ s, rest)) =
    if c == b'$'
    then on_bulk_len max_frame (behind p rest) (parse_i64 s)
    else reject (codes "ERR Protocol error: expected '$', got something else")

-- the two bytes behind the payload, and what follows them
on_terminator : Parser → Bytes → Round
on_terminator p (c ∷ d ∷ rest) =
    if c == cr
    then if d == lf
      then continue (record p {
        unread = rest;
        args = p.args ++ take p.bulk_len p.unread ∷ [];
        state = bulk_head;
      })
      else reject (codes "ERR Protocol error: bulk payload not terminated by CRLF")
    else reject (codes "ERR Protocol error: bulk payload not terminated by CRLF")
on_terminator p s = wait

on_bulk_body : Parser → Round
unfolding on_terminator
on_bulk_body p =
    if ltb (length p.unread) (p.bulk_len + 2)
    then wait
    else on_terminator p (drop p.bulk_len p.unread)

round_at : State → ℕ → Parser → Round
unfolding on_line on_bulk_head on_bulk_body
round_at line max_frame p = on_line max_frame p (take_line p.unread)
round_at bulk_head max_frame p =
    if length p.args == p.pending_argc
    then command p.args (record p { args = []; state = line })
    else on_bulk_head max_frame p (take_line p.unread)
round_at bulk_body max_frame p = on_bulk_body p

unfoldable pub round : ℕ → Parser → Round
unfolding round_at
round max_frame p = round_at p.state max_frame p

-- How the loop ends: out of bytes, with the commands in the order of arrival; or by `fail`.
pub data Outcome : Type 0 where
  ready : Parser → List Command → Outcome
  failed : Bytes → Outcome
  out_of_fuel : Outcome

-- a command in front of those of the rounds that follow
abbrev pub prepend : Command → Outcome → Outcome
prepend c (ready p cs) = ready p (c ∷ cs)
prepend c (failed e) = failed e
prepend c out_of_fuel = out_of_fuel

unfoldable pub run : ℕ → ℕ → Parser → Outcome
run zero max_frame p = out_of_fuel
run (suc fuel) max_frame p = elim (round max_frame p) [
  | wait ↦ ready p []
  | continue q ↦ run fuel max_frame q
  | command c q ↦ prepend c (run fuel max_frame q)
  | reject e ↦ failed e
]

-- Each round takes a byte, or leaves `bulk_head` without one.
abbrev pub head_first : State → ℕ
head_first bulk_head = 1
head_first _ = 0

abbrev pub measure : Parser → ℕ
measure p = 2 * length p.unread + head_first p.state

-- `buf_.append(bytes.data(), bytes.size())`
abbrev pub extend : Parser → Bytes → Parser
extend p bytes = record p { unread = p.unread ++ bytes }

-- what is unread is one incomplete frame, and its size is checked
pub size_checked : ℕ → Outcome → Outcome
size_checked max_frame (ready p cs) =
    if ltb max_frame (length p.unread)
    then failed (codes "ERR Protocol error: too big inline request")
    else ready p cs
size_checked max_frame (failed e) = failed e
size_checked max_frame out_of_fuel = out_of_fuel

unfoldable pub feed : ℕ → Parser → Bytes → Outcome
unfolding run size_checked
feed max_frame p bytes =
    size_checked max_frame (run (suc (measure (extend p bytes))) max_frame (extend p bytes))

-- the cursor of a parser at the round that failed: behind the line, or in front of the payload
abbrev past_line : Parser → Option (Bytes × Bytes) → Parser
past_line p none = p
past_line p (some (l, rest)) = behind p rest

abbrev failing : State → Parser → Parser
failing bulk_body p = p
failing _ p = past_line p (take_line p.unread)

unfoldable pub run_failed : ℕ → ℕ → Parser → Parser
unfolding round
run_failed zero max_frame p = p
run_failed (suc fuel) max_frame p = elim (round max_frame p) [
  | wait ↦ p
  | continue q ↦ run_failed fuel max_frame q
  | command c q ↦ run_failed fuel max_frame q
  | reject e ↦ failing p.state p
]

-- The parser that a call of `feed` leaves when it fails.
unfoldable pub parser_after : ℕ → Parser → Bytes → Parser
unfolding run_failed
parser_after max_frame p bytes =
    run_failed (suc (measure (extend p bytes))) max_frame (extend p bytes)

-- ===== src/Net/Connection.antt =====
-- A connection, and sending what is queued on it: src/net/connection.h, and `flush`, `modify_fd` and
-- `close_connection` of src/net/event_loop.cpp.
-- What the system calls return is input: a list of answers for each event, and at the end of a list
-- the call would block. `wire` is what the kernel took for each descriptor, in order; it
-- takes the short reply to a client that is refused whole.
pub mod Flush
use hermitdb.Prelude.{
  ℕ, zero, suc, ◌+◌, ◌*◌, ◌^◌, List, [], ◌∷◌, ◌++◌, Option, none, some, Bytes, codes, length, take,
  drop, Bool, true, false, not, ltb, leb, ◌==◌, ◌||◌, ◌&&◌, if◌then◌else◌,
}
use hermitdb.Protocol.Parser.{
  Command, Parser, initial, Outcome, ready, failed, out_of_fuel, feed, parser_after,
}
use hermitdb.Protocol.Writer
use hermitdb.Net.Table.{Table, find, put, erase}

pub record Connection : Type 0 where
  pub parser : Parser
  pub outbuf : Bytes
  pub close_after_flush : Bool

-- EPOLLIN, or EPOLLIN | EPOLLOUT
pub data Interest : Type 0 where
  input both : Interest

abbrev pub same_interest : Interest → Interest → Bool
same_interest input input = true
same_interest both both = true
same_interest _ _ = false

-- `handler_`: the reply, whether `stop()` was called, and what the handler changed.
pub record Handler (S : Type 0) : Type 0 where
  pub reply : Command → S → Bytes
  pub stops : Command → S → Bool
  pub next : Command → S → S

pub record Loop (S : Type 0) : Type 0 where
  pub conns : Table Connection
  pub interest : Table Interest
  pub closed_this_batch : List ℕ
  pub stop_requested : Bool
  pub wire : List (ℕ × Bytes)
  pub app : S

-- kReadChunk
abbrev pub read_chunk : ℕ
read_chunk = 64 * 1024

-- kMaxReadPerEvent
abbrev pub max_read_per_event : ℕ
max_read_per_event = 2 ^ 20

-- kMaxOutbufBytes
abbrev pub max_outbuf_bytes : ℕ
max_outbuf_bytes = 256 * 2 ^ 20

-- What `::send` returns: a count, or -1 with EINTR, with EAGAIN, or with another error.
pub data SendReturn : Type 0 where
  sent : ℕ → SendReturn
  interrupted again broken : SendReturn

-- The answers of one call of `flush`: those of `::send`, and whether `epoll_ctl` succeeds.
pub record Sends : Type 0 where
  pub answers : List SendReturn
  pub modifies : Bool

-- What `::recv` returns: a byte and more, 0, or -1 with EINTR, with EAGAIN, or with another error.
pub data RecvReturn : Type 0 where
  got : ℕ → Bytes → RecvReturn
  shut interrupted again broken : RecvReturn

-- How the loop over `::send` ends: nothing is left, the kernel's buffer is full, or an error.
pub data SendEnd : Type 0 where
  drained full dead : SendEnd

-- how it ended, what is left, and what was taken
pub record Pushed : Type 0 where
  pub end : SendEnd
  pub rest : Bytes
  pub taken : Bytes

abbrev pub also_taken : Bytes → Pushed → Pushed
also_taken s p = record p { taken = s ++ p.taken }

-- `while (!conn.outbuf().empty()) { ... }`
unfoldable pub push : List SendReturn → Bytes → Pushed
push answers [] = record { end = drained; rest = []; taken = [] }
push [] (c ∷ s) = record { end = full; rest = c ∷ s; taken = [] }
push (sent zero ∷ answers) (c ∷ s) = record { end = dead; rest = c ∷ s; taken = [] }
push (sent (suc n) ∷ answers) (c ∷ s) = also_taken (c ∷ take n s) (push answers (drop n s))
push (SendReturn.interrupted ∷ answers) (c ∷ s) = push answers (c ∷ s)
push (SendReturn.again ∷ answers) (c ∷ s) = record { end = full; rest = c ∷ s; taken = [] }
push (SendReturn.broken ∷ answers) (c ∷ s) = record { end = dead; rest = c ∷ s; taken = [] }

module _ {S : Type 0} where
  unfoldable pub close_connection : ℕ → Loop S → Loop S
  close_connection fd l = record l {
    conns = erase fd l.conns;
    interest = erase fd l.interest;
    closed_this_batch = l.closed_this_batch ++ fd ∷ [];
  }

  abbrev pub modified : ℕ → Interest → Bool → Option Interest → Loop S → Loop S
  modified fd ev modifies none l =
      if modifies then record l { interest = put fd ev l.interest } else l
  modified fd ev modifies (some old) l =
      if same_interest old ev
      then l
      else if modifies
      then record l { interest = put fd ev l.interest }
      else l

  -- Its callers do not use what it returns.
  unfoldable pub modify_fd : ℕ → Interest → Bool → Loop S → Loop S
  modify_fd fd ev modifies l = modified fd ev modifies (find fd l.interest) l

  -- what `flush` does when the loop over `::send` has ended
  abbrev pub flush_pushed : ℕ → Connection → Bool → Pushed → Loop S → Bool × Loop S
  flush_pushed fd conn modifies p l = elim p.end [
    | dead ↦ (false, close_connection fd l)
    | drained ↦ if conn.close_after_flush then (false, close_connection fd l) else (
      true,
      modify_fd fd input modifies
          (record l { conns = put fd (record conn { outbuf = [] }) l.conns }),
    )
    | full ↦ if ltb max_outbuf_bytes (length p.rest) then (false, close_connection fd l) else (
      true,
      modify_fd fd both modifies
          (record l { conns = put fd (record conn { outbuf = p.rest }) l.conns }),
    )
  ]

  -- `conn` is the connection of `fd`, with what has been queued on it.
  unfoldable pub flush : ℕ → Connection → Sends → Loop S → Bool × Loop S
  unfolding push close_connection modify_fd
  flush fd conn sends l =
      let p = push sends.answers conn.outbuf in
      flush_pushed fd conn sends.modifies p (record l { wire = l.wire ++ (fd, p.taken) ∷ [] })

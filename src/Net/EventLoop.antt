-- ===== src/Net/EventLoop.antt =====
-- Reading, accepting and the dispatch of events: src/net/event_loop.cpp.
pub mod Rounds
pub mod Endings
pub mod Reading
pub mod Keeps
pub mod Registered
pub mod Stale
use hermitdb.Prelude.{
  ℕ, zero, suc, ◌+◌, ◌*◌, ◌^◌, List, [], ◌∷◌, ◌++◌, Option, none, some, Bytes, codes, length, take,
  drop, Bool, true, false, not, ltb, leb, ◌==◌, ◌||◌, ◌&&◌, if◌then◌else◌,
}
use hermitdb.Protocol.Parser.{
  Command, Parser, initial, Outcome, ready, failed, out_of_fuel, feed, parser_after,
}
use hermitdb.Protocol.Writer
use hermitdb.Net.Table.{Table, find, put, erase}
use hermitdb.Net.Connection.{
  Connection, Interest, input, both, Handler, Loop, read_chunk, max_read_per_event, Sends,
  RecvReturn, got, shut, interrupted, again, broken, flush, close_connection,
}

-- The commands of one call of the parser: the replies, one behind the other, and the loop's state.
module _ {S : Type 0} (h : Handler S) where
  unfoldable pub run_commands : List Command → S → Bool → Bytes × Bool × S
  run_commands [] s stop = ([], stop, s)
  run_commands (c ∷ cs) s stop =
      let (out, stop', s') = run_commands cs (h.next c s) (stop || h.stops c s) in
      (h.reply c s ++ out, stop', s')

-- How the loop over `::recv` ends: by a break, with what is queued then, or by closing.
pub data ReadEnd (S : Type 0) : Type 0 where
  to_flush : Connection → Bool → S → ReadEnd S
  gone : Bool → S → ReadEnd S

-- `r.error.empty() ? "ERR Protocol error" : r.error`
abbrev pub error_text : Bytes → Bytes
error_text [] = codes "ERR Protocol error"
error_text (c ∷ s) = c ∷ s

module _ {S : Type 0} (h : Handler S) (max_frame : ℕ) where
  -- a protocol error: the reply is queued, and the connection is to be closed
  abbrev pub rejected : Connection → Bytes → Bytes → Connection
  rejected conn chunk e = record {
    parser = parser_after max_frame conn.parser chunk;
    outbuf = conn.outbuf ++ Writer.error (error_text e);
    close_after_flush = true;
  }

  abbrev pub replied : Connection → Parser → Bytes → Connection
  replied conn p out = record conn { parser = p; outbuf = conn.outbuf ++ out }

  -- The loop of `handle_readable`: the answers that are left and what was read so far.
  unfoldable pub read_loop : List RecvReturn → ℕ → Connection → Bool → S → ReadEnd S
  unfolding run_commands
  read_loop [] total conn stop s = to_flush conn stop s
  read_loop (got c b ∷ recvs) total conn stop s = elim (feed max_frame conn.parser (c ∷ b)) [
    | failed e ↦ to_flush (rejected conn (c ∷ b) e) stop s
    | out_of_fuel ↦ to_flush conn stop s
    | ready p cs ↦
        let (out, stop', s') = run_commands h cs s stop in
        let total' = total + length (c ∷ b) in
        elim (stop' || ltb (length (c ∷ b)) read_chunk || leb max_read_per_event total') [
          | true ↦ to_flush (replied conn p out) stop' s'
          | false ↦ read_loop recvs total' (replied conn p out) stop' s'
        ]
  ]
  read_loop (shut ∷ recvs) total conn stop s = gone stop s
  read_loop (interrupted ∷ recvs) total conn stop s = read_loop recvs total conn stop s
  read_loop (again ∷ recvs) total conn stop s = to_flush conn stop s
  read_loop (broken ∷ recvs) total conn stop s = gone stop s

  abbrev pub read_end : ℕ → Sends → Loop S → ReadEnd S → Bool × Loop S
  read_end fd sends l (to_flush conn stop s) =
      flush fd conn sends (record l { stop_requested = stop; app = s })
  read_end fd sends l (gone stop s) =
      (false, close_connection fd (record l { stop_requested = stop; app = s }))

  -- Whether the connection is still there, and the loop.
  unfoldable pub handle_readable : ℕ → Connection → List RecvReturn → Sends → Loop S → Bool × Loop S
  unfolding read_loop flush close_connection
  handle_readable fd conn recvs sends l =
      read_end fd sends l (read_loop recvs 0 conn l.stop_requested l.app)

-- What `accept_client` returns: a descriptor, with whether `epoll_ctl` will register it, or no client.
-- The end of a list of these is an empty queue.
pub data AcceptReturn : Type 0 where
  client : ℕ → Bool → AcceptReturn
  no_client : AcceptReturn

-- One event of a batch with the answers of the calls that its handling makes.
pub record Event : Type 0 where
  pub fd : ℕ
  pub hung_up : Bool
  pub readable : Bool
  pub writable : Bool
  pub accepts : List AcceptReturn
  pub recvs : List RecvReturn
  pub read_sends : Sends
  pub write_sends : Sends

abbrev pub is_in : ℕ → List ℕ → Bool
is_in k [] = false
is_in k (j ∷ l) = j == k || is_in k l

-- the configuration's limits, and the listener's descriptor
pub record Limits : Type 0 where
  pub max_frame : ℕ
  pub max_clients : ℕ
  pub listener : ℕ

abbrev pub fresh_connection : Connection
fresh_connection = record { parser = initial; outbuf = []; close_after_flush = false }

-- "ERR max number of clients reached"
abbrev pub full_reply : Bytes
full_reply = Writer.error (codes "ERR max number of clients reached")

module _ {S : Type 0} (h : Handler S) (m : Limits) where
  -- one round of the accept loop; the kernel hands out no descriptor that is open
  unfoldable pub admit : ℕ → Bool → Loop S → Loop S
  admit fd registers l =
      if leb m.max_clients (length l.conns)
      then record l { wire = l.wire ++ (fd, full_reply) ∷ [] }
      else if registers
      then record l { interest = put fd input l.interest; conns = put fd fresh_connection l.conns }
      else l

  unfoldable pub accept_new_clients : List AcceptReturn → Loop S → Loop S
  unfolding admit
  accept_new_clients [] l = l
  accept_new_clients (no_client ∷ rest) l = l
  accept_new_clients (client fd registers ∷ rest) l = accept_new_clients rest (admit fd registers l)

  -- EPOLLOUT, if the connection is still there
  abbrev pub write_part : Event → Bool × Loop S → Loop S
  write_part ev (false, l) = l
  write_part ev (true, l) = elim (find ev.fd l.conns) [
    | none ↦ l
    | some conn ↦ if ev.writable then (flush ev.fd conn ev.write_sends l).1 else l
  ]

  -- an event of a connection
  unfoldable pub serve : Event → Connection → Loop S → Loop S
  unfolding handle_readable flush close_connection
  serve ev conn l =
      if ev.hung_up
      then close_connection ev.fd l
      else write_part ev (
          if ev.readable
          then handle_readable h m.max_frame ev.fd conn ev.recvs ev.read_sends l
          else (true, l))

  abbrev pub serve_found : Event → Option Connection → Loop S → Loop S
  serve_found ev none l = l
  serve_found ev (some conn) l = serve ev conn l

  -- one round of the loop over the events
  unfoldable pub dispatch : Event → Loop S → Loop S
  unfolding accept_new_clients serve
  dispatch ev l =
      if ev.fd == m.listener
      then accept_new_clients ev.accepts l
      else if is_in ev.fd l.closed_this_batch
      then l
      else serve_found ev (find ev.fd l.conns) l

  unfoldable pub dispatch_all : List Event → Loop S → Loop S
  unfolding dispatch
  dispatch_all [] l = l
  dispatch_all (ev ∷ evs) l = dispatch_all evs (dispatch ev l)

  -- one batch: `closed_this_batch_.clear()` and the loop over the events
  unfoldable pub run_batch : List Event → Loop S → Loop S
  unfolding dispatch_all
  run_batch evs l = dispatch_all evs (record l { closed_this_batch = [] })

-- ===== src/Net/Tests.antt =====
-- The event loop at concrete input.
use hermitdb.Prelude.{
  ℕ, suc, ◌≡◌, ◌⊎◌, refl, List, [], ◌∷◌, ◌++◌, true, false, Bytes, codes, crlf, arith,
}
use hermitdb.Prelude.Int.{pos, ◌+ℤ◌}
use hermitdb.Protocol.Parser.{Command, initial}
use hermitdb.Protocol.Writer.{bulk}
use hermitdb.Net.Table.{find}
use hermitdb.Net.Connection.{
  Connection, input, Handler, Loop, Sends, sent, SendReturn, RecvReturn, got, flush,
}
use hermitdb.Net.Connection.Flush
use hermitdb.Net.Connection.Flush.{Flushed, flush_lem}
use hermitdb.Net.EventLoop.{
  Limits, Event, client, fresh_connection, read_loop, run_batch, dispatch_all,
}
use hermitdb.Net.EventLoop.Reading.{Read, read_loop_lem}
use hermitdb.Net.EventLoop.Registered.{Registered, run_batch-Registered}
use hermitdb.Net.EventLoop.Stale.{without, dispatch_all-without}
use hermitdb.Net.Reactor.{Tick, run_due_ticks, timeout_of, max_loop_timeout_ms}
use hermitdb.Net.Reactor.Ticks.{
  ◌≤ℤ◌, AllAhead, NoLater, SomeDue, due_ticks, callbacks, run_due_ticks_lem, timeout_of_lem,
}

-- A server that counts the commands and answers each with its name.
abbrev name_of : Command → Bytes
name_of [] = []
name_of (c ∷ _) = c

abbrev counter : Handler ℕ
counter = record { reply = λ c n. bulk (name_of c); stops = λ c n. false; next = λ c n. suc n }

abbrev limits : Limits
limits = record { max_frame = 1024; max_clients = 10; listener = 3 }

-- a connection whose replies are not sent yet
abbrev waiting : Connection
waiting = record { parser = initial; outbuf = codes "+OK" ++ crlf; close_after_flush = true }

abbrev one_client : Loop ℕ
one_client = record {
  conns = (7, waiting) ∷ [];
  interest = (7, input) ∷ (3, input) ∷ [];
  closed_this_batch = [];
  stop_requested = false;
  wire = [];
  app = 0;
}

-- three bytes are taken, then the kernel's buffer is full
abbrev short_send : Sends
short_send = record { answers = sent 3 ∷ SendReturn.again ∷ []; modifies = true }

abbrev no_sends : Sends
no_sends = record { answers = []; modifies = true }

flush_lem_example :
    (taken rest : Bytes) × (taken ++ rest ≡ codes "+OK" ++ crlf)
    × ((flush 7 waiting short_send one_client).1.wire ≡ (7, taken) ∷ [])
    × Flushed 7 waiting short_send rest (flush 7 waiting short_send one_client)
    × Flush.Apart 7 one_client (flush 7 waiting short_send one_client).1
flush_lem_example = flush_lem 7 waiting short_send one_client

-- an inline command, and then an interrupted call
abbrev received : List RecvReturn
received = got b'P' (codes "ING" ++ crlf) ∷ RecvReturn.interrupted ∷ RecvReturn.again ∷ []

read_loop_lem_example :
    Read counter 1024 received 0 fresh_connection false 0
      (read_loop counter 1024 received 0 fresh_connection false 0)
read_loop_lem_example = read_loop_lem counter 1024 received 0 fresh_connection false 0

abbrev hang_up : Event
hang_up = record {
  fd = 7;
  hung_up = true;
  readable = false;
  writable = false;
  accepts = [];
  recvs = [];
  read_sends = no_sends;
  write_sends = no_sends;
}

-- the number 7 is given to a new client
abbrev arrival : Event
arrival = record hang_up { fd = 3; hung_up = false; accepts = client 7 true ∷ [] }

abbrev late_input : Event
late_input = record hang_up { hung_up = false; readable = true; recvs = received }

one_client-Registered : Registered limits one_client
unfolding find
one_client-Registered = record { agree = λ fd h. ground arith; own = refl; few = omega arith }

run_batch-Registered_example :
    Registered limits (run_batch counter limits (hang_up ∷ arrival ∷ late_input ∷ []) one_client)
run_batch-Registered_example =
    run_batch-Registered counter limits (hang_up ∷ arrival ∷ late_input ∷ []) one_client
      (tt, ((refl, tt), (tt, tt))) one_client-Registered

-- the loop once the descriptor 7 was closed in the batch
abbrev hung_up_loop : Loop ℕ
hung_up_loop = record one_client {
  conns = [];
  interest = (3, input) ∷ [];
  closed_this_batch = 7 ∷ [];
}

dispatch_all-without_example :
    dispatch_all counter limits (arrival ∷ late_input ∷ []) hung_up_loop
    ≡ dispatch_all counter limits
        (without counter limits 7 (arrival ∷ late_input ∷ []))
        hung_up_loop
dispatch_all-without_example =
    dispatch_all-without counter limits 7 (arrival ∷ late_input ∷ []) hung_up_loop refl
      ((refl, tt), (tt, tt)) refl

-- the active expiry cycle's tick and that of the log
abbrev ticks : List (Tick ℕ)
ticks =
    record { stops = λ n. false; next = λ n. suc n; interval_ms = pos 100; next_due_ms = pos 1100 }
    ∷ record { stops = λ n. false; next = λ n. n; interval_ms = pos 1000; next_due_ms = pos 2000 }
    ∷ []

run_due_ticks_lem_example :
    AllAhead
      (pos 1150)
      (run_due_ticks (pos 1150) ticks one_client).1
      (run_due_ticks (pos 1150) ticks one_client).0
    × ((run_due_ticks (pos 1150) ticks one_client).1 ≤ℤ pos 1150 +ℤ max_loop_timeout_ms)
    × ((run_due_ticks (pos 1150) ticks one_client).2
        ≡ callbacks (due_ticks (pos 1150) ticks) one_client)
run_due_ticks_lem_example =
    run_due_ticks_lem (pos 1150) ticks one_client (omega arith, (omega arith, tt))

timeout_of_lem_example :
    ((pos 0 ≤ℤ timeout_of (pos 1070) ticks) × (timeout_of (pos 1070) ticks ≤ℤ max_loop_timeout_ms))
    × NoLater (pos 1070) (timeout_of (pos 1070) ticks) ticks
    × ((timeout_of (pos 1070) ticks ≡ max_loop_timeout_ms)
        ⊎ SomeDue (pos 1070 +ℤ timeout_of (pos 1070) ticks) ticks)
timeout_of_lem_example = timeout_of_lem (pos 1070) ticks

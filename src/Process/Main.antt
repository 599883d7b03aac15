-- ===== src/Process/Main.antt =====
-- `main` of src/main.cpp, and `start_and_run` of src/core/shard.cpp before its threads run and behind
-- them. What the listener, the event loop's system calls and the threads do is input.
use hermitdb.Prelude.{ℕ, List, [], ◌∷◌, Bytes, Bool, true, false, ltb, ◌||◌, if◌then◌else◌}
use hermitdb.Prelude.Int.{ℤ, pos}
use hermitdb.Core.Fault.{Fault, Result, ret, fault}
use hermitdb.Core.Server.{Host, Server}
use hermitdb.Config.{Config, Parsed, accepted, refused, defaults, parse_args}
use hermitdb.Net.Connection.{Handler, Loop}
use hermitdb.Net.EventLoop.{Limits}
use hermitdb.Net.Reactor.{Tick, Turn, RunState, waiting, stopped, fatal, run}
use hermitdb.Boot.{Disk, Start, serving, exits, crashed, fresh_server, recover}
use hermitdb.Process.{on_command, on_tick}
use hermitdb.Process.Shards.{Call, Shards, started, run_steps}

-- What the network is for the process: whether the port can be listened on, the listener's descriptor,
-- whether `::epoll_create1` and `::epoll_ctl` succeed, the clock's first reading, and the loop's passes.
pub record Network : Type 0 where
  pub listens : Bool
  pub listener : ℕ
  pub creates : Bool
  pub registers : Bool
  pub start_ms : ℤ
  pub turns : List Turn

-- How far the process is: its loop waits, or it has returned this from `main`, or it has faulted.
pub data Outcome : Type 0 where
  running : Outcome
  returned : ℕ → Outcome
  faulted : Fault → Outcome

abbrev pub limits : Config → Network → Limits
limits cfg net = record {
  max_frame = cfg.max_frame_bytes;
  max_clients = cfg.max_clients;
  listener = net.listener;
}

module _ {h : Host} where
  abbrev pub reply_of : Result ((Bytes × Bool) × Server h) → Bytes
  reply_of (ret ((reply, stop), s)) = reply
  reply_of (fault f) = []

  abbrev pub stop_of : {A : Type 0} → (A → Bool) → Result (A × Server h) → Bool
  stop_of stops (ret (a, s)) = stops a
  stop_of stops (fault f) = true

  abbrev pub left_by : {A : Type 0} → Result (A × Server h) → Result (Server h)
  left_by (ret (a, s)) = ret s
  left_by (fault f) = fault f

  abbrev pub then_call :
      {A : Type 0} → Result (Server h) → (Server h → Result (A × Server h)) → Result (A × Server h)
  then_call (ret s) f = f s
  then_call (fault e) f = fault e

  -- loop.set_handler(...): a fault stops the process
  abbrev pub handler : Handler (Result (Server h))
  handler = record {
    reply = λ cmd r. reply_of (then_call r (on_command cmd));
    stops = λ cmd r. stop_of (λ a. a.1) (then_call r (on_command cmd));
    next = λ cmd r. left_by (then_call r (on_command cmd));
  }

  -- loop.add_tick(...)
  abbrev pub maintenance : Tick (Result (Server h))
  maintenance = record {
    stops = λ r. stop_of (λ stop. stop) (then_call r on_tick);
    next = λ r. left_by (then_call r on_tick);
    interval_ms = pos 100;
    next_due_ms = pos 0;
  }

  abbrev pub exit_code : Result (Server h) → Outcome
  exit_code (ret s) = returned (if s.persistence_failed then 1 else 0)
  exit_code (fault f) = faulted f

  -- `switch (loop.run()) ...`
  abbrev pub ended : RunState (Result (Server h)) → Outcome
  ended (waiting ts capacity l) = running
  ended (stopped l) = exit_code l.app
  ended fatal = returned 1

  abbrev pub fresh_loop : Server h → Loop (Result (Server h))
  fresh_loop s = record {
    conns = [];
    interest = [];
    closed_this_batch = [];
    stop_requested = false;
    wire = [];
    app = ret s;
  }

  -- from the listener on
  unfoldable pub serve_loop : Config → Network → Start h → Outcome
  unfolding run on_command on_tick
  serve_loop cfg net (exits code) = returned code
  serve_loop cfg net (crashed f) = faulted f
  serve_loop cfg net (serving s log) =
      if net.listens
      then ended (
          run handler (limits cfg net) net.creates net.registers net.start_ms net.turns
            (maintenance ∷ []) (fresh_loop s))
      else returned 1

-- What `start_and_run` returns.
pub data ShardStatus : Type 0 where
  all_stopped fatal_error not_implemented : ShardStatus

-- How `start_and_run` begins: the threads run, or it returns at once, or a fault.
pub data ShardStart (h : Host) : Type 0 where
  runs : Shards h → ShardStart h
  returns : ShardStatus → ShardStart h
  breaks : Fault → ShardStart h

-- From the listener on. The recovery in front of it is the one of `main`, with kFatalError where `main`
-- returns 1; `programs` has a list for each of the `nthreads` loops.
abbrev pub start_threads : {h : Host} → Bool → List (List Call) → Start h → ShardStart h
start_threads listens programs (serving s log) =
    if listens then runs (started s programs) else returns fatal_error
start_threads listens programs (exits code) = returns fatal_error
start_threads listens programs (crashed f) = breaks f

unfoldable pub start_shards :
    (h : Host) → Config → Disk → h.Log → Bool → List (List Call) → ShardStart h
unfolding recover
start_shards h cfg d log listens programs =
    start_threads listens programs (recover cfg d (fresh_server h log))

-- what it returns when all threads are joined; each loop has returned kFatalError or not
abbrev pub any_fatal : List Bool → Bool
any_fatal [] = false
any_fatal (b ∷ bs) = b || any_fatal bs

unfoldable pub joined : {h : Host} → List Bool → Shards h → ShardStatus
joined fatals sh =
    if any_fatal fatals || sh.server.persistence_failed then fatal_error else all_stopped

-- what `main` returns then
abbrev pub shard_code : ShardStatus → ℕ
shard_code all_stopped = 0
shard_code fatal_error = 1
shard_code not_implemented = 1

-- What the threads do: their programs, their steps, and whether each loop returned kFatalError.
pub record Threads : Type 0 where
  pub programs : List (List Call)
  pub schedule : List ℕ
  pub fatals : List Bool

abbrev pub joined_code : {h : Host} → List Bool → Result (Shards h) → Outcome
joined_code fatals (ret sh) = returned (shard_code (joined fatals sh))
joined_code fatals (fault f) = faulted f

-- `sharded.start_and_run()`, and what `main` returns then
abbrev pub run_threads : {h : Host} → Threads → ShardStart h → Outcome
run_threads threads (runs sh) = joined_code threads.fatals (run_steps threads.schedule sh)
run_threads threads (returns status) = returned (shard_code status)
run_threads threads (breaks f) = faulted f

-- from the arguments on
abbrev pub run_process : (h : Host) → Disk → h.Log → Network → Threads → Parsed → Outcome
run_process h d log net threads (refused e) = returned 2
run_process h d log net threads (accepted cfg) =
    if ltb 1 cfg.nthreads
    then run_threads threads (start_shards h cfg d log net.listens threads.programs)
    else serve_loop cfg net (recover cfg d (fresh_server h log))

-- `main`, with the arguments behind the program's name
unfoldable pub main : (h : Host) → List Bytes → Disk → h.Log → Network → Threads → Outcome
unfolding parse_args recover serve_loop start_shards joined run_steps
main h args d log net threads = run_process h d log net threads (parse_args args defaults)

-- ===== src/Process/Shards.antt =====
-- The reactor threads over one locked keyspace: `start_and_run` of src/core/shard.cpp. A thread's
-- calls of the handler and of the tick are its input. Between the lock and the unlock a call reads the
-- shared state into a copy, and writes back what it made of the copy, in two steps, so that a step of
-- another thread may stand between them.
pub mod Serial
pub mod Exclusion
pub mod Refines
pub mod Programs
pub mod Total
pub mod Moves
pub mod Progress
use hermitdb.Prelude.{
  ℕ, List, [], ◌∷◌, ◌++◌, Option, none, some, Bytes, Bool, true, false, map, get_elem?, set,
  if◌then◌else◌,
}
use hermitdb.Protocol.Parser.{Command}
use hermitdb.Core.Fault.{Fault, Result, ret, fault}
use hermitdb.Core.Server.{Host, Server, M, ◌>>=◌, pure}
use hermitdb.Process.{on_command, on_tick}

-- What a loop calls under the lock.
pub data Call : Type 0 where
  handle : Command → Call
  tick : Call

-- Where a thread stands in a call: before the lock, behind it, with its copy of the shared state, or
-- behind the write, with the reply if the call has one.
pub data Phase (h : Host) : Type 0 where
  outside entered : Phase h
  loaded : Server h → Phase h
  stored : List Bytes → Phase h

-- A thread: the calls to come, the current one first, and the replies it has got.
pub record Worker (h : Host) : Type 0 where
  pub calls : List Call
  pub phase : Phase h
  pub replies : List Bytes

-- The shared state, the thread that has the lock, the loops' `stop_requested`, and the threads.
pub record Shards (h : Host) : Type 0 where
  pub server : Server h
  pub lock : Option ℕ
  pub stops : List Bool
  pub workers : List (Worker h)

-- `for (auto& l : loops) l->stop();`
abbrev pub stop_all : List Bool → List Bool
stop_all stops = map (λ _. true) stops

module _ {h : Host} where
  -- the body of the lambda: the reply, if there is one, and whether it calls `stop_all()`
  unfoldable pub body : Call → M h (List Bytes × Bool)
  unfolding on_command on_tick
  body (handle cmd) = do (reply, stop) ← on_command cmd; pure (reply ∷ [], stop)
  body tick = do stop ← on_tick; pure ([], stop)

  -- the state when thread `i` stands so
  abbrev pub standing : ℕ → Worker h → Shards h → Shards h
  standing i w sh = record sh { workers = set sh.workers i w }

  -- what the call has made of the copy is written
  abbrev pub written :
      ℕ → Worker h → Shards h → Result ((List Bytes × Bool) × Server h) → Result (Shards h)
  written i w sh (fault f) = fault f
  written i w sh (ret ((reply, stop), s)) = ret (record sh {
    server = s;
    stops = if stop then stop_all sh.stops else sh.stops;
    workers = set sh.workers i (record w { phase = stored reply });
  })

  -- the call is over, with these replies
  abbrev pub over : Worker h → List Call → List Bytes → Worker h
  over w calls reply = record { calls = calls; phase = outside; replies = w.replies ++ reply }

  -- The step of a thread, from the calls and where it stands. A thread that waits for the lock makes
  -- none.
  abbrev pub step_in : ℕ → Worker h → Shards h → List Call → Phase h → Option ℕ → Result (Shards h)
  step_in i w sh [] phase lock = ret sh
  step_in i w sh (c ∷ calls) outside none =
      ret (standing i (record w { phase = entered }) (record sh { lock = some i }))
  step_in i w sh (c ∷ calls) outside (some j) = ret sh
  step_in i w sh (c ∷ calls) entered lock =
      ret (standing i (record w { phase = loaded sh.server }) sh)
  step_in i w sh (c ∷ calls) (loaded s) lock = written i w sh (body c s)
  step_in i w sh (c ∷ calls) (stored reply) lock =
      ret (standing i (over w calls reply) (record sh { lock = none }))

  abbrev pub step_of : ℕ → Shards h → Option (Worker h) → Result (Shards h)
  step_of i sh none = ret sh
  step_of i sh (some w) = step_in i w sh w.calls w.phase sh.lock

  -- a step of thread `i`
  unfoldable pub step : ℕ → Shards h → Result (Shards h)
  unfolding body
  step i sh = step_of i sh (get_elem? sh.workers i)

  abbrev pub and_then : Result (Shards h) → (Shards h → Result (Shards h)) → Result (Shards h)
  and_then (ret sh) f = f sh
  and_then (fault e) f = fault e

  -- the steps of the threads, in the order in which they are scheduled
  unfoldable pub run_steps : List ℕ → Shards h → Result (Shards h)
  unfolding step
  run_steps [] sh = ret sh
  run_steps (i ∷ schedule) sh = and_then (step i sh) (run_steps schedule)

  -- the threads at the start, with what they are going to call
  abbrev pub idle : List Call → Worker h
  idle calls = record { calls = calls; phase = outside; replies = [] }

  -- `loops`, the mutex and the threads, when the loops start to run
  abbrev pub started : Server h → List (List Call) → Shards h
  started s programs = record {
    server = s;
    lock = none;
    stops = map (λ _. false) programs;
    workers = map idle programs;
  }

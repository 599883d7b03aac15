-- ===== src/Process/Shards/Serial.antt =====
-- One thread's calls after another's, each as a whole: what the lock of `start_and_run` of
-- src/core/shard.cpp is for.
use hermitdb.Prelude.{
  ℕ, List, [], ◌∷◌, Option, none, some, Bytes, Bool, map, get_elem?, set, if◌then◌else◌,
}
use hermitdb.Core.Fault.{Result, ret, fault}
use hermitdb.Core.Server.{Host, Server}
use hermitdb.Process.Shards.{
  Call, Phase, outside, entered, loaded, stored, Worker, Shards, stop_all, body, over, and_then,
}

module _ {h : Host} where
  abbrev pub done :
      ℕ
      → Worker h
      → Shards h
      → List Call
      → Result ((List Bytes × Bool) × Server h)
      → Result (Shards h)
  done i w sh calls (fault f) = fault f
  done i w sh calls (ret ((reply, stop), s)) = ret (record sh {
    server = s;
    stops = if stop then stop_all sh.stops else sh.stops;
    workers = set sh.workers i (over w calls reply);
  })

  abbrev pub serve_in : ℕ → Worker h → Shards h → List Call → Result (Shards h)
  serve_in i w sh [] = ret sh
  serve_in i w sh (c ∷ calls) = done i w sh calls (body c sh.server)

  abbrev pub serve_of : ℕ → Shards h → Option (Worker h) → Result (Shards h)
  serve_of i sh none = ret sh
  serve_of i sh (some w) = serve_in i w sh w.calls

  -- the next call of thread `i`, as a whole
  unfoldable pub serve : ℕ → Shards h → Result (Shards h)
  serve i sh = serve_of i sh (get_elem? sh.workers i)

  unfoldable pub serve_all : List ℕ → Shards h → Result (Shards h)
  unfolding serve
  serve_all [] sh = ret sh
  serve_all (i ∷ order) sh = and_then (serve i sh) (serve_all order)

  -- A thread behind its write has its reply, and a thread before it has not begun.
  abbrev pub settle_in : Worker h → List Call → Phase h → Worker h
  settle_in w [] phase = record w { phase = outside }
  settle_in w (c ∷ calls) (stored reply) = over w calls reply
  settle_in w (c ∷ calls) outside = record w { phase = outside }
  settle_in w (c ∷ calls) entered = record w { phase = outside }
  settle_in w (c ∷ calls) (loaded s) = record w { phase = outside }

  abbrev pub settle : Worker h → Worker h
  settle w = settle_in w w.calls w.phase

  -- the state as it is seen without the call that a thread stands in
  abbrev pub settled : Shards h → Shards h
  settled sh = record sh { lock = none; workers = map settle sh.workers }

  abbrev pub settled_result : Result (Shards h) → Result (Shards h)
  settled_result (ret sh) = ret (settled sh)
  settled_result (fault f) = fault f

-- ===== src/Net/Reactor.antt =====
-- The reactor's loop and its ticks: `run` and `run_due_ticks` of src/net/event_loop.cpp. The readings
-- of the steady clock are input, and their sums with the intervals are in the range of `int64_t`.
pub mod Ticks
use hermitdb.Prelude.{
  ℕ, zero, suc, ◌+◌, ◌*◌, List, [], ◌∷◌, Bool, true, false, not, ltb, ◌==◌, ◌||◌, ◌&&◌,
  if◌then◌else◌, length,
}
use hermitdb.Prelude.Int.{ℤ, pos, ◌+ℤ◌, ◌-ℤ◌, ltb_ℤ, leb_ℤ}
use hermitdb.Net.Connection.{Handler, Loop, input}
use hermitdb.Net.Table.{put}
use hermitdb.Net.EventLoop.{Limits, Event, run_batch}

-- A tick's callback: whether it calls `stop()`, and what it changes.
pub record Tick (S : Type 0) : Type 0 where
  pub stops : S → Bool
  pub next : S → S
  pub interval_ms : ℤ
  pub next_due_ms : ℤ

-- kMaxLoopTimeoutMs
abbrev pub max_loop_timeout_ms : ℤ
max_loop_timeout_ms = pos 100

-- std::min and std::clamp
abbrev pub min_ℤ : ℤ → ℤ → ℤ
min_ℤ a b = if ltb_ℤ b a then b else a

abbrev pub clamp_ℤ : ℤ → ℤ → ℤ → ℤ
clamp_ℤ v lo hi = if ltb_ℤ v lo then lo else if ltb_ℤ hi v then hi else v

module _ {S : Type 0} where
  abbrev pub is_due : ℤ → Tick S → Bool
  is_due now t = leb_ℤ t.next_due_ms now

  abbrev pub rescheduled : ℤ → Tick S → Tick S
  rescheduled now t = if is_due now t then record t { next_due_ms = now +ℤ t.interval_ms } else t

  abbrev pub fired : ℤ → Tick S → Loop S → Loop S
  fired now t l =
      if is_due now t
      then record l { stop_requested = l.stop_requested || t.stops l.app; app = t.next l.app }
      else l

  -- the loop of `run_due_ticks`: the ticks, the next deadline, and the loop's state
  unfoldable pub fire_due : ℤ → List (Tick S) → ℤ → Loop S → List (Tick S) × ℤ × Loop S
  unfolding ◌+ℤ◌
  fire_due now [] next_due l = ([], next_due, l)
  fire_due now (t ∷ ts) next_due l =
      let t' = rescheduled now t in
      let (ts', next_due', l') = fire_due now ts (min_ℤ next_due t'.next_due_ms) (fired now t l) in
      (t' ∷ ts', next_due', l')

  unfoldable pub run_due_ticks : ℤ → List (Tick S) → Loop S → List (Tick S) × ℤ × Loop S
  unfolding fire_due
  run_due_ticks now ts l = fire_due now ts (now +ℤ max_loop_timeout_ms) l

  unfoldable pub earliest : ℤ → List (Tick S) → ℤ
  earliest next_due [] = next_due
  earliest next_due (t ∷ ts) = earliest (min_ℤ next_due t.next_due_ms) ts

  -- the timeout of `::epoll_wait`
  unfoldable pub timeout_of : ℤ → List (Tick S) → ℤ
  unfolding earliest ◌+ℤ◌ ◌-ℤ◌
  timeout_of now ts =
      clamp_ℤ (earliest (now +ℤ max_loop_timeout_ms) ts -ℤ now) (pos 0) max_loop_timeout_ms

-- What `::epoll_wait` returns: events, or -1 with EINTR or another error.
pub data Wait : Type 0 where
  events : List Event → Wait
  interrupted failed : Wait

-- One pass of the loop: what the wait returns, and the clock's reading behind the events.
pub record Turn : Type 0 where
  pub wait : Wait
  pub now_ms : ℤ

-- How the loop stands when the passes are used up, or how it ended.
pub data RunState (S : Type 0) : Type 0 where
  waiting : List (Tick S) → ℕ → Loop S → RunState S
  stopped : Loop S → RunState S
  fatal : RunState S

-- the number of events that one wait may return
abbrev pub grown : ℕ → ℕ → ℕ
grown capacity n = if n == capacity && ltb capacity 4096 then capacity * 2 else capacity

-- behind the loop: `conns_.clear(); interest_.clear();`
abbrev pub cleared : {S : Type 0} → Loop S → Loop S
cleared l = record l { conns = []; interest = [] }

module _ {S : Type 0} (h : Handler S) (m : Limits) where
  -- a pass whose wait returned events
  unfoldable pub turn : List Event → ℤ → List (Tick S) → Loop S → List (Tick S) × ℤ × Loop S
  unfolding run_batch run_due_ticks
  turn evs now ts l = run_due_ticks now ts (run_batch h m evs l)

  unfoldable pub run_loop : List Turn → List (Tick S) → ℕ → Loop S → RunState S
  unfolding turn
  run_loop [] ts capacity l =
      if l.stop_requested then stopped (cleared l) else waiting ts capacity l
  run_loop (t ∷ turns) ts capacity l = elim l.stop_requested [
    | true ↦ stopped (cleared l)
    | false ↦ elim t.wait [
      | failed ↦ fatal
      | interrupted ↦ run_loop turns ts capacity l
      | events evs ↦
          let (ts', next_due, l') = turn evs t.now_ms ts l in
          run_loop turns ts' (grown capacity (length evs)) l'
    ]
  ]

  -- the ticks with their first deadlines
  unfoldable pub armed_ticks : ℤ → List (Tick S) → List (Tick S)
  unfolding ◌+ℤ◌
  armed_ticks start [] = []
  armed_ticks start (t ∷ ts) =
      record t { next_due_ms = start +ℤ t.interval_ms } ∷ armed_ticks start ts

  -- `creates` and `registers` say whether `::epoll_create1` and `::epoll_ctl` succeed.
  unfoldable pub run : Bool → Bool → ℤ → List Turn → List (Tick S) → Loop S → RunState S
  unfolding run_loop armed_ticks
  run creates registers start turns ts l =
      if not creates || not registers
      then fatal
      else run_loop turns (armed_ticks start ts) 256
          (record l { interest = put m.listener input l.interest })

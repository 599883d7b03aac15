-- ===== src/Net/EventLoop/Registered.antt =====
-- The connections and what the loop waits for: src/net/event_loop.cpp.
use hermitdb.Prelude.{
  ℕ, ◌+◌, ◌≤◌, ◌≡◌, inl, inr, List, [], none, some, length, Bool, false, leb, ◌==◌, arith,
  Bool-cases,
}
use hermitdb.Net.Table.{
  Table, find, put, erase, find-put, find-erase, length-put, length-put_new, length-erase, present,
}
use hermitdb.Net.Connection.{
  Connection, Interest, input, Handler, Loop, close_connection, modify_fd,
}
use hermitdb.Net.EventLoop.Keeps.{Keeps, AllApart, dispatch_all-keeps}
use hermitdb.Net.Connection.Flush.{modify-same, modify-cases}
use hermitdb.Net.EventLoop.{Limits, Event, admit, fresh_connection, run_batch}

-- The loop waits for a descriptor besides the listener's exactly if it has its connection, no
-- connection has the listener's, and there are at most `max_clients`.
pub record IsRegistered (m : Limits) (conns : Table Connection) (interest : Table Interest)
    : Type 0 where
  pub agree :
      (fd : ℕ) → (fd == m.listener) ≡ false → present (find fd conns) ≡ present (find fd interest)
  pub own : find m.listener conns ≡ none
  pub few : length conns ≤ m.max_clients

module _ {m : Limits} {conns : Table Connection} {interest : Table Interest}
    (r : IsRegistered m conns interest) (fd : ℕ) where
  erase-IsRegistered : IsRegistered m (erase fd conns) (erase fd interest)
  erase-IsRegistered = record {
    agree = λ j h. ground (arith, find-erase fd j conns, find-erase fd j interest, r.agree j h);
    own = ground (arith, find-erase fd m.listener conns, r.own);
    few = omega (arith, length-erase fd conns, r.few);
  }

  put-IsRegistered :
      (c old : Connection) → find fd conns ≡ some old → IsRegistered m (put fd c conns) interest
  put-IsRegistered c old h = record {
    agree = λ j k. ground (arith, find-put fd j c conns, r.agree j k);
    own = ground (arith, find-put fd m.listener c conns, r.own);
    few = omega (arith, length-put fd c old conns h, r.few);
  }

  waiting-IsRegistered :
      (ev : Interest) (old : Connection)
      → find fd conns ≡ some old
      → IsRegistered m conns (put fd ev interest)
  waiting-IsRegistered ev old h = record {
    agree = λ j k. ground (arith, find-put fd j ev interest, r.agree j k);
    own = r.own;
    few = r.few;
  }

  admitted-IsRegistered :
      (c : Connection) (ev : Interest)
      → (fd == m.listener) ≡ false
      → length conns + 1 ≤ m.max_clients
      → IsRegistered m (put fd c conns) (put fd ev interest)
  admitted-IsRegistered c ev apart room = record {
    agree = λ j k. ground (arith, find-put fd j c conns, find-put fd j ev interest, r.agree j k);
    own = ground (arith, find-put fd m.listener c conns, r.own);
    few = omega (arith, length-put_new fd c conns);
  }

-- the loop's tables
abbrev pub Registered : Limits → {S : Type 0} → Loop S → Type 0
Registered m l = IsRegistered m l.conns l.interest

module _ {S : Type 0} (h : Handler S) (m : Limits) where
  close-Registered : (fd : ℕ) (l : Loop S) → Registered m l → Registered m (close_connection fd l)
  unfolding close_connection
  close-Registered fd l r = erase-IsRegistered r fd

  modify-Registered :
      (fd : ℕ) (ev : Interest) (k : Bool) (c : Connection) (l : Loop S)
      → Registered m l
      → find fd l.conns ≡ some c
      → Registered m (modify_fd fd ev k l)
  modify-Registered fd ev k c l r here =
      let conns = (modify-same fd ev k l).0 in
      elim (modify-cases fd ev k l) [
        | inl same ↦ rw (conns, same) r
        | inr changed ↦ rw (conns, changed) (waiting-IsRegistered r fd ev c here)
      ]

  rearmed-Registered :
      (fd : ℕ) (conn c : Connection) (ev : Interest) (k : Bool) (l : Loop S)
      → Registered m l
      → find fd l.conns ≡ some c
      → Registered m (modify_fd fd ev k (record l { conns = put fd conn l.conns }))
  rearmed-Registered fd conn c ev k l r here =
      modify-Registered fd ev k conn (record l { conns = put fd conn l.conns })
        (put-IsRegistered r fd conn c here) (ground (arith, find-put fd fd conn l.conns))

  pub admit-Registered :
      (fd : ℕ) (registers : Bool) (l : Loop S)
      → (fd == m.listener) ≡ false
      → Registered m l
      → Registered m (admit h m fd registers l)
  unfolding admit
  admit-Registered fd registers l apart r = elim (Bool-cases (leb m.max_clients (length l.conns))) [
    | inl full_up ↦ rw full_up r
    | inr room ↦ elim (Bool-cases registers) [
      | inl e ↦
          rw (room, e) (admitted-IsRegistered r fd fresh_connection input apart (ground arith))
      | inr e ↦ rw (room, e) r
    ]
  ]

  Registered-keeps : Keeps h m (λ l. Registered m l)
  Registered-keeps = record {
    closing = close-Registered;
    rearming = rearmed-Registered;
    noting = λ l wire stop app r. r;
    admitting = admit-Registered;
  }

  -- A batch of events keeps the agreement of the connections and of what the loop waits for, and the
  -- limit on the number of clients, if the kernel hands out no descriptor that is the listener's.
  pub run_batch-Registered :
      (evs : List Event) (l : Loop S)
      → AllApart m evs
      → Registered m l
      → Registered m (run_batch h m evs l)
  unfolding run_batch
  run_batch-Registered evs l apart r =
      dispatch_all-keeps Registered-keeps evs (record l { closed_this_batch = [] }) apart r

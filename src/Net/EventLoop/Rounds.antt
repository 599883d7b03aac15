-- ===== src/Net/EventLoop/Rounds.antt =====
-- One round of the loop of `handle_readable`, and the replies to the commands of a chunk.
use hermitdb.Prelude.{
  ℕ, ◌+◌, ◌≡◌, refl, ap, sym, ◌∙◌, List, [], ◌∷◌, ◌++◌, Bytes, length, Bool, true, false, ltb, leb,
  ◌||◌, append_assoc,
}
use hermitdb.Protocol.Parser.{Command, Parser, ready, failed, feed}
use hermitdb.Net.Connection.{
  Connection, Handler, RecvReturn, got, interrupted, read_chunk, max_read_per_event,
}
use hermitdb.Net.EventLoop.{run_commands, to_flush, read_loop, rejected, replied}

module _ {S : Type 0} (h : Handler S) where
  -- the replies to commands that are executed once each and in order
  abbrev pub replies_of : List Command → S → Bytes
  replies_of [] s = []
  replies_of (c ∷ cs) s = h.reply c s ++ replies_of cs (h.next c s)

  abbrev pub state_after : List Command → S → S
  state_after [] s = s
  state_after (c ∷ cs) s = state_after cs (h.next c s)

  -- whether one of them stops the server, or it was to stop
  abbrev pub stops_of : List Command → S → Bool → Bool
  stops_of [] s stop = stop
  stops_of (c ∷ cs) s stop = stops_of cs (h.next c s) (stop || h.stops c s)

  run_commands_lem :
      (cs : List Command) (s : S) (stop : Bool)
      → run_commands h cs s stop ≡ (replies_of cs s, stops_of cs s stop, state_after cs s)
  unfolding run_commands
  run_commands_lem [] s stop = refl
  run_commands_lem (c ∷ cs) s stop =
      ap (λ r. (h.reply c s ++ r.0, r.1, r.2))
        (run_commands_lem cs (h.next c s) (stop || h.stops c s))

  pub replies_of-append :
      (cs ds : List Command) (s : S)
      → replies_of (cs ++ ds) s ≡ replies_of cs s ++ replies_of ds (state_after cs s)
  replies_of-append [] ds s = refl
  replies_of-append (c ∷ cs) ds s =
      ap (λ r. h.reply c s ++ r) (replies_of-append cs ds (h.next c s))
      ∙ sym (
          append_assoc (h.reply c s) (replies_of cs (h.next c s))
            (replies_of ds (state_after cs (h.next c s))))

  pub state_after-append :
      (cs ds : List Command) (s : S) → state_after (cs ++ ds) s ≡ state_after ds (state_after cs s)
  state_after-append [] ds s = refl
  state_after-append (c ∷ cs) ds s = state_after-append cs ds (h.next c s)

  pub stops_of-append :
      (cs ds : List Command) (s : S) (stop : Bool)
      → stops_of (cs ++ ds) s stop ≡ stops_of ds (state_after cs s) (stops_of cs s stop)
  stops_of-append [] ds s stop = refl
  stops_of-append (c ∷ cs) ds s stop = stops_of-append cs ds (h.next c s) (stop || h.stops c s)

  module _ (max_frame : ℕ) where
    -- whether the loop ends behind a chunk that was accepted
    abbrev pub enough : ℕ → Bytes → Bool → Bool
    enough total chunk stop =
        stop || ltb (length chunk) read_chunk || leb max_read_per_event (total + length chunk)

    module _ (c : ℕ) (b : Bytes) (recvs : List RecvReturn) (total : ℕ) (conn : Connection)
        (stop : Bool) (s : S) where
      pub read-failed :
          {e : Bytes}
          → feed max_frame conn.parser (c ∷ b) ≡ failed e
          → read_loop h max_frame (got c b ∷ recvs) total conn stop s
            ≡ to_flush (rejected h max_frame conn (c ∷ b) e) stop s
      unfolding read_loop
      read-failed e = rw (e, read_loop)

      pub read-enough :
          {p : Parser} {cs : List Command}
          → feed max_frame conn.parser (c ∷ b) ≡ ready p cs
          → enough total (c ∷ b) (stops_of cs s stop) ≡ true
          → read_loop h max_frame (got c b ∷ recvs) total conn stop s
            ≡ to_flush
                (replied h max_frame conn p (replies_of cs s))
                (stops_of cs s stop)
                (state_after cs s)
      unfolding read_loop
      read-enough {p = p} {cs = cs} e done =
          let ran = run_commands_lem cs s stop in
          let done' : enough total (c ∷ b) (run_commands h cs s stop).1 ≡ true = rw ran done in
          rw (e, read_loop)
            (rw (done', read_loop)
              (ap (λ r. to_flush (replied h max_frame conn p r.0) r.1 r.2) ran))

      pub read-more :
          {p : Parser} {cs : List Command}
          → feed max_frame conn.parser (c ∷ b) ≡ ready p cs
          → enough total (c ∷ b) (stops_of cs s stop) ≡ false
          → read_loop h max_frame (got c b ∷ recvs) total conn stop s
            ≡ read_loop h max_frame recvs
                (total + length (c ∷ b))
                (replied h max_frame conn p (replies_of cs s))
                (stops_of cs s stop)
                (state_after cs s)
      unfolding read_loop
      read-more {p = p} {cs = cs} e open_still =
          let ran = run_commands_lem cs s stop in
          let more : enough total (c ∷ b) (run_commands h cs s stop).1 ≡ false =
            rw ran open_still in
          rw (e, read_loop)
            (rw (more, read_loop)
              (ap
                (λ r.
                  read_loop h max_frame recvs (total + length (c ∷ b))
                    (replied h max_frame conn p r.0) r.1 r.2)
                ran))

    pub read-interrupted :
        (recvs : List RecvReturn) (total : ℕ) (conn : Connection) (stop : Bool) (s : S)
        → read_loop h max_frame (interrupted ∷ recvs) total conn stop s
          ≡ read_loop h max_frame recvs total conn stop s
    unfolding read_loop
    read-interrupted recvs total conn stop s = refl

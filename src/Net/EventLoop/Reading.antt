-- ===== src/Net/EventLoop/Reading.antt =====
-- What `handle_readable` executes and queues: the commands that the parser finds in what was received.
use hermitdb.Prelude.{
  ℕ, ◌+◌, ◌≡◌, ◌⊎◌, inl, inr, refl, ap, sym, ◌∙◌, List, [], ◌∷◌, ◌++◌, Bytes, length, Bool, true,
  false, append-nil, Bool-cases, ◌<◌, ◌≤◌, arith,
}
use hermitdb.Protocol.Parser.{Command, Parser, Outcome, ready, failed, out_of_fuel, feed}
use hermitdb.Protocol.Parser.Runs.{prepend_all}
use hermitdb.Protocol.Parser.Chunks.{
  feed_all, feed_all-ready, feed-ne-out_of_fuel, prepend_all-ready,
}
use hermitdb.Net.Connection.{
  Connection, Handler, RecvReturn, got, shut, interrupted, again, broken, read_chunk,
  max_read_per_event,
}
use hermitdb.Protocol.Writer
use hermitdb.Net.EventLoop.{error_text, ReadEnd, to_flush, gone, read_loop, replied, rejected}
use hermitdb.Net.EventLoop.Rounds.{
  replies_of, stops_of, state_after, replies_of-append, stops_of-append, state_after-append, enough,
  read-failed, read-enough, read-more, read-interrupted,
}
use hermitdb.Net.EventLoop.Endings.{chunks_of, GoesOn, Ended, Ended-later, Ended-interrupted}

Outcome-cases :
    (o : Outcome)
    → ((p : Parser) × (cs : List Command) × (o ≡ ready p cs))
      ⊎ ((m : Bytes) × (o ≡ failed m))
      ⊎ (o ≡ out_of_fuel)
Outcome-cases (ready p cs) = inl (p, cs, refl)
Outcome-cases (failed m) = inr (inl (m, refl))
Outcome-cases out_of_fuel = inr (inr refl)

module _ {S : Type 0} (h : Handler S) where
  module _ (max_frame : ℕ) where
    -- what is said of a loop's end
    abbrev pub Read : List RecvReturn → ℕ → Connection → Bool → S → ReadEnd S → Type 0
    Read recvs total conn stop s end =
        (taken rest : List RecvReturn) × (p : Parser) × (cs : List Command) × (taken ++ rest
          ≡ recvs)
        × GoesOn taken
        × (feed_all max_frame conn.parser (chunks_of taken) ≡ ready p cs)
        × Ended h max_frame taken rest total conn p (replies_of h cs s) (stops_of h cs s stop)
            (state_after h cs s) end

    -- the reasons to end behind a chunk that was accepted
    enough-cases :
        (total c : ℕ) (b : Bytes) (stop : Bool)
        → enough h max_frame total (c ∷ b) stop ≡ true
        → (stop ≡ true)
          ⊎ (length (c ∷ b) < read_chunk)
          ⊎ (max_read_per_event ≤ total + (length (c ∷ b) + 0))
    enough-cases total c b true e = inl refl
    enough-cases total c b false e = inr (ground arith)

    untouched : (conn : Connection) → conn ≡ record conn { outbuf = conn.outbuf ++ [] }
    untouched conn = ap (λ o. record conn { outbuf = o }) (sym (append-nil conn.outbuf))

    -- an end that is reached before anything is taken
    Read-now :
        (recvs : List RecvReturn) (total : ℕ) (conn : Connection) (stop : Bool) (s : S)
        (end : ReadEnd S)
        → Ended h max_frame [] recvs total conn conn.parser [] stop s end
        → Read recvs total conn stop s end
    unfolding feed_all
    Read-now recvs total conn stop s end k = ([], recvs, conn.parser, [], refl, tt, refl, k)

    module _ (c : ℕ) (b : Bytes) (recvs : List RecvReturn) (total : ℕ) (conn : Connection)
        (stop : Bool) (s : S) (p : Parser) (cs : List Command)
        (accepts : feed max_frame conn.parser (c ∷ b) ≡ ready p cs) where
      -- the end behind a chunk that is the last one of the event
      Read-last :
          enough h max_frame total (c ∷ b) (stops_of h cs s stop) ≡ true
          → Read (got c b ∷ recvs) total conn stop s (
              to_flush
                (replied h max_frame conn p (replies_of h cs s))
                (stops_of h cs s stop)
                (state_after h cs s))
      unfolding feed_all
      Read-last done = (
        got c b ∷ [],
        recvs,
        p,
        cs,
        refl,
        tt,
        feed_all-ready max_frame conn.parser (c ∷ b) [] accepts
            ∙ prepend_all-ready cs [] p
            ∙ ap (ready p) (append-nil cs),
        (
          refl,
          refl,
          inl (
            refl,
            inr (inr ([], c, b, refl, enough-cases total c b (stops_of h cs s stop) done)),
          ),
        ),
      )

      Read-later :
          (end : ReadEnd S)
          → Read recvs
              (total + length (c ∷ b))
              (replied h max_frame conn p (replies_of h cs s))
              (stops_of h cs s stop)
              (state_after h cs s)
              end
          → Read (got c b ∷ recvs) total conn stop s end
      Read-later end (taken, rest, q, ds, split, goes, fed, ended) = (
        got c b ∷ taken,
        rest,
        q,
        cs ++ ds,
        ap (λ l. got c b ∷ l) split,
        goes,
        feed_all-ready max_frame conn.parser (c ∷ b) (chunks_of taken) accepts
            ∙ ap (prepend_all cs) fed
            ∙ prepend_all-ready cs ds q,
        rw
            (
              replies_of-append h cs ds s,
              stops_of-append h cs ds s stop,
              state_after-append h cs ds s,
            )
            (Ended-later h max_frame taken rest total c b conn p q (replies_of h cs s)
              (replies_of h ds (state_after h cs s))
              (stops_of h ds (state_after h cs s) (stops_of h cs s stop))
              (state_after h ds (state_after h cs s)) end ended),
      )

    Read-interrupted :
        (recvs : List RecvReturn) (total : ℕ) (conn : Connection) (stop : Bool) (s : S)
        (end : ReadEnd S)
        → Read recvs total conn stop s end
        → Read (interrupted ∷ recvs) total conn stop s end
    Read-interrupted recvs total conn stop s end (taken, rest, p, cs, split, goes, fed, ended) = (
      interrupted ∷ taken,
      rest,
      p,
      cs,
      ap (λ l. interrupted ∷ l) split,
      goes,
      fed,
      Ended-interrupted h max_frame taken rest total conn p (replies_of h cs s)
          (stops_of h cs s stop) (state_after h cs s) end ended,
    )

    -- The loop over `::recv` takes some first answers, chunks and interrupted calls. The commands that
    -- the parser finds in those chunks are executed once each and in order, and nothing else is. The
    -- loop closes the connection if the next answer is the end of the stream or an error, and else
    -- ends by a break. Then the replies are queued, in order, behind what was queued, and nothing is
    -- left, or the last chunk taken holds fewer bytes than asked for, or reaches the limit of an event,
    -- or the server is to stop; or the next answer is a chunk with a protocol error, which is queued
    -- behind the replies, and the connection is to be closed.
    pub read_loop_lem :
        (recvs : List RecvReturn) (total : ℕ) (conn : Connection) (stop : Bool) (s : S)
        → Read recvs total conn stop s (read_loop h max_frame recvs total conn stop s)
    read_loop_lem [] total conn stop s =
        unfold read_loop in
        Read-now [] total conn stop s (to_flush conn stop s)
          (refl, refl, inl (untouched conn, inl refl))
    read_loop_lem (shut ∷ recvs) total conn stop s =
        unfold read_loop in
        Read-now (shut ∷ recvs) total conn stop s (gone stop s) (refl, refl, (recvs, inl refl))
    read_loop_lem (interrupted ∷ recvs) total conn stop s =
        rw (read-interrupted h max_frame recvs total conn stop s)
          (Read-interrupted recvs total conn stop s _ (read_loop_lem recvs total conn stop s))
    read_loop_lem (again ∷ recvs) total conn stop s =
        unfold read_loop in
        Read-now (again ∷ recvs) total conn stop s (to_flush conn stop s)
          (refl, refl, inl (untouched conn, inr (inl (recvs, refl))))
    read_loop_lem (broken ∷ recvs) total conn stop s =
        unfold read_loop in
        Read-now (broken ∷ recvs) total conn stop s (gone stop s) (refl, refl, (recvs, inr refl))
    read_loop_lem (got c b ∷ recvs) total conn stop s =
        elim (Outcome-cases (feed max_frame conn.parser (c ∷ b))) [
          | inl (p, cs, e) ↦
              elim (Bool-cases (enough h max_frame total (c ∷ b) (stops_of h cs s stop))) [
                | inl done ↦
                    rw (read-enough h max_frame c b recvs total conn stop s e done)
                      (Read-last c b recvs total conn stop s p cs e done)
                | inr open_still ↦
                    rw (read-more h max_frame c b recvs total conn stop s e open_still) (
                      Read-later c b recvs total conn stop s p cs e _ (
                        read_loop_lem recvs (total + length (c ∷ b))
                          (replied h max_frame conn p (replies_of h cs s)) (stops_of h cs s stop)
                          (state_after h cs s)))
              ]
          | inr (inl (m, e)) ↦
              let queued =
                ap (λ o. o ++ Writer.error (error_text m)) (sym (append-nil conn.outbuf)) in
              rw (read-failed h max_frame c b recvs total conn stop s e) (
                Read-now (got c b ∷ recvs) total conn stop s
                  (to_flush (rejected h max_frame conn (c ∷ b) m) stop s)
                  (refl, refl, inr (c, b, recvs, m, refl, e, queued, refl)))
          | inr (inr e) ↦ absurd (feed-ne-out_of_fuel max_frame conn.parser (c ∷ b) e)
        ]

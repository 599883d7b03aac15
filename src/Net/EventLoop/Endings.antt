-- ===== src/Net/EventLoop/Endings.antt =====
-- How the loop of `handle_readable` ends, and why.
use hermitdb.Prelude.{
  ℕ, ◌+◌, ◌≡◌, ◌⊎◌, inl, inr, ap, ◌∙◌, List, [], ◌∷◌, ◌++◌, Bytes, length, Bool, true, append_assoc,
  ◌<◌, ◌≤◌, arith,
}
use hermitdb.Protocol.Parser.{Parser, failed, feed}
use hermitdb.Net.Connection.{
  Connection, Handler, RecvReturn, got, shut, interrupted, again, broken, read_chunk,
  max_read_per_event,
}
use hermitdb.Protocol.Writer
use hermitdb.Net.EventLoop.{error_text, ReadEnd, to_flush, gone, replied}

-- The chunks that the calls of `::recv` deliver.
abbrev pub chunks_of : List RecvReturn → List Bytes
chunks_of [] = []
chunks_of (got c b ∷ recvs) = (c ∷ b) ∷ chunks_of recvs
chunks_of (_ ∷ recvs) = chunks_of recvs

-- the number of bytes in them
abbrev pub received : List RecvReturn → ℕ
received [] = 0
received (got c b ∷ recvs) = length (c ∷ b) + received recvs
received (_ ∷ recvs) = received recvs

-- Only chunks and interrupted calls, behind which the loop goes on.
abbrev pub GoesOn : List RecvReturn → Type 0
GoesOn [] = Unit
GoesOn (got _ _ ∷ recvs) = GoesOn recvs
GoesOn (interrupted ∷ recvs) = GoesOn recvs
GoesOn (_ ∷ _) = ⊥

module _ {S : Type 0} (h : Handler S) where
  module _ (max_frame : ℕ) where
    -- What the loop meets behind the answers that it took, with the parser and the replies then.
    module _ (taken rest : List RecvReturn) (total : ℕ) where
      -- nothing is there, or the last chunk of those taken ends the event
      abbrev pub Pause : Bool → Type 0
      Pause stop =
          (rest ≡ [])
          ⊎ ((more : List RecvReturn) × (rest ≡ again ∷ more))
          ⊎ ((before : List RecvReturn) × (c : ℕ) × (b : Bytes) × (taken ≡ before ++ got c b ∷ [])
              × ((stop ≡ true)
                  ⊎ (length (c ∷ b) < read_chunk)
                  ⊎ (max_read_per_event ≤ total + received taken)))

      -- a chunk in which the parser finds a protocol error, which is queued
      abbrev pub Refusal : Connection → Parser → Bytes → Connection → Type 0
      Refusal conn p out c =
          (b : ℕ) × (bs : Bytes) × (more : List RecvReturn) × (e : Bytes) × (rest ≡ got b bs ∷ more)
          × (feed max_frame p (b ∷ bs) ≡ failed e)
          × (c.outbuf ≡ (conn.outbuf ++ out) ++ Writer.error (error_text e))
          × (c.close_after_flush ≡ true)

      -- how the loop ends after replies, and why
      abbrev pub Ended : Connection → Parser → Bytes → Bool → S → ReadEnd S → Type 0
      Ended conn p out stop s (to_flush c stop' s') =
          (stop' ≡ stop)
          × (s' ≡ s)
          × (((c ≡ record conn { parser = p; outbuf = conn.outbuf ++ out }) × Pause stop)
              ⊎ Refusal conn p out c)
      Ended conn p out stop s (gone stop' s') =
          (stop' ≡ stop)
          × (s' ≡ s)
          × ((more : List RecvReturn) × ((rest ≡ shut ∷ more) ⊎ (rest ≡ broken ∷ more)))

    Pause-later :
        (taken rest : List RecvReturn) (total c : ℕ) (b : Bytes) (stop : Bool)
        → Pause taken rest (total + length (c ∷ b)) stop
        → Pause (got c b ∷ taken) rest total stop
    Pause-later taken rest total c b stop (inl e) = inl e
    Pause-later taken rest total c b stop (inr (inl e)) = inr (inl e)
    Pause-later taken rest total c b stop (inr (inr (before, d, ds, e, inl stops))) =
        inr (inr (got c b ∷ before, d, ds, ap (λ l. got c b ∷ l) e, inl stops))
    Pause-later taken rest total c b stop (inr (inr (before, d, ds, e, inr (inl short)))) =
        inr (inr (got c b ∷ before, d, ds, ap (λ l. got c b ∷ l) e, inr (inl short)))
    Pause-later taken rest total c b stop (inr (inr (before, d, ds, e, inr (inr full)))) =
        inr (inr (got c b ∷ before, d, ds, ap (λ l. got c b ∷ l) e, inr (inr (omega arith))))

    Pause-interrupted :
        (taken rest : List RecvReturn) (total : ℕ) (stop : Bool)
        → Pause taken rest total stop
        → Pause (interrupted ∷ taken) rest total stop
    Pause-interrupted taken rest total stop (inl e) = inl e
    Pause-interrupted taken rest total stop (inr (inl e)) = inr (inl e)
    Pause-interrupted taken rest total stop (inr (inr (before, d, ds, e, why))) =
        inr (inr (interrupted ∷ before, d, ds, ap (λ l. interrupted ∷ l) e, why))

    pub Ended-later :
        (taken rest : List RecvReturn) (total c : ℕ) (b : Bytes) (conn : Connection) (p q : Parser)
        (out more : Bytes) (stop : Bool) (s : S) (end : ReadEnd S)
        → Ended taken rest
            (total + length (c ∷ b))
            (replied h max_frame conn p out)
            q
            more
            stop
            s
            end
        → Ended (got c b ∷ taken) rest total conn q (out ++ more) stop s end
    Ended-later taken rest total c b conn p q out more stop s (to_flush d stop' s')
          (u, v, inl (same, why)) =
        (
          u,
          v,
          inl (
            same
                ∙ ap (λ o. record conn { parser = q; outbuf = o })
                    (append_assoc conn.outbuf out more),
            Pause-later taken rest total c b stop why,
          ),
        )
    Ended-later taken rest total c b conn p q out more stop s (to_flush d stop' s')
          (u, v, inr (a, bs, later, e, next, bad, queued, closing)) =
        (
          u,
          v,
          inr (
            a,
            bs,
            later,
            e,
            next,
            bad,
            queued ∙ ap (λ o. o ++ Writer.error (error_text e)) (append_assoc conn.outbuf out more),
            closing,
          ),
        )
    Ended-later taken rest total c b conn p q out more stop s (gone stop' s') k = k

    pub Ended-interrupted :
        (taken rest : List RecvReturn) (total : ℕ) (conn : Connection) (p : Parser) (out : Bytes)
        (stop : Bool) (s : S) (end : ReadEnd S)
        → Ended taken rest total conn p out stop s end
        → Ended (interrupted ∷ taken) rest total conn p out stop s end
    Ended-interrupted taken rest total conn p out stop s (to_flush d stop' s')
          (u, v, inl (same, why)) =
        (u, v, inl (same, Pause-interrupted taken rest total stop why))
    Ended-interrupted taken rest total conn p out stop s (to_flush d stop' s') (u, v, inr k) =
        (u, v, inr k)
    Ended-interrupted taken rest total conn p out stop s (gone stop' s') k = k

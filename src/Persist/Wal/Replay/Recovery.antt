-- ===== src/Persist/Wal/Replay/Recovery.antt =====
-- What a recovery does with a log, whole or cut off at any byte.
use hermitdb.Prelude.{
  ℕ, suc, ◌+◌, ◌≤◌, ◌≡◌, refl, sym, ◌∙◌, List, [], ◌∷◌, ◌++◌, Bytes, length, true, ltb, arith, ap,
  length-append, append_assoc, append-nil, take-length-append, Bool-cases, inl, inr,
}
use hermitdb.Protocol.Parser.{
  Command, Parser, initial, Outcome, ready, feed, extend, measure, size_checked,
}
use hermitdb.Protocol.Parser.Runs.{prepend_all}
use hermitdb.Protocol.Parser.Chunks.{
  prepend_all-ready, feed-run, feed-split, feed-initial-nil, size_checked_ready,
}
use hermitdb.Protocol.Parser.Frames.{idle, drain, drain-wait, round-idle-nil}
use hermitdb.Persist.Encoding.{encode, encode_all, AllFit}
use hermitdb.Persist.Encoding.Whole.{drain-encode_all}
use hermitdb.Persist.Encoding.Torn.{Waits, Waits-encode, IsTail, cut_log}
use hermitdb.Persist.Wal.{ok}
use hermitdb.Persist.Wal.Replay.{
  opened, ReadReturn, chunk, interrupted, broken, replay_frame_cap, at_end, size_of, apply_all,
  read_loop, finish, replay,
}

-- The chunks that were read, one behind the other.
abbrev pub data_of : List ReadReturn → Bytes
data_of [] = []
data_of (chunk b ∷ reads) = b ++ data_of reads
data_of (_ ∷ reads) = data_of reads

-- No read failed for good.
abbrev pub NoneBroken : List ReadReturn → Type 0
NoneBroken [] = Unit
NoneBroken (broken ∷ reads) = ⊥
NoneBroken (_ ∷ reads) = NoneBroken reads

AllFit-append : (n : ℕ) (cs ds : List Command) → AllFit n (cs ++ ds) → AllFit n cs × AllFit n ds
AllFit-append n [] ds h = (tt, h)
AllFit-append n (c ∷ cs) ds h =
    let (left, right) = AllFit-append n cs ds h.1 in ((h.0, left), right)

-- What is left of a log behind its complete records: the parser waits for more.
Waits-tail :
    (rest : List Command) (tail : Bytes) (n k : ℕ)
    → IsTail tail rest
    → AllFit replay_frame_cap rest
    → Waits replay_frame_cap (drain replay_frame_cap (idle tail n k))
Waits-tail [] tail n k e fits =
    rw e (
      idle [] n k,
      drain-wait replay_frame_cap _ (round-idle-nil replay_frame_cap n k),
      omega arith,
    )
Waits-tail (c ∷ rest) tail n k (w, e, ne) fits =
    Waits-encode replay_frame_cap (omega arith) (omega arith) c n k tail w e ne fits.0

-- A part of a log is accepted, with the records that are complete in it.
feed_part :
    (done rest : List Command) (tail : Bytes)
    → IsTail tail rest
    → AllFit replay_frame_cap (done ++ rest)
    → (q : Parser) × (feed replay_frame_cap initial (encode_all done ++ tail) ≡ ready q done)
feed_part done rest tail torn fits =
    let (fit_done, fit_rest) = AllFit-append replay_frame_cap done rest fits in
    let (n, k, e) = drain-encode_all replay_frame_cap (omega arith) done tail 0 0 fit_done in
    let (q, e', small) = Waits-tail rest tail n k torn fit_rest in
    let all : drain replay_frame_cap (idle (encode_all done ++ tail) 0 0) ≡ ready q done =
      e
      ∙ ap (prepend_all done) e'
      ∙ prepend_all-ready done [] q
      ∙ ap (λ cs. ready q cs) (append-nil done) in
    (
      q,
      feed-run replay_frame_cap (suc (measure (extend initial (encode_all done ++ tail)))) initial
            (encode_all done ++ tail) (omega arith)
          ∙ ap (size_checked replay_frame_cap) all
          ∙ size_checked_ready replay_frame_cap q done small,
    )

size_of-append : (cs ds : List Command) → size_of (cs ++ ds) ≡ size_of cs + size_of ds
unfolding size_of
size_of-append [] ds = omega arith
size_of-append (c ∷ cs) ds = omega (arith, size_of-append cs ds)

size_of_lem : (cs : List Command) → size_of cs ≡ length (encode_all cs)
unfolding size_of encode_all
size_of_lem [] = refl
size_of_lem (c ∷ cs) = omega (arith, size_of_lem cs, length-append (encode c) (encode_all cs))

same_commands :
    {o : Outcome} {p q : Parser} {cs ds : List Command} → o ≡ ready p cs → o ≡ ready q ds → cs ≡ ds
same_commands h k = ground arith

module _ {S : Type 0} (fn : Command → S → S) where
  pub apply_all-append :
      (cs ds : List Command) (s : S)
      → apply_all fn (cs ++ ds) s ≡ apply_all fn ds (apply_all fn cs s)
  unfolding apply_all
  apply_all-append [] ds s = refl
  apply_all-append (c ∷ cs) ds s = apply_all-append cs ds (fn c s)

  read_loop-nil :
      (p : Parser) (good total : ℕ) (s : S) → read_loop fn [] p good total s ≡ at_end good total s
  unfolding read_loop
  read_loop-nil p good total s = refl

  read_loop-interrupted :
      (reads : List ReadReturn) (p : Parser) (good total : ℕ) (s : S)
      → read_loop fn (interrupted ∷ reads) p good total s ≡ read_loop fn reads p good total s
  unfolding read_loop
  read_loop-interrupted reads p good total s = refl

  read_loop-chunk :
      (b : Bytes) (reads : List ReadReturn) (p q : Parser) (cs : List Command) (good total : ℕ)
      (s : S)
      → feed replay_frame_cap p b ≡ ready q cs
      → read_loop fn (chunk b ∷ reads) p good total s
        ≡ read_loop fn reads q (good + size_of cs) (total + length b) (apply_all fn cs s)
  unfolding read_loop
  read_loop-chunk b reads p q cs good total s e = rw (e, read_loop)

  module _ (cs : List Command) (fits : AllFit replay_frame_cap cs) (s : S) where
    accepted :
        (a u : Bytes)
        → a ++ u ≡ encode_all cs
        → (q : Parser) × (ds : List Command) × (feed replay_frame_cap initial a ≡ ready q ds)
    accepted a u e =
        let (done, rest, tail, split, same, torn) = cut_log cs a u e in
        let (q, e') = feed_part done rest tail torn (rw split at fits) in (q, done, rw same e')

    -- From behind the bytes `a`, the loop reads the rest of a part of the log.
    read_loop_part :
        (reads : List ReadReturn) (a u : Bytes) (p : Parser) (c₁ : List Command)
        → feed replay_frame_cap initial a ≡ ready p c₁
        → (a ++ data_of reads) ++ u ≡ encode_all cs
        → NoneBroken reads
        → (q : Parser) × (ds : List Command) × (feed replay_frame_cap initial (a ++ data_of reads)
            ≡ ready q ds)
          × (read_loop fn reads p (size_of c₁) (length a) (apply_all fn c₁ s)
              ≡ at_end (size_of ds) (length (a ++ data_of reads)) (apply_all fn ds s))
    read_loop_part [] a u p c₁ e log none =
        rw append-nil (p, c₁, e, read_loop-nil p (size_of c₁) (length a) (apply_all fn c₁ s))
    read_loop_part (interrupted ∷ reads) a u p c₁ e log none =
        rw (read_loop-interrupted reads p _ _ _) (read_loop_part reads a u p c₁ e log none)
    read_loop_part (broken ∷ reads) a u p c₁ e log none = absurd none
    read_loop_part (chunk b ∷ reads) a u p c₁ e log none =
        let log' : (a ++ b ++ data_of reads) ++ u ≡ encode_all cs =
          rw (append_assoc a b (data_of reads)) log in
        let (q, ds, e') =
          accepted (a ++ b) (data_of reads ++ u)
            (sym (append_assoc (a ++ b) (data_of reads) u) ∙ log') in
        let (c₂, step, same) = feed-split replay_frame_cap initial a b e e' in
        let rest = read_loop_part reads (a ++ b) u q ds e' log' none in
        rw
          (
            read_loop-chunk b reads p q c₂ _ _ _ step,
            ← append_assoc a b (data_of reads),
            ← size_of-append c₁ c₂,
            ← length-append a b,
            ← apply_all-append c₁ c₂ s,
            ← same,
          )
          rest

length-nil : (n : ℕ) (t : Bytes) → n + length t ≤ n → t ≡ []
length-nil n [] h = refl
length-nil n (x ∷ t) h = absurd (omega arith)

-- The file is cut behind the complete records, and only there.
finish-part :
    {S : Type 0} (good tail : Bytes) (s : S)
    → finish true (good ++ tail) (at_end (length good) (length (good ++ tail)) s)
      ≡ record { status = ok; state = s; file = good }
unfolding finish
finish-part good tail s = elim (Bool-cases (ltb (length good) (length (good ++ tail)))) [
  | inl torn ↦ rw (torn, take-length-append good tail)
  | inr whole ↦
      let none : tail ≡ [] =
        length-nil (length good) tail (ground (arith, length-append good tail)) in
      rw (whole, none, append-nil good)
]

replay-opened :
    {S : Type 0} (fn : Command → S → S) (reads : List ReadReturn) (t : Bytes) (s : S)
    → replay fn opened reads true t s ≡ finish true t (read_loop fn reads initial 0 0 s)
unfolding replay
replay-opened fn reads t s = refl

-- The log of the commands `cs` was cut off at any byte, `t` is what is left, and the reads return it
-- in any chunks, with any interruptions. Then recovery succeeds: it applies the commands whose
-- records are complete in `t`, in order and once each, and leaves a file of exactly those records.
-- What was cut is nothing or a part of the next record.
pub replay_recovers :
    {S : Type 0} (fn : Command → S → S) (cs : List Command) (t u : Bytes) (reads : List ReadReturn)
    (s : S)
    → AllFit replay_frame_cap cs
    → t ++ u ≡ encode_all cs
    → data_of reads ≡ t
    → NoneBroken reads
    → (done rest : List Command) × (tail : Bytes) × (cs ≡ done ++ rest)
      × (t ≡ encode_all done ++ tail)
      × IsTail tail rest
      × (replay fn opened reads true t s
          ≡ record { status = ok; state = apply_all fn done s; file = encode_all done })
unfolding size_of apply_all
replay_recovers fn cs t u reads s fits log all none =
    let (done, rest, tail, split, same, torn) = cut_log cs t u log in
    let (q, part) = feed_part done rest tail torn (rw split at fits) in
    let (q', ds, e, loop) =
      read_loop_part fn cs fits s reads [] u initial [] (feed-initial-nil replay_frame_cap)
        (rw all log) none in
    let whole : ds ≡ done = same_commands {q = q} e (rw (all, same) part) in
    let loop_end : read_loop fn reads initial 0 0 s
        ≡ at_end (length (encode_all done)) (length t) (apply_all fn done s) =
      rw (← size_of_lem done, ← whole, ← all) loop in
    (
      done,
      rest,
      tail,
      split,
      same,
      torn,
      replay-opened fn reads t s
          ∙ ap (finish true t) loop_end
          ∙ ap
              (λ r.
                finish true r (at_end (length (encode_all done)) (length r) (apply_all fn done s)))
              same
          ∙ finish-part (encode_all done) tail (apply_all fn done s),
    )

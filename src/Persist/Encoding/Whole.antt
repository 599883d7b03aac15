-- ===== src/Persist/Encoding/Whole.antt =====
-- The parser reads back the records of a log.
use hermitdb.Prelude.{
  ℕ, suc, ◌+◌, ◌^◌, ◌≤◌, ◌<◌, ◌≡◌, refl, sym, ◌∙◌, List, [], ◌∷◌, ◌++◌, Bytes, crlf, length, arith,
  length-append, append_assoc, append-nil, ap,
}
use hermitdb.Protocol.Decimal.{to_string}
use hermitdb.Protocol.Parser.{
  Command, Parser, ready, prepend, feed, size_checked, initial, measure, extend,
}
use hermitdb.Protocol.Parser.Runs.{prepend_all}
use hermitdb.Protocol.Parser.Chunks.{feed-run, prepend_all-ready, size_checked_ready}
use hermitdb.Protocol.Parser.Frames.{
  idle, inside, drain, drain-wait, drain-continue, drain-command, round-argc_line, round-arg_line,
  round-payload, round-full, round-idle-nil,
}
use hermitdb.Persist.Encoding.{
  encode, encode_all, encode_args, encode_arg, argc_line, ArgsFit, Fits, AllFit,
}

-- the header of the argument, and what stands behind it
pub encode_arg-append :
    (arg rest : Bytes)
    → encode_arg arg ++ rest ≡ (b'$' ∷ to_string (length arg)) ++ crlf ++ (arg ++ (crlf ++ rest))
encode_arg-append arg rest = simp append_assoc

module _ (max_frame : ℕ) (small : max_frame < 2 ^ 63) where
  -- One argument is decoded, and the rest is read from behind it.
  pub drain-encode_arg :
      (arg : Bytes) (n k : ℕ) (done : List Bytes) (rest : Bytes)
      → length done < n
      → length arg + 2 ≤ max_frame
      → drain max_frame (inside (encode_arg arg ++ rest) n k done)
        ≡ drain max_frame (inside rest n (length arg) (done ++ arg ∷ []))
  drain-encode_arg arg n k done rest owed fits =
      ap (λ u. drain max_frame (inside u n k done)) (encode_arg-append arg rest)
      ∙ drain-continue max_frame _ _ (
          round-arg_line max_frame (length arg) n k done (arg ++ (crlf ++ rest)) owed fits
            (omega arith))
      ∙ drain-continue max_frame _ _ (round-payload max_frame arg n done rest)

  -- All the arguments that are owed, and the command.
  pub drain-encode_args :
      (args : List Bytes) (n k : ℕ) (done : List Bytes) (rest : Bytes)
      → length done + length args ≡ n
      → ArgsFit max_frame args
      → (k' : ℕ) × (drain max_frame (inside (encode_args args ++ rest) n k done)
          ≡ prepend (done ++ args) (drain max_frame (idle rest n k')))
  unfolding encode_args
  drain-encode_args [] n k done rest owed fits = (
    k,
    rw append-nil
        (drain-command max_frame _ _ done (round-full max_frame rest n k done (omega arith))),
  )
  drain-encode_args (a ∷ args) n k done rest owed fits =
      let (k', e) =
        drain-encode_args args n (length a) (done ++ a ∷ []) rest
          (omega (arith, length-append done (a ∷ []))) fits.1 in
      (
        k',
        ap (λ u. drain max_frame (inside u n k done))
              (append_assoc (encode_arg a) (encode_args args) rest)
            ∙ drain-encode_arg a n k done (encode_args args ++ rest) (omega arith) fits.0
            ∙ e
            ∙ ap (λ c. prepend c (drain max_frame (idle rest n k')))
                (append_assoc done (a ∷ []) args),
      )

  -- A record is read back, and the parser goes on behind it.
  pub drain-encode :
      (c : Command) (rest : Bytes) (n k : ℕ)
      → Fits max_frame c
      → (n' k' : ℕ) × (drain max_frame (idle (encode c ++ rest) n k)
          ≡ prepend c (drain max_frame (idle rest n' k')))
  unfolding encode
  drain-encode [] rest n k fits = absurd (omega arith)
  drain-encode (a ∷ c) rest n k fits =
      let (k', e) =
        drain-encode_args (a ∷ c) (length (a ∷ c)) k [] rest (omega arith) fits.args_fit in
      (
        length (a ∷ c),
        k',
        ap (λ u. drain max_frame (idle u n k)) (append_assoc (argc_line (a ∷ c)) _ rest)
            ∙ drain-continue max_frame _ _ (
                round-argc_line max_frame (length c) n k (encode_args (a ∷ c) ++ rest) fits.few
                  fits.framed)
            ∙ e,
      )

  -- A log is read back, record by record.
  pub drain-encode_all :
      (cs : List Command) (rest : Bytes) (n k : ℕ)
      → AllFit max_frame cs
      → (n' k' : ℕ) × (drain max_frame (idle (encode_all cs ++ rest) n k)
          ≡ prepend_all cs (drain max_frame (idle rest n' k')))
  unfolding encode_all
  drain-encode_all [] rest n k fits = (n, k, refl)
  drain-encode_all (c ∷ cs) rest n k fits =
      let (n₁, k₁, e) = drain-encode c (encode_all cs ++ rest) n k fits.0 in
      let (n₂, k₂, e') = drain-encode_all cs rest n₁ k₁ fits.1 in
      (
        n₂,
        k₂,
        ap (λ u. drain max_frame (idle u n k)) (append_assoc (encode c) (encode_all cs) rest)
            ∙ e
            ∙ ap (prepend c) e',
      )

-- A log is read back by one call of the parser: the records in order, and no byte left over.
pub feed-encode_all :
    (max_frame : ℕ) (cs : List Command)
    → max_frame < 2 ^ 63
    → AllFit max_frame cs
    → (q : Parser) × (feed max_frame initial (encode_all cs) ≡ ready q cs) × (q.unread ≡ [])
feed-encode_all max_frame cs small fits =
    let (n, k, e) = drain-encode_all max_frame small cs [] 0 0 fits in
    let all : drain max_frame (idle (encode_all cs) 0 0) ≡ ready (idle [] n k) cs =
      ap (λ u. drain max_frame (idle u 0 0)) (sym (append-nil (encode_all cs)))
      ∙ e
      ∙ ap (prepend_all cs) (drain-wait max_frame _ (round-idle-nil max_frame n k))
      ∙ prepend_all-ready cs [] (idle [] n k)
      ∙ ap (λ ds. ready (idle [] n k) ds) (append-nil cs) in
    (
      idle [] n k,
      feed-run max_frame (suc (measure (extend initial (encode_all cs)))) initial (encode_all cs)
            (omega arith)
          ∙ ap (size_checked max_frame) all
          ∙ size_checked_ready max_frame (idle [] n k) cs (omega arith),
      refl,
    )

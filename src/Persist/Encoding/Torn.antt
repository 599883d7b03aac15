-- ===== src/Persist/Encoding/Torn.antt =====
-- A log that is cut off at any byte: what the parser makes of it.
use hermitdb.Prelude.{
  append-split, ℕ, ◌+◌, ◌/◌, ◌^◌, ◌≤◌, ◌<◌, ◌≡◌, ◌≢◌, refl, sym, ◌∙◌, List, [], ◌∷◌, ◌++◌, Bytes,
  crlf, length, arith, length-append, append_assoc, ap, inl, inr,
}
use hermitdb.Protocol.Decimal.{to_string, length-to_string}
use hermitdb.Protocol.Parser.{Command, bulk_body, Parser, Outcome, ready}
use hermitdb.Protocol.Parser.Frames.{
  idle, inside, drain, drain-wait, drain-continue, round-argc_line, round-arg_line, round-payload,
  round-argc_torn, round-arg_torn, round-payload_torn,
}
use hermitdb.Persist.Encoding.{encode, encode_all, encode_args, argc_line, ArgsFit, Fits}
use hermitdb.Persist.Encoding.Whole.{encode_arg-append}

-- The parser waits, no command comes out, and what it holds passes the size check.
abbrev pub Waits : ℕ → Outcome → Type 0
Waits max_frame o = (p : Parser) × (o ≡ ready p []) × (length p.unread ≤ max_frame)

cons-lt : (t w s : Bytes) → t ++ w ≡ s → w ≢ [] → length t < length s
cons-lt t [] s e ne = absurd (ne refl)
cons-lt t (x ∷ w) s e ne = omega (arith, length-append t (x ∷ w), ap (λ r. length r) e)

module _ (max_frame : ℕ) (small : max_frame < 2 ^ 63) (large : 4 ≤ max_frame) where
  Waits-payload :
      (arg t w : Bytes) (n : ℕ) (done : List Bytes)
      → t ++ w ≡ arg ++ crlf
      → w ≢ []
      → length arg + 2 ≤ max_frame
      → Waits max_frame
          (drain max_frame (record (inside t n (length arg) done) { state = bulk_body }))
  Waits-payload arg t w n done e ne fits =
      let short = cons-lt t w (arg ++ crlf) e ne in
      let less : length t < length arg + 2 = omega (arith, length-append arg crlf) in
      (
        record (inside t n (length arg) done) { state = bulk_body },
        drain-wait max_frame _ (round-payload_torn max_frame t n (length arg) done less),
        omega arith,
      )

  header_fits :
      (c n : ℕ) (t w : Bytes) → t ++ w ≡ (c ∷ to_string n) ++ crlf → w ≢ [] → length t ≤ n / 10 + 3
  header_fits c n t w e ne = omega (
    arith,
    cons-lt t w ((c ∷ to_string n) ++ crlf) e ne,
    length-append (c ∷ to_string n) crlf,
    length-to_string n,
  )

  Waits-args :
      (args : List Bytes) (n k : ℕ) (done : List Bytes) (t u : Bytes)
      → t ++ u ≡ encode_args args
      → u ≢ []
      → length done + length args ≡ n
      → ArgsFit max_frame args
      → Waits max_frame (drain max_frame (inside t n k done))
  unfolding encode_args
  Waits-args [] n k done t u e ne owed fits = absurd (not-cons t u e ne)
    where
      not-cons : (t u : Bytes) → t ++ u ≡ [] → u ≢ [] → ⊥
      not-cons [] u e ne = ne e
      not-cons (x ∷ t) u e ne = cc
  Waits-args (a ∷ args) n k done t u e ne owed fits =
      elim (append-split t u ((b'$' ∷ to_string (length a)) ++ crlf)
        (a ++ (crlf ++ encode_args args)) (e ∙ encode_arg-append a (encode_args args))) [
          | inl (w, same, more) ↦ (
            inside t n k done,
            drain-wait max_frame _
                (round-arg_torn max_frame (length a) n k done t w (omega arith) same more),
            omega (arith, header_fits b'$' (length a) t w same more),
          )
          | inr (t₁, same, rest) ↦
              let header =
                round-arg_line max_frame (length a) n k done t₁ (omega arith) fits.0
                  (omega arith) in
              rw (same, drain-continue max_frame _ _ header)
                (elim (append-split t₁ u (a ++ crlf) (encode_args args)
                  (rest ∙ sym (append_assoc a crlf (encode_args args)))) [
                    | inl (w, same', more) ↦ Waits-payload a t₁ w n done same' more fits.0
                    | inr (t₂, same', rest') ↦
                        let behind = round-payload max_frame a n done t₂ in
                        rw (same', append_assoc a crlf t₂, drain-continue max_frame _ _ behind)
                          (Waits-args args n (length a) (done ++ a ∷ []) t₂ u rest' ne
                            (omega (arith, length-append done (a ∷ []))) fits.1)
                  ])
        ]

  -- A record that is cut off is waited for: no command, no error.
  pub Waits-encode :
      (c : Command) (n k : ℕ) (t u : Bytes)
      → t ++ u ≡ encode c
      → u ≢ []
      → Fits max_frame c
      → Waits max_frame (drain max_frame (idle t n k))
  unfolding encode
  Waits-encode [] n k t u e ne fits = absurd (omega arith)
  Waits-encode (a ∷ c) n k t u e ne fits =
      elim (append-split t u (argc_line (a ∷ c)) (encode_args (a ∷ c)) e) [
        | inl (w, same, more) ↦ (
          idle t n k,
          drain-wait max_frame _ (round-argc_torn max_frame (length (a ∷ c)) n k t w same more),
          omega (arith, header_fits b'*' (length (a ∷ c)) t w same more, fits.framed),
        )
        | inr (t₁, same, rest) ↦
            let header = round-argc_line max_frame (length c) n k t₁ fits.few fits.framed in
            rw (same, drain-continue max_frame _ _ header)
              (Waits-args (a ∷ c) (length (a ∷ c)) k [] t₁ u rest ne (omega arith) fits.args_fit)
      ]

-- What a cut leaves behind the last complete record: nothing, or a part of the next record.
abbrev pub IsTail : Bytes → List Command → Type 0
IsTail t [] = t ≡ []
IsTail t (c ∷ _) = (w : Bytes) × (t ++ w ≡ encode c) × (w ≢ [])

-- A part of a log holds some of its records and a tail.
pub cut_log :
    (cs : List Command) (t u : Bytes)
    → t ++ u ≡ encode_all cs
    → (done rest : List Command) × (tail : Bytes) × (cs ≡ done ++ rest)
      × (t ≡ encode_all done ++ tail)
      × IsTail tail rest
unfolding encode_all
cut_log [] [] u e = ([], [], [], refl, refl, refl)
cut_log [] (x ∷ t) u e = cc
cut_log (c ∷ cs) t u e = elim (append-split t u (encode c) (encode_all cs) e) [
  | inl (w, same, more) ↦ ([], c ∷ cs, t, refl, refl, (w, same, more))
  | inr (t₁, same, rest) ↦
      let (done, left, tail, split, same', torn) = cut_log cs t₁ u rest in
      (
        c ∷ done,
        left,
        tail,
        ap (λ r. c ∷ r) split,
        same ∙ ap (λ r. encode c ++ r) same' ∙ sym (append_assoc (encode c) (encode_all done) tail),
        torn,
      )
]

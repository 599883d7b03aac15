-- ===== src/Protocol/Parser/Rounds.antt =====
-- One round of the parser's loop: it consumes input, and more input behind it changes nothing.
use hermitdb.Prelude.{
  ℕ, zero, suc, ◌+◌, ◌*◌, ◌≤◌, ◌<◌, ◌≡◌, ◌≢◌, refl, [], ◌∷◌, ◌++◌, Option, none, some, Bytes,
  length, drop, ltb, ◌==◌, false, Option-cases, inl, inr, arith, length-append, length-drop,
  take-append, drop-append, Bool-cases,
}
use hermitdb.Prelude.Int.{ℤ, pos, negsuc}
use hermitdb.Protocol.Decimal.{parse_i64}
use hermitdb.Protocol.Parser.{
  Command, State, line, bulk_head, bulk_body, Parser, Round, wait, continue, command, reject, round,
  round_at, on_line, on_argc, on_inline, on_bulk_head, on_bulk_len, on_bulk_body, on_terminator,
  measure, extend, head_first,
}
use hermitdb.Protocol.Parser.Lines.{take_line, split_inline, take_line-append, length-take_line}

-- The same round with `b` behind the input.
abbrev pub extend_round : Bytes → Round → Round
extend_round b wait = wait
extend_round b (continue q) = continue (extend q b)
extend_round b (command c q) = command c (extend q b)
extend_round b (reject e) = reject e

-- The round leaves a parser with a smaller measure.
abbrev pub Shrinks : ℕ → Round → Type 0
Shrinks n wait = Unit
Shrinks n (continue q) = measure q < n
Shrinks n (command c q) = measure q < n
Shrinks n (reject e) = Unit

module _ (max_frame : ℕ) (b : Bytes) where
  on_argc-append :
      (p : Parser) (n : Option ℤ)
      → on_argc max_frame (extend p b) n ≡ extend_round b (on_argc max_frame p n)
  unfolding on_argc
  on_argc-append p none = refl
  on_argc-append p (some (negsuc n)) = refl
  on_argc-append p (some (pos zero)) = refl
  on_argc-append p (some (pos (suc n))) = ground arith

  on_inline-append :
      (p : Parser) (c : Command) → on_inline c (extend p b) ≡ extend_round b (on_inline c p)
  unfolding on_inline
  on_inline-append p [] = refl
  on_inline-append p (a ∷ c) = refl

  on_line-append :
      (p : Parser) (l rest : Bytes)
      → on_line max_frame (extend p b) (some (l, rest ++ b))
        ≡ extend_round b (on_line max_frame p (some (l, rest)))
  unfolding on_line
  on_line-append p [] rest = refl
  on_line-append p (c ∷ s) rest = elim (Bool-cases (c == b'*')) [
    | inl e ↦ rw e (on_argc-append (record p { unread = rest }) (parse_i64 s))
    | inr e ↦ rw e (on_inline-append (record p { unread = rest }) (split_inline (c ∷ s)))
  ]

  on_bulk_len-append :
      (p : Parser) (n : Option ℤ)
      → on_bulk_len max_frame (extend p b) n ≡ extend_round b (on_bulk_len max_frame p n)
  unfolding on_bulk_len
  on_bulk_len-append p none = refl
  on_bulk_len-append p (some (negsuc n)) = refl
  on_bulk_len-append p (some (pos n)) = ground arith

  on_bulk_head-append :
      (p : Parser) (l rest : Bytes)
      → on_bulk_head max_frame (extend p b) (some (l, rest ++ b))
        ≡ extend_round b (on_bulk_head max_frame p (some (l, rest)))
  unfolding on_bulk_head
  on_bulk_head-append p [] rest = refl
  on_bulk_head-append p (c ∷ s) rest = elim (Bool-cases (c == b'$')) [
    | inl e ↦ rw e (on_bulk_len-append (record p { unread = rest }) (parse_i64 s))
    | inr e ↦ rw e
  ]

  on_terminator-append :
      (p : Parser) (s : Bytes)
      → 2 ≤ length s
      → p.bulk_len ≤ length p.unread
      → on_terminator (extend p b) (s ++ b) ≡ extend_round b (on_terminator p s)
  unfolding on_terminator
  on_terminator-append p [] h k = absurd (omega arith)
  on_terminator-append p (c ∷ []) h k = absurd (omega arith)
  on_terminator-append p (c ∷ d ∷ s) h k = ground (arith, take-append p.bulk_len p.unread b k)

  on_bulk_body-append :
      (p : Parser)
      → on_bulk_body p ≢ wait
      → on_bulk_body (extend p b) ≡ extend_round b (on_bulk_body p)
  unfolding on_bulk_body
  on_bulk_body-append p h = elim (Bool-cases (ltb (length p.unread) (p.bulk_len + 2))) [
    | inl e ↦ absurd (h (rw e))
    | inr e ↦
        let long : p.bulk_len + 2 ≤ length p.unread = ground arith in
        let fits : 2 ≤ length (drop p.bulk_len p.unread) =
          omega (arith, length-drop p.bulk_len p.unread) in
        let enough : ltb (length (p.unread ++ b)) (p.bulk_len + 2) ≡ false =
          ground (arith, length-append p.unread b) in
        rw (e, enough, drop-append p.bulk_len p.unread b (omega arith))
          (on_terminator-append p (drop p.bulk_len p.unread) fits (omega arith))
  ]

  round_at-append :
      (st : State) (p : Parser)
      → round_at st max_frame p ≢ wait
      → round_at st max_frame (extend p b) ≡ extend_round b (round_at st max_frame p)
  unfolding round_at
  round_at-append line p h = elim (Option-cases (take_line p.unread)) [
    | inl e ↦ absurd (h (rw e (unfold on_line in refl)))
    | inr ((l, rest), e) ↦ rw (e, take_line-append b p.unread e) (on_line-append p l rest)
  ]
  round_at-append bulk_head p h = elim (Bool-cases (length p.args == p.pending_argc)) [
    | inl full ↦ rw full
    | inr owed ↦ elim (Option-cases (take_line p.unread)) [
      | inl e ↦ absurd (h (rw (owed, e) (unfold on_bulk_head in refl)))
      | inr ((l, rest), e) ↦
          rw (owed, e, take_line-append b p.unread e) (on_bulk_head-append p l rest)
    ]
  ]
  round_at-append bulk_body p h = on_bulk_body-append p h

  -- A round that does not wait does the same when more bytes have arrived.
  pub round-append :
      (p : Parser)
      → round max_frame p ≢ wait
      → round max_frame (extend p b) ≡ extend_round b (round max_frame p)
  unfolding round
  round-append p h = round_at-append p.state p h

Shrinks-le : (r : Round) (n m : ℕ) → n ≤ m → Shrinks n r → Shrinks m r
Shrinks-le wait n m h k = tt
Shrinks-le (continue q) n m h k = omega arith
Shrinks-le (command c q) n m h k = omega arith
Shrinks-le (reject e) n m h k = tt

module _ (max_frame : ℕ) where
  on_argc-Shrinks :
      (p : Parser) (o : Option ℤ) (n : ℕ)
      → p.state ≡ line
      → 2 * length p.unread + 1 < n
      → Shrinks n (on_argc max_frame p o)
  unfolding on_argc
  on_argc-Shrinks p none n st h = tt
  on_argc-Shrinks p (some (negsuc m)) n st h = rw st (omega arith)
  on_argc-Shrinks p (some (pos zero)) n st h = rw st (omega arith)
  on_argc-Shrinks p (some (pos (suc m))) n st h = ground arith

  on_inline-Shrinks :
      (p : Parser) (c : Command) (n : ℕ)
      → p.state ≡ line
      → 2 * length p.unread < n
      → Shrinks n (on_inline c p)
  unfolding on_inline
  on_inline-Shrinks p [] n st h = rw st (omega arith)
  on_inline-Shrinks p (a ∷ c) n st h = rw st (omega arith)

  on_line-Shrinks :
      (p : Parser) (l rest : Bytes)
      → p.state ≡ line
      → length rest < length p.unread
      → Shrinks (2 * length p.unread) (on_line max_frame p (some (l, rest)))
  unfolding on_line
  on_line-Shrinks p [] rest st h = rw st (omega arith)
  on_line-Shrinks p (c ∷ s) rest st h =
      let q = record p { unread = rest } in
      elim (Bool-cases (c == b'*')) [
        | inl e ↦ rw e (on_argc-Shrinks q (parse_i64 s) _ st (omega arith))
        | inr e ↦ rw e (on_inline-Shrinks q (split_inline (c ∷ s)) _ st (omega arith))
      ]

  on_bulk_head-Shrinks :
      (p : Parser) (l rest : Bytes)
      → length rest < length p.unread
      → Shrinks (2 * length p.unread) (on_bulk_head max_frame p (some (l, rest)))
  unfolding on_bulk_head on_bulk_len
  on_bulk_head-Shrinks p [] rest h = tt
  on_bulk_head-Shrinks p (c ∷ s) rest h = ground arith

  on_terminator-Shrinks :
      (p : Parser) (s : Bytes)
      → length s ≤ length p.unread
      → Shrinks (2 * length p.unread) (on_terminator p s)
  unfolding on_terminator
  on_terminator-Shrinks p [] h = tt
  on_terminator-Shrinks p (c ∷ []) h = tt
  on_terminator-Shrinks p (c ∷ d ∷ s) h = ground arith

  on_bulk_body-Shrinks : (p : Parser) → Shrinks (2 * length p.unread) (on_bulk_body p)
  unfolding on_bulk_body
  on_bulk_body-Shrinks p = elim (Bool-cases (ltb (length p.unread) (p.bulk_len + 2))) [
    | inl e ↦ rw e tt
    | inr e ↦ rw e (
        on_terminator-Shrinks p (drop p.bulk_len p.unread)
          (omega (arith, length-drop p.bulk_len p.unread)))
  ]

  round_at-Shrinks :
      (st : State) (p : Parser)
      → p.state ≡ st
      → Shrinks (2 * length p.unread + head_first st) (round_at st max_frame p)
  unfolding round_at
  round_at-Shrinks line p e = elim (Option-cases (take_line p.unread)) [
    | inl f ↦ rw f (unfold on_line in tt)
    | inr ((l, rest), f) ↦
        rw f (
          Shrinks-le _ _ _ (omega arith) (on_line-Shrinks p l rest e (length-take_line p.unread f)))
  ]
  round_at-Shrinks bulk_head p e = elim (Bool-cases (length p.args == p.pending_argc)) [
    | inl full ↦ rw full (omega arith)
    | inr owed ↦ elim (Option-cases (take_line p.unread)) [
      | inl f ↦ rw (owed, f) (unfold on_bulk_head in tt)
      | inr ((l, rest), f) ↦
          rw (owed, f)
            (Shrinks-le _ _ _ (omega arith)
              (on_bulk_head-Shrinks p l rest (length-take_line p.unread f)))
    ]
  ]
  round_at-Shrinks bulk_body p e = Shrinks-le _ _ _ (omega arith) (on_bulk_body-Shrinks p)

  -- Every round that goes on has consumed input or left an array that is complete.
  pub round-Shrinks : (p : Parser) → Shrinks (measure p) (round max_frame p)
  unfolding round
  round-Shrinks p = round_at-Shrinks p.state p refl

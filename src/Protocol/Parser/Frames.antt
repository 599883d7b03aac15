-- ===== src/Protocol/Parser/Frames.antt =====
-- The rounds that the parser makes over the lines and payloads of a well-formed array.
use hermitdb.Prelude.{
  ℕ, suc, ◌+◌, ◌^◌, ◌≤◌, ◌<◌, ◌≡◌, ◌≢◌, refl, ◌∙◌, List, [], ◌∷◌, ◌++◌, Bytes, crlf, length, ltb,
  ◌==◌, false, arith, length-append, ap, ==_iff, le→ltb_false, lt→ltb, take-length-append,
  drop-length-append,
}
use hermitdb.Protocol.Decimal.{to_string, parse-to_string}
use hermitdb.Protocol.Parser.{
  Command, line, bulk_head, bulk_body, Parser, wait, continue, command, round, round_at, on_line,
  on_argc, on_bulk_head, on_bulk_len, on_bulk_body, on_terminator, Outcome, ready, prepend, run,
  measure, max_args,
}
use hermitdb.Protocol.Parser.Lines.{take_line, cut_line}
use hermitdb.Protocol.Parser.Runs.{
  run_fuel, run-wait, run-continue, run-command, continue-measure, command-measure,
}
use hermitdb.Protocol.Parser.Headers.{header-NoLf, take_line-crlf, take_line_torn}

-- between frames
abbrev pub idle : Bytes → ℕ → ℕ → Parser
idle u n k = record { unread = u; state = line; pending_argc = n; bulk_len = k; args = [] }

-- inside an array of `n` arguments, of which `done` are decoded
abbrev pub inside : Bytes → ℕ → ℕ → List Bytes → Parser
inside u n k done = record {
  unread = u;
  state = bulk_head;
  pending_argc = n;
  bulk_len = k;
  args = done;
}

module _ (max_frame : ℕ) where
  -- The loop with enough fuel.
  abbrev pub drain : Parser → Outcome
  drain p = run (suc (measure p)) max_frame p

  pub drain-wait : (p : Parser) → round max_frame p ≡ wait → drain p ≡ ready p []
  drain-wait p e = run-wait max_frame (measure p) p e

  pub drain-continue : (p q : Parser) → round max_frame p ≡ continue q → drain p ≡ drain q
  drain-continue p q e =
      let less = continue-measure max_frame p q e in
      run-continue max_frame (measure p) p e
      ∙ run_fuel max_frame (measure p) (suc (measure q)) q less (omega arith)

  pub drain-command :
      (p q : Parser) (c : Command) → round max_frame p ≡ command c q → drain p ≡ prepend c (drain q)
  drain-command p q c e =
      let less = command-measure max_frame p q c e in
      run-command max_frame (measure p) p e
      ∙ ap (prepend c) (run_fuel max_frame (measure p) (suc (measure q)) q less (omega arith))

  -- the array header of a record
  pub round-argc_line :
      (m n k : ℕ) (rest : Bytes)
      → suc m ≤ max_args
      → suc m ≤ max_frame
      → round max_frame (idle ((b'*' ∷ to_string (suc m)) ++ crlf ++ rest) n k)
        ≡ continue (inside rest (suc m) k [])
  unfolding round round_at on_line on_argc
  round-argc_line m n k rest few framed = rw (
    take_line-crlf (b'*' ∷ to_string (suc m)) rest (header-NoLf _ _ (cc)),
    parse-to_string (suc m) (omega arith),
    le→ltb_false max_args (suc m) few,
    le→ltb_false max_frame (suc m) framed,
  )

  -- the header of an argument
  pub round-arg_line :
      (len n k : ℕ) (done : List Bytes) (rest : Bytes)
      → length done < n
      → len + 2 ≤ max_frame
      → len < 2 ^ 63
      → round max_frame (inside ((b'$' ∷ to_string len) ++ crlf ++ rest) n k done)
        ≡ continue (record (inside rest n len done) { state = bulk_body })
  unfolding round round_at on_bulk_head on_bulk_len
  round-arg_line len n k done rest owed framed h =
      let more : (length done == n) ≡ false = ground arith in
      rw (
        more,
        take_line-crlf (b'$' ∷ to_string len) rest (header-NoLf _ _ (cc)),
        parse-to_string len h,
        le→ltb_false max_frame (len + 2) framed,
      )

  -- the payload of an argument
  pub round-payload :
      (arg : Bytes) (n : ℕ) (done : List Bytes) (rest : Bytes)
      → round max_frame
          (record (inside (arg ++ (crlf ++ rest)) n (length arg) done) { state = bulk_body })
        ≡ continue (inside rest n (length arg) (done ++ arg ∷ []))
  unfolding round round_at on_bulk_body on_terminator
  round-payload arg n done rest =
      let long : ltb (length (arg ++ (crlf ++ rest))) (length arg + 2) ≡ false =
        ground (arith, length-append arg (crlf ++ rest)) in
      rw (long, drop-length-append arg (crlf ++ rest), take-length-append arg (crlf ++ rest))

  -- an array of which no argument is owed
  pub round-full :
      (rest : Bytes) (n k : ℕ) (done : List Bytes)
      → length done ≡ n
      → round max_frame (inside rest n k done) ≡ command done (idle rest n k)
  unfolding round round_at
  round-full rest n k done e = rw ((==_iff (length done) n).1 e)

  -- An array header that is cut off
  pub round-argc_torn :
      (m n k : ℕ) (t w : Bytes)
      → t ++ w ≡ (b'*' ∷ to_string m) ++ crlf
      → w ≢ []
      → round max_frame (idle t n k) ≡ wait
  unfolding round round_at on_line
  round-argc_torn m n k t w e ne =
      rw (take_line_torn (b'*' ∷ to_string m) t w (header-NoLf _ _ (cc)) e ne)

  -- an argument's header that is cut off
  pub round-arg_torn :
      (len n k : ℕ) (done : List Bytes) (t w : Bytes)
      → length done < n
      → t ++ w ≡ (b'$' ∷ to_string len) ++ crlf
      → w ≢ []
      → round max_frame (inside t n k done) ≡ wait
  unfolding round round_at on_bulk_head
  round-arg_torn len n k done t w owed e ne =
      let more : (length done == n) ≡ false = ground arith in
      rw (more, take_line_torn (b'$' ∷ to_string len) t w (header-NoLf _ _ (cc)) e ne)

  -- a payload that is cut off
  pub round-payload_torn :
      (t : Bytes) (n k : ℕ) (done : List Bytes)
      → length t < k + 2
      → round max_frame (record (inside t n k done) { state = bulk_body }) ≡ wait
  unfolding round round_at on_bulk_body
  round-payload_torn t n k done short = rw (lt→ltb (length t) (k + 2) short)

  -- nothing to read
  pub round-idle-nil : (n k : ℕ) → round max_frame (idle [] n k) ≡ wait
  unfolding round round_at on_line take_line cut_line
  round-idle-nil n k = refl

-- ===== src/Protocol/Parser/Runs.antt =====
-- The loop of `feed`: it ends, and input that is added behind a run continues it.
use hermitdb.Prelude.{
  ℕ, zero, suc, ◌+◌, ◌*◌, ◌≤◌, ◌<◌, ◌≡◌, ◌≢◌, refl, List, [], ◌∷◌, Bytes, length, inl, inr, arith,
  length-append, ◌⊎◌, ap, sym, ◌∙◌,
}
use hermitdb.Protocol.Parser.{
  Command, Parser, Round, wait, continue, command, reject, round, Outcome, ready, failed,
  out_of_fuel, prepend, run, measure, extend,
}
use hermitdb.Protocol.Parser.Rounds.{extend_round, Shrinks, round-append, round-Shrinks}

-- the round, with the equation
pub Round-cases :
    (r : Round)
    → (r ≡ wait)
      ⊎ ((q : Parser) × (r ≡ continue q))
      ⊎ ((c : Command) × (q : Parser) × (r ≡ command c q))
      ⊎ ((e : Bytes) × (r ≡ reject e))
Round-cases wait = inl refl
Round-cases (continue q) = inr (inl (q, refl))
Round-cases (command c q) = inr (inr (inl (c, q, refl)))
Round-cases (reject e) = inr (inr (inr (e, refl)))

-- commands in front of those of the rounds that follow
abbrev pub prepend_all : List Command → Outcome → Outcome
prepend_all [] o = o
prepend_all (c ∷ cs) o = prepend c (prepend_all cs o)

module _ (max_frame f : ℕ) (p : Parser) where
  pub run-wait : round max_frame p ≡ wait → run (suc f) max_frame p ≡ ready p []
  unfolding run
  run-wait e = rw (e, run)

  pub run-continue :
      {q : Parser} → round max_frame p ≡ continue q → run (suc f) max_frame p ≡ run f max_frame q
  unfolding run
  run-continue e = rw (e, run)

  pub run-command :
      {c : Command} {q : Parser}
      → round max_frame p ≡ command c q
      → run (suc f) max_frame p ≡ prepend c (run f max_frame q)
  unfolding run
  run-command e = rw (e, run)

  pub run-reject : {m : Bytes} → round max_frame p ≡ reject m → run (suc f) max_frame p ≡ failed m
  unfolding run
  run-reject e = rw (e, run)

module _ (max_frame : ℕ) where
  pub continue-measure : (p q : Parser) → round max_frame p ≡ continue q → measure q < measure p
  continue-measure p q e =
      let shrinks : Shrinks (measure p) (round max_frame p) = round-Shrinks max_frame p in
      rw e at shrinks

  pub command-measure :
      (p q : Parser) (c : Command) → round max_frame p ≡ command c q → measure q < measure p
  command-measure p q c e =
      let shrinks : Shrinks (measure p) (round max_frame p) = round-Shrinks max_frame p in
      rw e at shrinks

  -- `measure p < fuel` is enough fuel, and more fuel changes nothing.
  pub run_fuel :
      (f g : ℕ) (p : Parser) → measure p < f → measure p < g → run f max_frame p ≡ run g max_frame p
  run_fuel zero g p h k = absurd (omega arith)
  run_fuel (suc f) zero p h k = absurd (omega arith)
  run_fuel (suc f) (suc g) p h k = elim (Round-cases (round max_frame p)) [
    | inl e ↦ rw (run-wait max_frame f p e, run-wait max_frame g p e)
    | inr (inl (q, e)) ↦
        let less = continue-measure p q e in
        rw (run-continue max_frame f p e, run-continue max_frame g p e)
          (run_fuel f g q (omega arith) (omega arith))
    | inr (inr (inl (c, q, e))) ↦
        let less = command-measure p q c e in
        rw (run-command max_frame f p e, run-command max_frame g p e)
          (ap (prepend c) (run_fuel f g q (omega arith) (omega arith)))
    | inr (inr (inr (m, e))) ↦ rw (run-reject max_frame f p e, run-reject max_frame g p e)
  ]

  prepend-ne-out_of_fuel : (c : Command) (o : Outcome) → o ≢ out_of_fuel → prepend c o ≢ out_of_fuel
  prepend-ne-out_of_fuel c (ready p cs) h = λ e. cc
  prepend-ne-out_of_fuel c (failed m) h = λ e. cc
  prepend-ne-out_of_fuel c out_of_fuel h = h

  pub run-ne-out_of_fuel : (f : ℕ) (p : Parser) → measure p < f → run f max_frame p ≢ out_of_fuel
  run-ne-out_of_fuel zero p h = absurd (omega arith)
  run-ne-out_of_fuel (suc f) p h = elim (Round-cases (round max_frame p)) [
    | inl e ↦ rw (run-wait max_frame f p e) (λ x. cc)
    | inr (inl (q, e)) ↦
        let less = continue-measure p q e in
        rw (run-continue max_frame f p e) (run-ne-out_of_fuel f q (omega arith))
    | inr (inr (inl (c, q, e))) ↦
        let less = command-measure p q c e in
        rw (run-command max_frame f p e)
          (prepend-ne-out_of_fuel c _ (run-ne-out_of_fuel f q (omega arith)))
    | inr (inr (inr (m, e))) ↦ rw (run-reject max_frame f p e) (λ x. cc)
  ]

  pub prepend-eq-ready :
      (c : Command) (o : Outcome) {p : Parser} {cs : List Command}
      → prepend c o ≡ ready p cs
      → (ds : List Command) × (o ≡ ready p ds) × (cs ≡ c ∷ ds)
  prepend-eq-ready c (ready q ds) h = (ds, ground arith, ground arith)
  prepend-eq-ready c (failed m) h = cc
  prepend-eq-ready c out_of_fuel h = cc

  run_zero : (p : Parser) → run 0 max_frame p ≡ out_of_fuel
  unfolding run
  run_zero p = refl

  ready-injective :
      {p q : Parser} {cs ds : List Command} → ready p cs ≡ ready q ds → (p ≡ q) × (cs ≡ ds)
  ready-injective h = ground arith

  -- the round with more bytes behind the input
  extended :
      (p : Parser) (b : Bytes) {r : Round}
      → r ≢ wait
      → round max_frame p ≡ r
      → round max_frame (extend p b) ≡ extend_round b r
  extended p b {r} h e = rw (← e) (round-append max_frame b p (rw e h))

  measure-extend : (p : Parser) (b : Bytes) → measure (extend p b) ≡ measure p + 2 * length b
  measure-extend p b = omega (arith, length-append p.unread b)

  pub run-measure :
      (f : ℕ) (p : Parser) {p' : Parser} {cs : List Command}
      → run f max_frame p ≡ ready p' cs
      → measure p' ≤ measure p
  run-measure zero p h = cc (run_zero p)
  run-measure (suc f) p h = elim (Round-cases (round max_frame p)) [
    | inl e ↦ omega (arith, ap measure (ready-injective (sym (run-wait max_frame f p e) ∙ h)).0)
    | inr (inl (q, e)) ↦
        let less = continue-measure p q e in
        let rec = run-measure f q (sym (run-continue max_frame f p e) ∙ h) in omega arith
    | inr (inr (inl (c, q, e))) ↦
        let less = command-measure p q c e in
        let (ds, e', _) = prepend-eq-ready c _ (sym (run-command max_frame f p e) ∙ h) in
        let rec = run-measure f q e' in omega arith
    | inr (inr (inr (m, e))) ↦ cc (run-reject max_frame f p e)
  ]

  -- What has run on the bytes so far runs in the same way when `b` stands behind them, and goes on
  -- from where it waited.
  pub run-extend :
      (f g : ℕ) (p : Parser) (b : Bytes) {p' : Parser} {cs : List Command}
      → run f max_frame p ≡ ready p' cs
      → measure (extend p b) < g
      → run g max_frame (extend p b) ≡ prepend_all cs (run g max_frame (extend p' b))
  run-extend zero g p b h k = cc (run_zero p)
  run-extend (suc f) zero p b h k = absurd (omega arith)
  run-extend (suc f) (suc g) p b {p'} {cs} h k = elim (Round-cases (round max_frame p)) [
    | inl e ↦
        let (same, nil) = ready-injective (sym (run-wait max_frame f p e) ∙ h) in rw (← same, ← nil)
    | inr (inl (q, e)) ↦
        let go : run f max_frame q ≡ ready p' cs = sym (run-continue max_frame f p e) ∙ h in
        let less = continue-measure p q e in
        let mono = run-measure f q go in
        let more = extended p b (cc) e in
        rw
          (
            run-continue max_frame g (extend p b) more,
            run-extend f g q b go (omega (arith, measure-extend)),
          )
          (ap (prepend_all cs) (
            run_fuel g (suc g) (extend p' b) (omega (arith, measure-extend))
              (omega (arith, measure-extend))))
    | inr (inr (inl (c, q, e))) ↦
        let (ds, go, same) = prepend-eq-ready c _ (sym (run-command max_frame f p e) ∙ h) in
        let less = command-measure p q c e in
        let mono = run-measure f q go in
        let more = extended p b (cc) e in
        rw
          (
            same,
            run-command max_frame g (extend p b) more,
            run-extend f g q b go (omega (arith, measure-extend)),
          )
          (ap (λ o. prepend c (prepend_all ds o))
            (run_fuel g (suc g) (extend p' b) (omega (arith, measure-extend))
              (omega (arith, measure-extend))))
    | inr (inr (inr (m, e))) ↦ cc (run-reject max_frame f p e)
  ]

-- ===== src/Process/Shards/Progress.antt =====
-- No schedule of the threads' steps is stuck: src/core/shard.cpp.
use hermitdb.Prelude.{
  ℕ, zero, suc, ◌+◌, ◌≤◌, ◌≡◌, ◌⊎◌, inl, inr, refl, ap, sym, ◌∙◌, List, [], ◌∷◌, none, some, Bytes,
  get_elem?, length, arith, Option-cases,
}
use mathlib.Core.Path.{subst}
use hermitdb.Core.Fault.{Result, ret, fault}
use hermitdb.Core.Server.{Host, Server}
use hermitdb.Process.Shards.{
  Call, Phase, Worker, Shards, and_then, step_in, step_of, step, run_steps, started,
}
use hermitdb.Process.Shards.Exclusion.{Exclusive}
use hermitdb.Process.Shards.Programs.{to_come}
use hermitdb.Process.Shards.Refines.{Simulates, step-Simulates, idle-outside}
use hermitdb.Process.Shards.Moves.{work, Held, Inside, Moves, within-Moves, calls-Moves}

module _ {h : Host} where
  -- a step of a thread that is known
  step-there :
      (i : ℕ) (sh : Shards h) (w : Worker h)
      → get_elem? sh.workers i ≡ some w
      → step i sh ≡ step_in i w sh w.calls w.phase sh.lock
  unfolding step
  step-there i sh w there = ap (step_of i sh) there

  step-cases : (i : ℕ) (sh : Shards h) → Exclusive sh → (step i sh ≡ ret sh) ⊎ Moves sh (step i sh)
  unfolding step
  step-cases i sh fine = elim (Option-cases (get_elem? sh.workers i)) [
    | inl e ↦ inl (ap (step_of i sh) e)
    | inr (w, e) ↦ go w.calls w.phase w.replies e
  ]
    where
      go :
          (calls : List Call) (p : Phase h) (replies : List Bytes)
          → get_elem? sh.workers i ≡ some (record { calls = calls; phase = p; replies = replies })
          → (step_of i sh (get_elem? sh.workers i) ≡ ret sh)
            ⊎ Moves sh (step_of i sh (get_elem? sh.workers i))
      go [] p replies there = inl (ap (step_of i sh) there)
      go (c ∷ calls) p replies there = elim (calls-Moves i sh fine c calls replies p there) [
        | inl (still, _, _) ↦ inl (ap (step_of i sh) there ∙ still)
        | inr moves ↦ inr (subst (λ o. Moves sh (step_of i sh o)) (sym there) moves)
      ]

  -- what every step keeps
  abbrev Good : Result (Shards h) → Type 0
  Good (ret sh) = Exclusive sh × Held sh
  Good (fault f) = Unit

  step-Good : (i : ℕ) (sh : Shards h) → Exclusive sh → Held sh → Good (step i sh)
  step-Good i sh fine held = go (step i sh) (step-Simulates i sh fine) (step-cases i sh fine)
    where
      go : (r : Result (Shards h)) → Simulates i sh r → (r ≡ ret sh) ⊎ Moves sh r → Good r
      go (fault f) e moves = tt
      go (ret sh') (f, e) (inr (kept, less)) = (f, kept)
      go (ret sh') (f, e) (inl same) = subst (λ r. Good r) (sym same) (fine, held)

  run_steps-Good :
      (schedule : List ℕ) (sh : Shards h) → Exclusive sh → Held sh → Good (run_steps schedule sh)
  unfolding run_steps
  run_steps-Good [] sh fine held = (fine, held)
  run_steps-Good (i ∷ schedule) sh fine held =
      go (step i sh) (step-Good i sh fine held) (run_steps-Good schedule)
    where
      go :
          (r : Result (Shards h))
          → Good r
          → ((sh : Shards h) → Exclusive sh → Held sh → Good (run_steps schedule sh))
          → Good (and_then r (run_steps schedule))
      go (ret sh') (f, kept) more = more sh' f kept
      go (fault f) good more = tt

  -- a thread with a call to come, if there is one
  next_thread :
      (ws : List (Worker h))
      → (to_come ws ≡ 0)
        ⊎ ((i : ℕ) × (c : Call) × (calls : List Call) × (p : Phase h) × (replies : List Bytes)
            × (get_elem? ws i ≡ some (record { calls = c ∷ calls; phase = p; replies = replies })))
  unfolding to_come
  next_thread [] = inl refl
  next_thread (w ∷ ws) = go w.calls w.phase w.replies (next_thread ws)
    where
      go :
          (l : List Call) (p : Phase h) (replies : List Bytes)
          → (to_come ws ≡ 0)
            ⊎ ((i : ℕ) × (c : Call) × (calls : List Call) × (p : Phase h) × (replies : List Bytes)
                × (get_elem? ws i
                    ≡ some (record { calls = c ∷ calls; phase = p; replies = replies })))
          → (length l + to_come ws ≡ 0)
            ⊎ ((i : ℕ) × (c : Call) × (calls : List Call) × (q : Phase h) × (rs : List Bytes)
                × (get_elem? (record { calls = l; phase = p; replies = replies } ∷ ws) i
                    ≡ some (record { calls = c ∷ calls; phase = q; replies = rs })))
      go [] p replies (inl none') = inl (omega (arith, none'))
      go [] p replies (inr (i, c, calls, q, rs, e)) = inr (suc i, c, calls, q, rs, e)
      go (c ∷ calls) p replies more = inr (0, c, calls, p, replies, refl)

  -- some thread moves, if a call is to come
  movable :
      (sh : Shards h)
      → Exclusive sh
      → Held sh
      → (to_come sh.workers ≡ 0) ⊎ ((i : ℕ) × Moves sh (step i sh))
  movable sh fine held = elim (next_thread sh.workers) [
    | inl over' ↦ inl over'
    | inr (i, c, calls, p, replies, there) ↦ elim (calls-Moves i sh fine c calls replies p there) [
      | inr moves ↦ inr (i, subst (Moves sh) (sym (step-there i sh _ there)) moves)
      | inl (_, j, locked) ↦
          let (w, at_j, inside) = held j locked in
          inr (
            j,
            subst (Moves sh) (sym (step-there j sh w at_j))
                (holder j w.calls w.phase w.replies at_j inside),
          )
    ]
  ]
    where
      holder :
          (j : ℕ) (calls : List Call) (p : Phase h) (replies : List Bytes)
          → get_elem? sh.workers j ≡ some (record { calls = calls; phase = p; replies = replies })
          → Inside calls p
          → Moves sh (
              step_in j (record { calls = calls; phase = p; replies = replies }) sh calls p sh.lock)
      holder j [] p replies there inside = absurd inside
      holder j (c ∷ calls) p replies there inside =
          within-Moves j sh fine c calls replies p inside there

  -- all calls are made, or one of them has faulted
  abbrev pub Finished : Result (Shards h) → Type 0
  Finished (ret sh) = to_come sh.workers ≡ 0
  Finished (fault f) = Unit

  finish :
      (fuel : ℕ) (sh : Shards h)
      → Exclusive sh
      → Held sh
      → work sh.workers ≤ fuel
      → (more : List ℕ) × Finished (run_steps more sh)
  unfolding run_steps
  finish zero sh fine held few = elim (movable sh fine held) [
    | inl over' ↦ ([], over')
    | inr (i, moves) ↦ (i ∷ [], last (step i sh) moves)
  ]
    where
      last : (r : Result (Shards h)) → Moves sh r → Finished (and_then r (run_steps []))
      last (fault f) moves = tt
      last (ret sh') (kept, less) = absurd (omega (arith, less, few))
  finish (suc fuel) sh fine held few = elim (movable sh fine held) [
    | inl over' ↦ ([], over')
    | inr (i, moves) ↦
        let (more, done) =
          go (step i sh) moves (step-Good i sh fine held) (λ sh' f k l. finish fuel sh' f k l) in
        (i ∷ more, done)
  ]
    where
      go :
          (r : Result (Shards h))
          → Moves sh r
          → Good r
          → ((sh' : Shards h)
              → Exclusive sh'
              → Held sh'
              → work sh'.workers ≤ fuel
              → (more : List ℕ) × Finished (run_steps more sh'))
          → (more : List ℕ) × Finished (and_then r (run_steps more))
      go (fault f) moves good rest = ([], tt)
      go (ret sh') (kept, less) (f, held') rest = rest sh' f held' (omega (arith, less, few))

-- From every state that the threads' steps can reach, the steps can be scheduled so that all calls are
-- made, or a call faults: no schedule leaves the threads waiting for each other.
pub progress_lem :
    {h : Host} (schedule : List ℕ) (s : Server h) (programs : List (List Call)) (sh : Shards h)
    → run_steps schedule (started s programs) ≡ ret sh
    → (more : List ℕ) × Finished (run_steps more sh)
progress_lem schedule s programs sh e =
    let (fine, held) = subst Good e (
      run_steps-Good schedule (started s programs)
        (λ j w there. idle-outside programs none s j j w there) (λ i p. cc)) in
    finish (work sh.workers) sh fine held (omega arith)

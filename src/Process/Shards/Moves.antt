-- ===== src/Process/Shards/Moves.antt =====
-- What a step of a thread changes: src/core/shard.cpp.
use hermitdb.Prelude.{
  ℕ, zero, suc, ◌+◌, ◌*◌, ◌≡◌, ◌⊎◌, inl, inr, refl, ap, sym, ◌∙◌, List, [], ◌∷◌, none, some, Bytes,
  Bool, get_elem?, set, get_elem?-set, get_elem?-lt, length, arith, Option-cases,
}
use mathlib.Core.Path.{subst}
use hermitdb.Core.Fault.{Result, ret, fault}
use hermitdb.Core.Server.{Host, Server}
use hermitdb.Process.Shards.{
  Call, Phase, outside, entered, loaded, stored, Worker, Shards, body, over, written, step_in,
}
use hermitdb.Process.Shards.Exclusion.{Exclusive}

some-number : {i k : ℕ} → some i ≡ some k → i ≡ k
some-number e = ground (arith, e)

module _ {h : Host} where
  -- the steps that a thread has to make
  abbrev pub work_in : List Call → Phase h → ℕ
  work_in [] p = 0
  work_in (c ∷ calls) outside = 4 + length calls * 4
  work_in (c ∷ calls) entered = 3 + length calls * 4
  work_in (c ∷ calls) (loaded s) = 2 + length calls * 4
  work_in (c ∷ calls) (stored r) = 1 + length calls * 4

  pub work : List (Worker h) → ℕ
  work [] = 0
  work (w ∷ ws) = work_in w.calls w.phase + work ws

  work-set :
      (ws : List (Worker h)) (i : ℕ) (w v : Worker h)
      → get_elem? ws i ≡ some w
      → work_in w.calls w.phase ≡ suc (work_in v.calls v.phase)
      → work ws ≡ suc (work (set ws i v))
  unfolding work
  work-set [] i w v e less = cc
  work-set (u ∷ ws) zero w v e less =
      let same : work_in u.calls u.phase ≡ work_in w.calls w.phase =
        ap (λ o. elim o [ none ↦ 0 | some x ↦ work_in x.calls x.phase ]) e in
      omega (arith, same, less)
  work-set (u ∷ ws) (suc i) w v e less = omega (arith, work-set ws i w v e less)

  -- a thread that has begun a call
  abbrev pub Inside : List Call → Phase h → Type 0
  Inside [] p = ⊥
  Inside (c ∷ calls) outside = ⊥
  Inside (c ∷ calls) entered = Unit
  Inside (c ∷ calls) (loaded s) = Unit
  Inside (c ∷ calls) (stored r) = Unit

  -- the thread that has the lock has begun a call
  abbrev pub Held : Shards h → Type 0
  Held sh =
      (i : ℕ)
      → sh.lock ≡ some i
      → (w : Worker h) × (get_elem? sh.workers i ≡ some w) × Inside w.calls w.phase

  -- a step that is made
  abbrev pub Moves : Shards h → Result (Shards h) → Type 0
  Moves sh (ret sh') = Held sh' × (work sh.workers ≡ suc (work sh'.workers))
  Moves sh (fault f) = Unit

  written-Held :
      (i k : ℕ) (ws : List (Worker h)) (w v : Worker h)
      → get_elem? ws i ≡ some w
      → i ≡ k
      → Inside v.calls v.phase
      → (u : Worker h) × (get_elem? (set ws i v) k ≡ some u) × Inside u.calls u.phase
  written-Held i k ws w v there same inside =
      (v, get_elem?-set ws i k v (get_elem?-lt ws i there) ∙ ground (arith, same), inside)

  module _ (i : ℕ) (sh : Shards h) (fine : Exclusive sh) (c : Call) (calls : List Call)
      (replies : List Bytes) where
    abbrev at : Phase h → Worker h
    at p = record { calls = c ∷ calls; phase = p; replies = replies }

    over-work : (reply : List Bytes) → work_in calls outside ≡ length calls * 4
    over-work reply = go calls
      where
        go : (l : List Call) → work_in l outside ≡ length l * 4
        go [] = refl
        go (d ∷ l) = omega arith

    written-Moves :
        (r : Result ((List Bytes × Bool) × Server h)) (s : Server h)
        → get_elem? sh.workers i ≡ some (at (loaded s))
        → Moves sh (written i (at (loaded s)) sh r)
    written-Moves (fault f) s there = tt
    written-Moves (ret ((reply, stop), t)) s there = (
      λ k e.
          written-Held i k sh.workers (at (loaded s)) (at (stored reply)) there
            (some-number (sym (fine i (at (loaded s)) there).0 ∙ e)) tt,
      work-set sh.workers i (at (loaded s)) (at (stored reply)) there (omega arith),
    )

    pub within-Moves :
        (p : Phase h)
        → Inside (c ∷ calls) p
        → get_elem? sh.workers i ≡ some (at p)
        → Moves sh (step_in i (at p) sh (c ∷ calls) p sh.lock)
    within-Moves outside inside there = absurd inside
    within-Moves entered inside there = (
      λ k e.
          written-Held i k sh.workers (at entered) (at (loaded sh.server)) there
            (some-number (sym (fine i (at entered) there) ∙ e)) tt,
      work-set sh.workers i (at entered) (at (loaded sh.server)) there (omega arith),
    )
    within-Moves (loaded s) inside there = written-Moves (body c s) s there
    within-Moves (stored reply) inside there = (
      λ k e. cc,
      work-set sh.workers i (at (stored reply)) (over (at outside) calls reply) there
          (omega (arith, over-work reply)),
    )

    enter-Moves :
        get_elem? sh.workers i ≡ some (at outside)
        → Moves sh (step_in i (at outside) sh (c ∷ calls) outside none)
    enter-Moves there = (
      λ k e. written-Held i k sh.workers (at outside) (at entered) there (some-number e) tt,
      work-set sh.workers i (at outside) (at entered) there (omega arith),
    )

    -- a thread with a call to come either waits for the lock or moves
    pub calls-Moves :
        (p : Phase h)
        → get_elem? sh.workers i ≡ some (at p)
        → (step_in i (at p) sh (c ∷ calls) p sh.lock ≡ ret sh × (j : ℕ) × (sh.lock ≡ some j))
          ⊎ Moves sh (step_in i (at p) sh (c ∷ calls) p sh.lock)
    calls-Moves entered there = inr (within-Moves entered tt there)
    calls-Moves (loaded s) there = inr (within-Moves (loaded s) tt there)
    calls-Moves (stored r) there = inr (within-Moves (stored r) tt there)
    calls-Moves outside there = elim (Option-cases sh.lock) [
      | inl free ↦ inr (
          subst (λ l. Moves sh (step_in i (at outside) sh (c ∷ calls) outside l)) (sym free)
            (enter-Moves there))
      | inr (j, held) ↦ inl (ap (step_in i (at outside) sh (c ∷ calls) outside) held, j, held)
    ]

-- ===== src/Process/Shards/Exclusion.antt =====
-- Mutual exclusion of the threads of `start_and_run`: src/core/shard.cpp.
use hermitdb.Prelude.{
  ℕ, ◌≡◌, ◌≢◌, inl, inr, sym, ◌∙◌, List, Option, none, some, Bool, get_elem?, set, get_elem?-set,
  get_elem?-lt, ◌==◌, arith, Bool-cases,
}
use mathlib.Core.Path.{subst}
use hermitdb.Core.Server.{Host, Server}
use hermitdb.Process.Shards.{Phase, outside, entered, loaded, stored, Worker, Shards}

some-injective : {A : Type 0} {a b : A} → some a ≡ some b → a ≡ b
some-injective e = ground (arith, e)

module _ {h : Host} where
  -- A thread inside a call has the lock, and its copy is the shared state.
  abbrev pub Fine : Option ℕ → Server h → ℕ → Phase h → Type 0
  Fine lock s j outside = Unit
  Fine lock s j entered = lock ≡ some j
  Fine lock s j (loaded t) = (lock ≡ some j) × (t ≡ s)
  Fine lock s j (stored reply) = lock ≡ some j

  -- so stands each thread
  abbrev pub Exclusive : Shards h → Type 0
  Exclusive sh =
      (j : ℕ) (w : Worker h) → get_elem? sh.workers j ≡ some w → Fine sh.lock sh.server j w.phase

  -- nobody has the lock
  pub free-Fine :
      (l : Option ℕ) (s t : Server h) (j : ℕ) (p : Phase h) → Fine none s j p → Fine l t j p
  free-Fine l s t j outside f = tt
  free-Fine l s t j entered f = cc
  free-Fine l s t j (loaded u) f = cc (f.0)
  free-Fine l s t j (stored r) f = cc

  -- another thread has the lock
  pub held-Fine :
      (l : Option ℕ) (s t : Server h) (i j : ℕ) (p : Phase h)
      → i ≢ j
      → Fine (some i) s j p
      → Fine l t j p
  held-Fine l s t i j outside other f = tt
  held-Fine l s t i j entered other f = absurd (other (ground (arith, f)))
  held-Fine l s t i j (loaded u) other f = absurd (other (ground (arith, f.0)))
  held-Fine l s t i j (stored r) other f = absurd (other (ground (arith, f)))

  -- a step of one thread
  pub standing-Exclusive :
      (sh : Shards h) (i : ℕ) (w w' : Worker h) (l : Option ℕ) (s : Server h) (stops : List Bool)
      → get_elem? sh.workers i ≡ some w
      → Fine l s i w'.phase
      → ((j : ℕ) (v : Worker h) → i ≢ j → Fine sh.lock sh.server j v.phase → Fine l s j v.phase)
      → Exclusive sh
      → Exclusive (record { server = s; lock = l; stops = stops; workers = set sh.workers i w' })
  standing-Exclusive sh i w w' l s stops there mine others fine j v found =
      let seen = sym (get_elem?-set sh.workers i j w' (get_elem?-lt sh.workers i there)) ∙ found in
      elim (Bool-cases (i == j)) [
        | inl e ↦
            let this : some w' ≡ some v = rw e at seen in
            let same : i ≡ j = ground (arith, e) in
            subst (λ k. Fine l s k v.phase) same
              (subst (λ x. Fine l s i x.phase) (some-injective this) mine)
        | inr e ↦ others j v (λ p. ground (arith, e, p)) (fine j v (rw e at seen))
      ]

-- ===== src/Process/Shards/Programs.antt =====
-- Threads that only call INCR with one key, and the calls that they have not made.
use hermitdb.Prelude.{
  ℕ, zero, suc, ◌+◌, ◌≡◌, refl, ap, List, [], ◌∷◌, none, some, Bytes, map, get_elem?, set, length,
  arith,
}
use mathlib.Core.Path.{subst}
use hermitdb.Core.Server.{Host}
use hermitdb.Process.Counter.{incr}
use hermitdb.Process.Shards.{Call, handle, Worker, idle}

-- only INCRs of this key
abbrev pub AllIncr : Bytes → List Call → Type 0
AllIncr key [] = Unit
AllIncr key (c ∷ calls) = (c ≡ handle (incr key)) × AllIncr key calls

-- so in each program
abbrev pub EachIncr : Bytes → List (List Call) → Type 0
EachIncr key [] = Unit
EachIncr key (calls ∷ programs) = AllIncr key calls × EachIncr key programs

unfoldable pub total : List (List Call) → ℕ
total [] = 0
total (calls ∷ programs) = length calls + total programs

module _ {h : Host} where
  -- the calls that the threads have not made
  unfoldable pub to_come : List (Worker h) → ℕ
  to_come [] = 0
  to_come (w ∷ ws) = length w.calls + to_come ws

  abbrev pub WorkersIncr : Bytes → List (Worker h) → Type 0
  WorkersIncr key [] = Unit
  WorkersIncr key (w ∷ ws) = AllIncr key w.calls × WorkersIncr key ws

  -- a thread with a call to come, and the state behind this call
  pub next_call :
      (key : Bytes) (ws : List (Worker h)) (i : ℕ) (w : Worker h)
      → WorkersIncr key ws
      → get_elem? ws i ≡ some w
      → AllIncr key w.calls
  next_call key [] i w all e = cc
  next_call key (v ∷ ws) zero w all e =
      subst (λ o. elim o [ none ↦ Unit | some u ↦ AllIncr key u.calls ]) e all.0
  next_call key (v ∷ ws) (suc i) w all e = next_call key ws i w all.1 e

  pub WorkersIncr-set :
      (key : Bytes) (ws : List (Worker h)) (i : ℕ) (w : Worker h)
      → WorkersIncr key ws
      → AllIncr key w.calls
      → WorkersIncr key (set ws i w)
  WorkersIncr-set key [] i w all mine = tt
  WorkersIncr-set key (v ∷ ws) zero w all mine = (mine, all.1)
  WorkersIncr-set key (v ∷ ws) (suc i) w all mine = (all.0, WorkersIncr-set key ws i w all.1 mine)

  pub to_come-set :
      (ws : List (Worker h)) (i : ℕ) (w v : Worker h)
      → get_elem? ws i ≡ some w
      → length w.calls ≡ suc (length v.calls)
      → to_come ws ≡ suc (to_come (set ws i v))
  unfolding to_come
  to_come-set [] i w v e shorter = cc
  to_come-set (u ∷ ws) zero w v e shorter =
      let same : length u.calls ≡ length w.calls =
        ap (λ o. elim o [ none ↦ 0 | some x ↦ length x.calls ]) e in
      omega (arith, same, shorter)
  to_come-set (u ∷ ws) (suc i) w v e shorter = omega (arith, to_come-set ws i w v e shorter)

pub to_come-idle :
    (h : Host) (programs : List (List Call))
    → to_come (map (idle {h = h}) programs) ≡ total programs
unfolding to_come total
to_come-idle h [] = refl
to_come-idle h (calls ∷ programs) = omega (arith, to_come-idle h programs)

pub idle-WorkersIncr :
    (h : Host) (key : Bytes) (programs : List (List Call))
    → EachIncr key programs
    → WorkersIncr key (map (idle {h = h}) programs)
idle-WorkersIncr h key [] each = tt
idle-WorkersIncr h key (calls ∷ programs) each = (each.0, idle-WorkersIncr h key programs each.1)

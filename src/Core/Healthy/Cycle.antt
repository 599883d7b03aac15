-- ===== src/Core/Healthy/Cycle.antt =====
-- The active cycle on a healthy server: ExpiryManager::active_cycle of src/core/expiry.cpp.
use hermitdb.Prelude.{
  ℕ, zero, suc, ◌+◌, ◌-◌, ◌≤◌, ◌<◌, ◌≡◌, ◌≢◌, refl, sym, ap, Option, none, some, length, get_elem?,
  Bool, true, false, not, ◌&&◌, arith, if◌then◌else◌, get_elem?-some,
}
use mathlib.Core.Path.{subst}
use hermitdb.Prelude.Int.{ℤ, checked, ◌+ℤ◌, ltb_ℤ}
use hermitdb.Prelude.Map.{erase}
use hermitdb.Core.Fault.{Result, ret, fault, signed_overflow}
use hermitdb.Core.Expiry.{Slot, untrack}
use hermitdb.Core.Expiry.Consistent.{length-untrack}
use hermitdb.Core.Server.{Host, Server, M, ◌>>=◌, pure, demand, get_expiry, wall_ms, expire}
use hermitdb.Core.Server.Touch.{Answers, expire-Leaves}
use hermitdb.Core.Server.Cycle.{
  Stats, Sample, no_slots, rounds_target, clean_enough, counted, start, sample_slot, sample_one,
  sample_loop, cycle_loop, active_cycle, micros_now,
}
use hermitdb.Core.Healthy.{drop-IsHealthy}
use hermitdb.Core.Healthy.Steps.{Healthy}

-- The generator draws a number up to its bound.
abbrev pub Draws : Host → Type 0
Draws h = (i last : ℕ) → h.pick i last ≤ last

module _ {h : Host} where
  -- What was expired and what is left are `size` slots.
  abbrev Kept : ℕ → Result (Sample × Server h) → Type 0
  Kept size (ret (n, s)) = Healthy s × (n.dead + length s.expiry.slots ≡ size)
  Kept size (fault f) = ⊥

  bind-Kept :
      (size : ℕ) (r : Result (Sample × Server h)) (f : Sample → M h Sample)
      → Kept size r
      → ((n : Sample) (s : Server h)
          → Healthy s
          → n.dead + length s.expiry.slots ≡ size
          → Kept size (f n s))
      → Kept size (elim r [ ret (n, s) ↦ f n s | fault e ↦ fault e ])
  bind-Kept size (ret (n, s)) f (ok, e) k = k n s ok e
  bind-Kept size (fault e) f ok k = elim ok [ ]

  -- The cycle ends, and leaves a healthy server, or an `int64_t` overflows.
  abbrev pub Ends : Result (Option Stats × Server h) → Type 0
  Ends (ret (o, s)) = Healthy s × (o ≢ none)
  Ends (fault f) = f ≡ signed_overflow

  module _ (answers : Answers h) (draws : Draws h) where
    sample_slot-Kept :
        (now : ℤ) (n : Sample) (i : ℕ) (slot : Slot) (s : Server h)
        → Healthy s
        → get_elem? s.expiry.slots i ≡ some slot
        → Kept (n.dead + length s.expiry.slots) (sample_slot {h = h} now n (some slot) s)
    sample_slot-Kept now n i slot s ok there = go (ltb_ℤ now slot.at_ms)
      where
        go :
            (b : Bool)
            → Kept (n.dead + length s.expiry.slots) (
                if b
                then ret (record n { taken = suc n.taken }, s)
                else (expire {h = h} slot.key >>= λ _.
                      pure (record { taken = suc n.taken; dead = suc n.dead }))
                    s)
        go true = (ok, refl)
        go false =
            let (s', e, db, table) = expire-Leaves answers slot.key s in
            let after : Result (Bool × Server h) → Result (Sample × Server h) =
              λ r. ((λ _. r) >>= λ _. pure (record { taken = suc n.taken; dead = suc n.dead })) s in
            let less =
              length-untrack slot.key s.expiry i ok.consistent
                (ok.consistent.backward i slot there) in
            subst (λ r. Kept (n.dead + length s.expiry.slots) (after r)) (sym e)
              (kept s' db table, omega (arith, less, ap (λ x. length x.slots) table))
          where
            kept :
                (s' : Server h)
                → s'.db ≡ erase slot.key s.db
                → s'.expiry ≡ (untrack slot.key s.expiry).1
                → Healthy s'
            kept s' db table = rw (db, table) (drop-IsHealthy ok slot.key)

    sample_one-Kept :
        (now : ℤ) (n : Sample) (s : Server h)
        → Healthy s
        → no_slots s.expiry ≡ false
        → Kept (n.dead + length s.expiry.slots) (sample_one {h = h} now n s)
    unfolding sample_one
    sample_one-Kept now n s ok some_slots =
        let last = length s.expiry.slots - 1 in
        let i = h.pick s.draws last in
        let s' : Server h = record s { draws = suc s.draws } in
        let (slot, there) =
          get_elem?-some s.expiry.slots i (ground (arith, some_slots, draws s.draws last)) in
        subst (λ o. Kept (n.dead + length s.expiry.slots) (sample_slot now n o s')) (sym there)
          (sample_slot-Kept now n i slot s' ok there)

    -- one pass of the loop over the samples, and `loop` behind it
    sample_step-Kept :
        (now : ℤ) (n : Sample) (s : Server h) (b : Bool) (loop : Sample → M h Sample)
        → Healthy s
        → no_slots s.expiry ≡ b
        → ((n : Sample) (s : Server h)
            → Healthy s
            → Kept (n.dead + length s.expiry.slots) (loop n s))
        → Kept
            (n.dead + length s.expiry.slots)
            (elim b [ true ↦ ret (n, s) | false ↦ (sample_one {h = h} now n >>= λ n'. loop n') s ])
    sample_step-Kept now n s true loop ok e k = (ok, refl)
    sample_step-Kept now n s false loop ok e k =
        bind-Kept (n.dead + length s.expiry.slots) (sample_one now n s) (λ n'. loop n')
          (sample_one-Kept now n s ok e) (λ n' t l same. rw same at (k n' t l))

    sample_loop-Kept :
        (i : ℕ) (now : ℤ) (n : Sample) (s : Server h)
        → Healthy s
        → Kept (n.dead + length s.expiry.slots) (sample_loop {h = h} i now n s)
    unfolding sample_loop
    sample_loop-Kept zero now n s ok = (ok, refl)
    sample_loop-Kept (suc i) now n s ok =
        sample_step-Kept now n s (no_slots s.expiry) (λ n'. sample_loop i now n') ok refl
          (λ n' t k. sample_loop-Kept i now n' t k)

  -- what follows the samples of a round, with `again` for the next round
  rest_of_round : ℤ → Stats → (Stats → M h (Option Stats)) → Sample → M h (Option Stats)
  rest_of_round deadline t again n s = elim (clean_enough n) [
    | true ↦ ret (some (counted t n), s)
    | false ↦
        (do
          micros ← micros_now
          e ← get_expiry
          elim (ltb_ℤ micros deadline && not (no_slots e)) [
            | true ↦ again (counted t n)
            | false ↦ pure (some (counted t n))
          ])
          s
  ]

  rest_of_round-Ends :
      (deadline : ℤ) (t : Stats) (again : Stats → M h (Option Stats)) (n : Sample) (s : Server h)
      (size : ℕ)
      → Healthy s
      → n.dead + length s.expiry.slots ≡ size
      → ((t : Stats) (s : Server h) → Healthy s → length s.expiry.slots < size → Ends (again t s))
      → Ends (rest_of_round deadline t again n s)
  unfolding rest_of_round
  rest_of_round-Ends deadline t again n s size ok same k =
      go (clean_enough n) refl
        (ltb_ℤ (h.micros s.micro_readings) deadline && not (no_slots s.expiry))
    where
      s' : Server h
      s' = record s { micro_readings = suc s.micro_readings }

      go :
          (b : Bool)
          → clean_enough n ≡ b
          → (c : Bool)
          → Ends (elim b [
            | true ↦ ret (some (counted t n), s)
            | false ↦
                (elim c as (λ _. M h (Option Stats)) [
                  | true ↦ again (counted t n)
                  | false ↦ pure (some (counted t n))
                ])
                  s'
          ])
      go true e c = (ok, λ p. cc)
      go false e true = k (counted t n) s' ok (ground (arith, same))
      go false e false = (ok, λ p. cc)

  module _ (answers : Answers h) (draws : Draws h) where
    round-Ends :
        (r : Result (Sample × Server h)) (size : ℕ) (f : Sample → M h (Option Stats))
        → Kept size r
        → ((n : Sample) (s : Server h)
            → Healthy s
            → n.dead + length s.expiry.slots ≡ size
            → Ends (f n s))
        → Ends (elim r [ fault f ↦ fault f | ret (n, s) ↦ f n s ])
    round-Ends (ret (n, s)) size f (ok, same) k = k n s ok same
    round-Ends (fault e) size f kept k = elim kept [ ]

    cycle_loop-Ends :
        (fuel : ℕ) (deadline now : ℤ) (t : Stats) (s : Server h)
        → Healthy s
        → length s.expiry.slots < fuel
        → Ends (cycle_loop {h = h} fuel deadline now t s)
    unfolding cycle_loop rest_of_round
    cycle_loop-Ends zero deadline now t s ok few = absurd (omega (arith, few))
    cycle_loop-Ends (suc fuel) deadline now t s ok few =
        let fresh : Sample = record { taken = 0; dead = 0 } in
        let again = cycle_loop {h = h} fuel deadline now in
        round-Ends (sample_loop (rounds_target s.expiry) now fresh s) (0 + length s.expiry.slots)
          (rest_of_round deadline t again)
          (sample_loop-Kept answers draws (rounds_target s.expiry) now fresh s ok)
          (λ n s' k same.
            rest_of_round-Ends deadline t again n s' (0 + length s.expiry.slots) k same
              (λ t' u l less. cycle_loop-Ends fuel deadline now t' u l (omega (arith, few, less))))

    -- the rounds, once the end of the time is known
    timed-Ends :
        (o : Option ℤ) (s : Server h)
        → Healthy s
        → Ends (
            (do
              deadline ← demand {h = h} signed_overflow o
              now ← wall_ms
              cycle_loop (suc (length s.expiry.slots)) deadline now start)
              s)
    timed-Ends none s ok = refl
    timed-Ends (some deadline) s ok =
        cycle_loop-Ends (suc (length s.expiry.slots)) deadline (h.wall_ms s.readings) start
          (record s { readings = suc s.readings }) ok (omega arith)

    -- On a log whose appends return and a generator that keeps to its bound, and a server where no
    -- list is empty, the table of deadlines is consistent and only keys of the keyspace have deadlines,
    -- the active cycle ends, with its statistics, and leaves such a server, or an `int64_t` overflows:
    -- it reads no slot behind the last.
    pub active_cycle_lem :
        (budget_us : ℤ) (s : Server h) → Healthy s → Ends (active_cycle {h = h} budget_us s)
    unfolding active_cycle
    active_cycle_lem budget_us s ok = go _ (no_slots s.expiry) (
        timed-Ends (checked (h.micros s.micro_readings +ℤ budget_us))
          (record s { micro_readings = suc s.micro_readings }) ok)
      where
        go :
            (r : Result (Option Stats × Server h)) (b : Bool)
            → Ends r
            → Ends (if b then ret (some start, s) else r)
        go r true k = (ok, λ p. cc)
        go r false k = k

-- ===== src/Core/Server/Cycle.antt =====
-- Active expiry: ExpiryManager::active_cycle of src/core/expiry.cpp. The double quotient
-- `expired / sampled <= 0.25` of two counts up to 20 is `4 * expired <= sampled`.
use hermitdb.Prelude.{
  ℕ, zero, suc, ◌+◌, ◌-◌, ◌*◌, Option, none, some, length, get_elem?, Bool, true, false, not, ◌&&◌,
  ◌||◌, leb, ltb, ◌==◌, if◌then◌else◌,
}
use hermitdb.Prelude.Int.{ℤ, ◌+ℤ◌, ltb_ℤ, checked}
use hermitdb.Core.Fault.{ret, fault, out_of_bounds, signed_overflow}
use hermitdb.Core.Expiry.{Expiry, Slot}
use hermitdb.Core.Server.{Host, M, ◌>>=◌, pure, demand, get_expiry, wall_ms, expire}

pub record Stats : Type 0 where
  pub sampled : ℕ
  pub expired : ℕ
  pub rounds : ℕ
  pub not_implemented : Bool

-- the counts of one round
pub record Sample : Type 0 where
  pub taken : ℕ
  pub dead : ℕ

-- kSamplePerRound
abbrev pub sample_per_round : ℕ
sample_per_round = 20

abbrev pub no_slots : Expiry → Bool
no_slots e = length e.slots == 0

-- std::min(kSamplePerRound, slots_.size())
abbrev pub rounds_target : Expiry → ℕ
rounds_target e = if ltb (length e.slots) sample_per_round then length e.slots else sample_per_round

abbrev pub counted : Stats → Sample → Stats
counted t n = record t {
  sampled = t.sampled + n.taken;
  expired = t.expired + n.dead;
  rounds = suc t.rounds;
}

-- whether the loop stops before it looks at the time
abbrev pub clean_enough : Sample → Bool
clean_enough n = n.taken == 0 || leb (4 * n.dead) n.taken

abbrev pub start : Stats
start = record { sampled = 0; expired = 0; rounds = 0; not_implemented = false }

module _ {h : Host} where
  abbrev pub micros_now : M h ℤ
  micros_now s = ret (h.micros s.micro_readings, record s { micro_readings = suc s.micro_readings })

  -- `pick(rng_)` over 0 .. size - 1
  abbrev pub draw : ℕ → M h ℕ
  draw last s = ret (h.pick s.draws last, record s { draws = suc s.draws })

  abbrev pub sample_slot : ℤ → Sample → Option Slot → M h Sample
  sample_slot now n none s = fault out_of_bounds
  sample_slot now n (some slot) s =
      if ltb_ℤ now slot.at_ms
      then ret (record n { taken = suc n.taken }, s)
      else (expire slot.key >>= λ _. pure (record { taken = suc n.taken; dead = suc n.dead })) s

  -- one sample
  unfoldable pub sample_one : ℤ → Sample → M h Sample
  sample_one now n = do
    e ← get_expiry
    i ← draw (length e.slots - 1)
    sample_slot now n (get_elem? e.slots i)

  -- the `for` loop, with the rounds that are left
  unfoldable pub sample_loop : ℕ → ℤ → Sample → M h Sample
  unfolding sample_one
  sample_loop zero now n s = ret (n, s)
  sample_loop (suc i) now n s = elim (no_slots s.expiry) [
    | true ↦ ret (n, s)
    | false ↦ (sample_one now n >>= λ n'. sample_loop i now n') s
  ]

  -- The `do` loop; `none` where the fuel runs out.
  unfoldable pub cycle_loop : ℕ → ℤ → ℤ → Stats → M h (Option Stats)
  unfolding sample_loop
  cycle_loop zero deadline now t s = ret (none, s)
  cycle_loop (suc fuel) deadline now t s =
      elim (sample_loop (rounds_target s.expiry) now (record { taken = 0; dead = 0 }) s) [
        | fault f ↦ fault f
        | ret (n, s') ↦ elim (clean_enough n) [
          | true ↦ ret (some (counted t n), s')
          | false ↦
              (do
                micros ← micros_now
                e ← get_expiry
                elim (ltb_ℤ micros deadline && not (no_slots e)) [
                  | true ↦ cycle_loop fuel deadline now (counted t n)
                  | false ↦ pure (some (counted t n))
                ])
                s'
        ]
      ]

  -- A round after which the loop goes on has removed a slot, so the slots are enough fuel.
  unfoldable pub active_cycle : ℤ → M h (Option Stats)
  unfolding cycle_loop
  active_cycle budget_us s =
      if no_slots s.expiry
      then ret (some start, s)
      else (do
        micros ← micros_now
        deadline ← demand signed_overflow (checked (micros +ℤ budget_us))
        now ← wall_ms
        cycle_loop (suc (length s.expiry.slots)) deadline now start)
          s

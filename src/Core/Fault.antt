-- ===== src/Core/Fault.antt =====
-- What a C++ operation does that has no value to return: an exception that nobody catches, or
-- undefined behaviour. `hangs` is a system call that never returns.
use hermitdb.Prelude.{Option, none, some}

pub data Fault : Type 0 where
  bad_variant_access out_of_bounds signed_overflow hangs : Fault

pub data Result {ℓ} (A : Type ℓ) : Type ℓ where
  ret : A → Result A
  fault : Fault → Result A

-- The value, or the fault where there is none.
abbrev pub or_fault {ℓ} : {A : Type ℓ} → Fault → Option A → Result A
or_fault f none = fault f
or_fault f (some a) = ret a

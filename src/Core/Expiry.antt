-- ===== src/Core/Expiry.antt =====
-- The table of deadlines: class ExpiryManager of src/core/expiry.h and expiry.cpp, without the
-- eviction, which also changes the keyspace and the log. `slots` is the dense vector, `index` gives
-- the slot of each key.
pub mod Consistent
pub mod Arming
use hermitdb.Prelude.{
  ℕ, zero, suc, ◌-◌, List, [], ◌∷◌, ◌++◌, Option, none, some, Bytes, length, get_elem?, set, take,
  Bool, true, false, ◌==◌, if◌then◌else◌,
}
use hermitdb.Prelude.Int.{ℤ}
use hermitdb.Prelude.Map.{Map, find, put, erase}

pub record Slot : Type 0 where
  pub key : Bytes
  pub at_ms : ℤ

pub record Expiry : Type 0 where
  pub slots : List Slot
  pub index : Map ℕ

abbrev pub empty : Expiry
empty = record { slots = []; index = [] }

-- `slots_[slot] = std::move(slots_[last]); index_[slots_[slot].key] = slot;`
abbrev pub moved : ℕ → Expiry → Option Slot → Expiry
moved slot e none = e
moved slot e (some s) = record { slots = set e.slots slot s; index = put s.key slot e.index }

-- `slots_.pop_back(); index_.erase(it);`
abbrev pub popped : Bytes → Expiry → Expiry
popped key e = record { slots = take (length e.slots - 1) e.slots; index = erase key e.index }

-- The slot is filled with the last one, which goes.
pub removed : Bytes → ℕ → Expiry → Expiry
removed key slot e =
    let last = length e.slots - 1 in
    popped key (if slot == last then e else moved slot e (get_elem? e.slots last))

abbrev pub untracked : Bytes → Expiry → Option ℕ → Bool × Expiry
untracked key e none = (false, e)
untracked key e (some slot) = (true, removed key slot e)

unfoldable pub untrack : Bytes → Expiry → Bool × Expiry
unfolding removed
untrack key e = untracked key e (find key e.index)

-- `slots_[slot].at_ms = at_ms;`
abbrev pub rearmed : ℕ → ℤ → List Slot → List Slot
rearmed i t [] = []
rearmed zero t (s ∷ l) = record s { at_ms = t } ∷ l
rearmed (suc i) t (s ∷ l) = s ∷ rearmed i t l

-- `slots_[it->second].at_ms = at_ms;`, or a new slot behind the others
abbrev pub armed : Bytes → ℤ → Expiry → Option ℕ → Expiry
armed key at_ms e none = record {
  slots = e.slots ++ record { key = key; at_ms = at_ms } ∷ [];
  index = put key (length e.slots) e.index;
}
armed key at_ms e (some slot) = record e { slots = rearmed slot at_ms e.slots }

unfoldable pub set_expiry : Bytes → ℤ → Expiry → Expiry
set_expiry key at_ms e = armed key at_ms e (find key e.index)

unfoldable pub persist : Bytes → Expiry → Expiry
unfolding untrack
persist key e = (untrack key e).1

abbrev deadline_of : Option Slot → Option ℤ
deadline_of none = none
deadline_of (some s) = some s.at_ms

abbrev deadline_at : Expiry → Option ℕ → Option ℤ
deadline_at e none = none
deadline_at e (some slot) = deadline_of (get_elem? e.slots slot)

unfoldable pub expiry_at : Bytes → Expiry → Option ℤ
expiry_at key e = deadline_at e (find key e.index)

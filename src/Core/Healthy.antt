-- ===== src/Core/Healthy.antt =====
-- The keyspace and the table of deadlines between two commands: src/core/db.h and expiry.h.
pub mod Steps
pub mod Strings
pub mod Keys
pub mod Ttl
pub mod ListSteps
pub mod Lists
pub mod Whole
pub mod Cycle
use hermitdb.Prelude.{
  ◌≡◌, ◌≢◌, refl, sym, ◌∙◌, List, [], ◌∷◌, Option, none, some, Bytes, Bool, true, false, bytes_eq,
  bytes_eq_iff, if◌then◌else◌, arith, inl, inr, Option-cases, Bool-cases,
}
use hermitdb.Prelude.Int.{ℤ}
use hermitdb.Prelude.Map.{find, put, erase, find-put, find-erase}
use hermitdb.Core.Db.{Db, Entry, list, popped}
use hermitdb.Core.Db.Reachable.{NoEmptyList, put-NoEmptyList, erase-NoEmptyList}
use hermitdb.Core.Expiry.{Expiry, untrack, set_expiry, expiry_at}
use hermitdb.Core.Expiry.Consistent.{IsConsistent, untrack-IsConsistent, expiry_at-untrack}
use hermitdb.Core.Expiry.Arming.{set_expiry-IsConsistent, expiry_at-set_expiry}

-- A key that the keyspace does not hold has no deadline.
abbrev pub Covered : Db → Expiry → Type 0
Covered db e = (j : Bytes) → find j db ≡ none → expiry_at j e ≡ none

-- No list is empty, the table's vector and index agree, and only keys of the keyspace have deadlines.
pub record IsHealthy (db : Db) (e : Expiry) : Type 0 where
  pub full : NoEmptyList db
  pub consistent : IsConsistent e
  pub covered : Covered db e

module _ {db : Db} {e : Expiry} (s : IsHealthy db e) (key : Bytes) where
  -- the key is written
  pub put-IsHealthy : (v : Entry) → v ≢ list [] → IsHealthy (put key v db) e
  put-IsHealthy v proper = record {
    full = put-NoEmptyList key v db s.full proper;
    consistent = s.consistent;
    covered = λ j h. ground (arith, find-put key j v db, s.covered j);
  }

  -- the deadline goes
  pub untrack-IsHealthy : IsHealthy db (untrack key e).1
  untrack-IsHealthy = record {
    full = s.full;
    consistent = untrack-IsConsistent key e s.consistent;
    covered = λ j h. ground (arith, expiry_at-untrack key e s.consistent j, s.covered j);
  }

  -- the deadline is set on a key that there is
  pub arm-IsHealthy : (at : ℤ) → find key db ≢ none → IsHealthy db (set_expiry key at e)
  arm-IsHealthy at there = record {
    full = s.full;
    consistent = set_expiry-IsConsistent e s.consistent key at;
    covered = λ j h.
        ground
          (arith, expiry_at-set_expiry e s.consistent key at j, s.covered j, bytes_eq_iff key j);
  }

  -- the key goes, which has no deadline
  pub erase-IsHealthy : expiry_at key e ≡ none → IsHealthy (erase key db) e
  erase-IsHealthy h = record {
    full = erase-NoEmptyList key db s.full;
    consistent = s.consistent;
    covered = λ j k. ground (arith, find-erase key j db, s.covered j, bytes_eq_iff key j);
  }

  untracked_none : expiry_at key (untrack key e).1 ≡ none
  untracked_none = ground (arith, expiry_at-untrack key e s.consistent key, bytes_eq_iff key key)

-- the key goes with its deadline
pub drop-IsHealthy :
    {db : Db} {e : Expiry}
    → IsHealthy db e
    → (key : Bytes) → IsHealthy (erase key db) (untrack key e).1
drop-IsHealthy s key = erase-IsHealthy (untrack-IsHealthy s key) key (untracked_none s key)

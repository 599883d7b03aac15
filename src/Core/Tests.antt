-- ===== src/Core/Tests.antt =====
-- The keyspace, expiry and commands at concrete input.
use hermitdb.Prelude.{◌≡◌, refl, codes, some, none, if◌then◌else◌, bytes_eq}
use hermitdb.Prelude.Int.{pos}
use hermitdb.Prelude.Map.{find, put, erase}
use hermitdb.Core.Expiry.{Expiry, empty, untrack, set_expiry, expiry_at}
use hermitdb.Core.Expiry.Consistent.{
  IsConsistent, empty-IsConsistent, untrack-IsConsistent, expiry_at-untrack,
}
use hermitdb.Core.Expiry.Arming.{set_expiry-IsConsistent, expiry_at-set_expiry}

-- two deadlines
abbrev armed_twice : Expiry
armed_twice = set_expiry (codes "b") (pos 20) (set_expiry (codes "a") (pos 10) empty)

armed_twice-IsConsistent : IsConsistent armed_twice
armed_twice-IsConsistent =
    set_expiry-IsConsistent (set_expiry (codes "a") (pos 10) empty)
      (set_expiry-IsConsistent empty empty-IsConsistent (codes "a") (pos 10)) (codes "b") (pos 20)

set_expiry-IsConsistent_example : IsConsistent (set_expiry (codes "a") (pos 10) empty)
set_expiry-IsConsistent_example =
    set_expiry-IsConsistent empty empty-IsConsistent (codes "a") (pos 10)

untrack-IsConsistent_example : IsConsistent (untrack (codes "a") armed_twice).1
untrack-IsConsistent_example = untrack-IsConsistent (codes "a") armed_twice armed_twice-IsConsistent

expiry_at-untrack_example :
    expiry_at (codes "b") (untrack (codes "a") armed_twice).1
    ≡ (if bytes_eq (codes "a") (codes "b") then none else expiry_at (codes "b") armed_twice)
expiry_at-untrack_example =
    expiry_at-untrack (codes "a") armed_twice armed_twice-IsConsistent (codes "b")

expiry_at-set_expiry_example :
    expiry_at (codes "a") (set_expiry (codes "b") (pos 30) armed_twice) ≡ (
      if bytes_eq (codes "b") (codes "a") then some (pos 30) else expiry_at (codes "a") armed_twice)
expiry_at-set_expiry_example =
    expiry_at-set_expiry armed_twice armed_twice-IsConsistent (codes "b") (pos 30) (codes "a")

second_survives : expiry_at (codes "b") (untrack (codes "a") armed_twice).1 ≡ some (pos 20)
unfolding expiry_at untrack set_expiry find put erase bytes_eq
second_survives = refl

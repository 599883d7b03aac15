-- ===== src/Core/DbTests.antt =====
-- The keyspace at concrete input.
use hermitdb.Prelude.{◌≡◌, ◌≢◌, refl, List, [], ◌∷◌, codes, some, Bytes, take, drop, bytes_eq}
use hermitdb.Prelude.Int.{pos, negsuc}
use hermitdb.Prelude.Map.{find, put}
use hermitdb.Core.Fault.{ret, fault, out_of_bounds}
use hermitdb.Core.Db.{Db, set, str, list, lpush, rpush, lpop, rpop, list_range}
use hermitdb.Core.Db.Reachable.{
  Reachable, by_set, by_lpush, empty, Reachable-NoEmptyList, Reachable-ne-out_of_bounds,
}
use hermitdb.Core.Db.Ends.{lpush-lpop, rpush-rpop}
use hermitdb.Core.Db.Ranges.{first, behind, list_range_lem}

-- a string under "s", and a list of one element under "q"
abbrev mixed : Db
mixed = (codes "s", str (codes "v")) ∷ (codes "q", list (codes "a" ∷ [])) ∷ []

abbrev mixed_longer : Db
mixed_longer = (codes "s", str (codes "v")) ∷ (codes "q", list (codes "b" ∷ codes "a" ∷ [])) ∷ []

abbrev mixed_behind : Db
mixed_behind = (codes "s", str (codes "v")) ∷ (codes "q", list (codes "a" ∷ codes "b" ∷ [])) ∷ []

mixed-Reachable : Reachable mixed
unfolding lpush find put bytes_eq set
mixed-Reachable =
    by_lpush (codes "q") (codes "a") {n = 1} (by_set (codes "s") (codes "v") empty) refl

lpush-mixed : lpush (codes "q") (codes "b") mixed ≡ ret (2, mixed_longer)
unfolding lpush find put bytes_eq
lpush-mixed = refl

rpush-mixed : rpush (codes "q") (codes "b") mixed ≡ ret (2, mixed_behind)
unfolding rpush find put bytes_eq
rpush-mixed = refl

Reachable-ne-out_of_bounds_example :
    (lpop (codes "q") mixed ≢ fault out_of_bounds) × (rpop (codes "q") mixed ≢ fault out_of_bounds)
Reachable-ne-out_of_bounds_example = Reachable-ne-out_of_bounds mixed mixed-Reachable (codes "q")

lpush-lpop_example :
    (db : Db) × (lpop (codes "q") mixed_longer ≡ ret (some (codes "b"), db))
    × ((j : Bytes) → find j db ≡ find j mixed)
lpush-lpop_example =
    lpush-lpop (codes "q") (codes "b") 2 mixed mixed_longer
      (Reachable-NoEmptyList mixed mixed-Reachable) lpush-mixed

rpush-rpop_example :
    (db : Db) × (rpop (codes "q") mixed_behind ≡ ret (some (codes "b"), db))
    × ((j : Bytes) → find j db ≡ find j mixed)
rpush-rpop_example =
    rpush-rpop (codes "q") (codes "b") 2 mixed mixed_behind
      (Reachable-NoEmptyList mixed mixed-Reachable) rpush-mixed

abbrev three : List Bytes
three = codes "a" ∷ codes "b" ∷ codes "c" ∷ []

list_range_lem_example :
    list_range (negsuc 1) (pos 7) three ≡ drop (first 3 (negsuc 1)) (take (behind 3 (pos 7)) three)
list_range_lem_example = list_range_lem (negsuc 1) (pos 7) three

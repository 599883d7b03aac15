-- ===== src/Core/Db.antt =====
-- The keyspace: class Db of src/core/db.h and db.cpp. An operation that may throw returns a `Result`.
pub mod Reachable
pub mod Ends
pub mod Ranges
use hermitdb.Prelude.{
  ℕ, zero, suc, List, [], ◌∷◌, ◌++◌, Option, none, some, Bytes, length, get_elem?, Bool, true,
  false, ◌||◌, if◌then◌else◌,
}
use hermitdb.Prelude.Int.{ℤ, pos, pos_part, ◌+ℤ◌, ◌-ℤ◌, ltb_ℤ, leb_ℤ}
use hermitdb.Prelude.Map.{Map, find, put, erase}
use hermitdb.Core.Fault.{Result, ret, fault, bad_variant_access, out_of_bounds}
use hermitdb.Core.Glob.{glob_match}

pub data KeyType : Type 0 where
  no_key string_key list_key : KeyType

-- std::variant<std::string, std::deque<std::string>>
pub data Entry : Type 0 where
  str : Bytes → Entry
  list : List Bytes → Entry

abbrev pub Db : Type 0
Db = Map Entry

abbrev pub string_of : Option Entry → Option Bytes
string_of (some (str s)) = some s
string_of _ = none

unfoldable pub get : Bytes → Db → Option Bytes
get key db = string_of (find key db)

unfoldable pub set : Bytes → Bytes → Db → Db
set key value db = put key (str value) db

abbrev pub is_some {ℓ} : {A : Type ℓ} → Option A → Bool
is_some none = false
is_some (some _) = true

unfoldable pub exists : Bytes → Db → Bool
exists key db = is_some (find key db)

-- whether there was such a key, and the keyspace without it
unfoldable pub del : Bytes → Db → Bool × Db
del key db = (is_some (find key db), erase key db)

abbrev pub type_of_entry : Option Entry → KeyType
type_of_entry none = no_key
type_of_entry (some (str _)) = string_key
type_of_entry (some (list _)) = list_key

abbrev pub is_list : KeyType → Bool
is_list list_key = true
is_list _ = false

abbrev pub is_string : KeyType → Bool
is_string string_key = true
is_string _ = false

-- Db::type
unfoldable pub key_type : Bytes → Db → KeyType
key_type key db = type_of_entry (find key db)

unfoldable pub size : Db → ℕ
size db = length db

unfoldable pub clear : Db → Db
clear db = []

unfoldable pub keys_matching_glob : Bytes → Db → List Bytes
keys_matching_glob pattern [] = []
keys_matching_glob pattern ((key, _) ∷ db) =
    let rest = keys_matching_glob pattern db in if glob_match pattern key then key ∷ rest else rest

-- `std::get<std::deque<std::string>>(...)` of the entry that `try_emplace` found or made
abbrev pub emplaced_list : Option Entry → Result (List Bytes)
emplaced_list none = ret []
emplaced_list (some (list l)) = ret l
emplaced_list (some (str _)) = fault bad_variant_access

abbrev pub pushed : Bytes → Db → Result (List Bytes) → Result (ℕ × Db)
pushed key db (ret l) = ret (length l, put key (list l) db)
pushed key db (fault f) = fault f

abbrev pub prepended : Bytes → Result (List Bytes) → Result (List Bytes)
prepended value (ret l) = ret (value ∷ l)
prepended value (fault f) = fault f

abbrev pub appended : Bytes → Result (List Bytes) → Result (List Bytes)
appended value (ret l) = ret (l ++ value ∷ [])
appended value (fault f) = fault f

-- The length of the list afterwards, and the keyspace.
unfoldable pub lpush : Bytes → Bytes → Db → Result (ℕ × Db)
lpush key value db = pushed key db (prepended value (emplaced_list (find key db)))

unfoldable pub rpush : Bytes → Bytes → Db → Result (ℕ × Db)
rpush key value db = pushed key db (appended value (emplaced_list (find key db)))

-- the list after a pop: an empty one is erased
unfoldable pub popped : Bytes → List Bytes → Db → Db
popped key [] db = erase key db
popped key (x ∷ l) db = put key (list (x ∷ l)) db

-- `list.back()` and `list.pop_back()`, of a list that is not empty
unfoldable pub back_of : Bytes → List Bytes → Bytes
back_of x [] = x
back_of x (y ∷ l) = back_of y l

unfoldable pub without_back : Bytes → List Bytes → List Bytes
without_back x [] = []
without_back x (y ∷ l) = x ∷ without_back y l

abbrev pub front_popped : Bytes → Db → Option Entry → Result (Option Bytes × Db)
front_popped key db none = ret (none, db)
front_popped key db (some (str _)) = fault bad_variant_access
front_popped key db (some (list [])) = fault out_of_bounds
front_popped key db (some (list (x ∷ l))) = ret (some x, popped key l db)

abbrev pub back_popped : Bytes → Db → Option Entry → Result (Option Bytes × Db)
back_popped key db none = ret (none, db)
back_popped key db (some (str _)) = fault bad_variant_access
back_popped key db (some (list [])) = fault out_of_bounds
back_popped key db (some (list (x ∷ l))) =
    ret (some (back_of x l), popped key (without_back x l) db)

-- `front()` of an empty deque is undefined.
unfoldable pub lpop : Bytes → Db → Result (Option Bytes × Db)
unfolding popped
lpop key db = front_popped key db (find key db)

unfoldable pub rpop : Bytes → Db → Result (Option Bytes × Db)
unfolding popped back_of without_back
rpop key db = back_popped key db (find key db)

abbrev pub list_length : Option Entry → Result ℕ
list_length none = ret 0
list_length (some (list l)) = ret (length l)
list_length (some (str _)) = fault bad_variant_access

unfoldable pub llen : Bytes → Db → Result ℕ
llen key db = list_length (find key db)

-- `for (i = start; i <= stop; ++i) out.push_back(list[i]);` with the rounds that are left
abbrev pub onto {ℓ} : {A : Type ℓ} → Option A → List A → List A
onto none l = l
onto (some a) l = a ∷ l

unfoldable pub slice : ℕ → ℕ → List Bytes → List Bytes
slice zero i l = []
slice (suc n) i l = onto (get_elem? l i) (slice n (suc i) l)

-- The index arithmetic of `lrange` on a list of `n` elements, in `int64_t`.
abbrev pub from_tail : ℤ → ℤ → ℤ
from_tail n i = if ltb_ℤ i (pos 0) then i +ℤ n else i

abbrev pub clamp_start : ℤ → ℤ
clamp_start i = if ltb_ℤ i (pos 0) then pos 0 else i

abbrev pub clamp_stop : ℤ → ℤ → ℤ
clamp_stop n i = if leb_ℤ n i then n -ℤ pos 1 else i

unfoldable pub range_of : ℤ → ℤ → ℤ → List Bytes → List Bytes
unfolding slice ◌-ℤ◌
range_of n start stop l =
    if ltb_ℤ stop start || leb_ℤ n start
    then []
    else slice (suc (pos_part (stop -ℤ start))) (pos_part start) l

unfoldable pub list_range : ℤ → ℤ → List Bytes → List Bytes
unfolding range_of ◌+ℤ◌ ◌-ℤ◌
list_range start stop l =
    let n = pos (length l) in
    range_of n (clamp_start (from_tail n start)) (clamp_stop n (from_tail n stop)) l

abbrev pub ranged : ℤ → ℤ → Option Entry → Result (List Bytes)
ranged start stop none = ret []
ranged start stop (some (list l)) = ret (list_range start stop l)
ranged start stop (some (str _)) = fault bad_variant_access

unfoldable pub lrange : Bytes → ℤ → ℤ → Db → Result (List Bytes)
unfolding list_range
lrange key start stop db = ranged start stop (find key db)

unfoldable pub restore_entry : Bytes → Entry → Db → Db
restore_entry key entry db = put key entry db

-- ===== src/Core/Healthy/ListSteps.antt =====
-- The list operations of Db on a key that holds no string: src/core/db.cpp.
use hermitdb.Prelude.{
  ℕ, ◌≡◌, ◌≢◌, refl, List, [], ◌∷◌, ◌++◌, Option, none, some, Bytes, Bool, true, false, arith,
  bytes_eq_iff, ◌⊎◌, inl, inr,
}
use hermitdb.Prelude.Int.{ℤ}
use hermitdb.Prelude.Map.{find, put, find-put}
use hermitdb.Core.Fault.{Result, ret}
use hermitdb.Core.Db
use hermitdb.Core.Db.{Db, Entry, str, list, popped, without_back, front_popped, back_popped}
use hermitdb.Core.Db.Reachable.{NoEmptyList}
use hermitdb.Core.Commands.Lists.{push_one, pop_one}

-- The key holds no string.
abbrev pub NoString : Bytes → Db → Type 0
NoString key db = Db.is_string (Db.key_type key db) ≡ false

-- A push to such a key writes a list that is not empty.
abbrev pub Pushed : Bytes → Db → Result (ℕ × Db) → Type 0
Pushed key db r =
    (l : List Bytes) × (n : ℕ) × (r ≡ ret (n, put key (list l) db)) × (list l ≢ list [])

append-ne : (l : List Bytes) (x : Bytes) → list (l ++ x ∷ []) ≢ list []
append-ne [] x = λ h. cc
append-ne (y ∷ l) x = λ h. cc

pub push_one-Pushed :
    (left : Bool) (key value : Bytes) (db : Db)
    → NoString key db
    → Pushed key db (push_one left key value db)
unfolding Db.lpush Db.rpush Db.key_type
push_one-Pushed true key value db plain = front (find key db) plain
  where
    front :
        (o : Option Entry)
        → Db.is_string (Db.type_of_entry o) ≡ false
        → Pushed key db (Db.pushed key db (Db.prepended value (Db.emplaced_list o)))
    front none plain = (value ∷ [], _, refl, λ h. cc)
    front (some (list l)) plain = (value ∷ l, _, refl, λ h. cc)
    front (some (str s)) plain = cc
push_one-Pushed false key value db plain = back (find key db) plain
  where
    back :
        (o : Option Entry)
        → Db.is_string (Db.type_of_entry o) ≡ false
        → Pushed key db (Db.pushed key db (Db.appended value (Db.emplaced_list o)))
    back none plain = (value ∷ [], _, refl, λ h. cc)
    back (some (list l)) plain = (l ++ value ∷ [], _, refl, append-ne l value)
    back (some (str s)) plain = cc

-- A pop of such a key finds nothing, or takes an element.
abbrev pub Popped : Bytes → Db → Result (Option Bytes × Db) → Type 0
Popped key db r =
    (r ≡ ret (none, db)) ⊎ ((v : Bytes) × (l : List Bytes) × (r ≡ ret (some v, popped key l db)))

pub pop_one-Popped :
    (left : Bool) (key : Bytes) (db : Db)
    → NoEmptyList db
    → NoString key db
    → Popped key db (pop_one left key db)
unfolding Db.lpop Db.rpop Db.key_type
pop_one-Popped true key db full plain = front (find key db) plain (full key)
  where
    front :
        (o : Option Entry)
        → Db.is_string (Db.type_of_entry o) ≡ false
        → o ≢ some (list [])
        → Popped key db (front_popped key db o)
    front none plain ne = inl refl
    front (some (str s)) plain ne = cc
    front (some (list [])) plain ne = absurd (ne refl)
    front (some (list (x ∷ l))) plain ne = inr (x, l, refl)
pop_one-Popped false key db full plain = back (find key db) plain (full key)
  where
    back :
        (o : Option Entry)
        → Db.is_string (Db.type_of_entry o) ≡ false
        → o ≢ some (list [])
        → Popped key db (back_popped key db o)
    back none plain ne = inl refl
    back (some (str s)) plain ne = cc
    back (some (list [])) plain ne = absurd (ne refl)
    back (some (list (x ∷ l))) plain ne = inr (_, without_back x l, refl)

-- A look at such a key finds a list, or nothing.
pub llen-ret : (key : Bytes) (db : Db) → NoString key db → (n : ℕ) × (Db.llen key db ≡ ret n)
unfolding Db.llen Db.key_type
llen-ret key db plain = go (find key db) plain
  where
    go :
        (o : Option Entry)
        → Db.is_string (Db.type_of_entry o) ≡ false
        → (n : ℕ) × (Db.list_length o ≡ ret n)
    go none plain = (0, refl)
    go (some (str s)) plain = cc
    go (some (list l)) plain = (_, refl)

pub lrange-ret :
    (key : Bytes) (start stop : ℤ) (db : Db)
    → NoString key db
    → (l : List Bytes) × (Db.lrange key start stop db ≡ ret l)
unfolding Db.lrange Db.key_type
lrange-ret key start stop db plain = go (find key db) plain
  where
    go :
        (o : Option Entry)
        → Db.is_string (Db.type_of_entry o) ≡ false
        → (l : List Bytes) × (Db.ranged start stop o ≡ ret l)
    go none plain = (_, refl)
    go (some (str s)) plain = cc
    go (some (list l)) plain = (_, refl)

pub NoString-put : (key : Bytes) (l : List Bytes) (db : Db) → NoString key (put key (list l) db)
unfolding Db.key_type
NoString-put key l db = ground (arith, find-put key key (list l) db, bytes_eq_iff key key)

-- ===== src/Core/Db/Reachable.antt =====
-- What the keyspace holds after any sequence of operations of class Db: src/core/db.cpp.
use hermitdb.Prelude.{ℕ, ◌≡◌, ◌≢◌, refl, List, [], ◌∷◌, ◌++◌, Option, none, some, Bytes, arith}
use hermitdb.Prelude.Map.{
  Distinct, put-Distinct, erase-Distinct, find, put, erase, find-put, find-erase,
}
use hermitdb.Core.Fault.{ret, fault, out_of_bounds}
use hermitdb.Core.Db.{
  Db, Entry, str, list, set, del, lpush, rpush, lpop, rpop, clear, restore_entry, emplaced_list,
  popped, pushed, prepended, appended, front_popped, back_popped, without_back,
}

-- The keyspaces that the operations make of the empty one. A snapshot restores no empty list.
pub data Reachable : Db → Type 0 where
  empty : Reachable []
  by_set : (key value : Bytes) {db : Db} → Reachable db → Reachable (set key value db)
  by_del : (key : Bytes) {db : Db} → Reachable db → Reachable (del key db).1
  by_clear : {db : Db} → Reachable db → Reachable (clear db)
  by_lpush :
      (key value : Bytes) {n : ℕ} {db db' : Db}
      → Reachable db
      → lpush key value db ≡ ret (n, db')
      → Reachable db'
  by_rpush :
      (key value : Bytes) {n : ℕ} {db db' : Db}
      → Reachable db
      → rpush key value db ≡ ret (n, db')
      → Reachable db'
  by_lpop :
      (key : Bytes) {o : Option Bytes} {db db' : Db}
      → Reachable db
      → lpop key db ≡ ret (o, db')
      → Reachable db'
  by_rpop :
      (key : Bytes) {o : Option Bytes} {db db' : Db}
      → Reachable db
      → rpop key db ≡ ret (o, db')
      → Reachable db'
  by_restore :
      (key : Bytes) (e : Entry) {db : Db}
      → Reachable db
      → e ≢ list []
      → Reachable (restore_entry key e db)

-- No key holds an empty list.
abbrev pub NoEmptyList : Db → Type 0
NoEmptyList db = (key : Bytes) → find key db ≢ some (list [])

pub put-NoEmptyList :
    (key : Bytes) (e : Entry) (db : Db) → NoEmptyList db → e ≢ list [] → NoEmptyList (put key e db)
put-NoEmptyList key e db full proper j h = ground (arith, find-put key j e db, full j)

pub erase-NoEmptyList : (key : Bytes) (db : Db) → NoEmptyList db → NoEmptyList (erase key db)
erase-NoEmptyList key db full j h = ground (arith, find-erase key j db, full j)

pub popped-NoEmptyList :
    (key : Bytes) (l : List Bytes) (db : Db) → NoEmptyList db → NoEmptyList (popped key l db)
unfolding popped
popped-NoEmptyList key [] db full = erase-NoEmptyList key db full
popped-NoEmptyList key (x ∷ l) db full = put-NoEmptyList key (list (x ∷ l)) db full (λ h. cc)

append-ne-nil : (l : List Bytes) (x : Bytes) → l ++ x ∷ [] ≢ []
append-ne-nil [] x = λ h. cc
append-ne-nil (y ∷ l) x = λ h. cc

list-ne : (l : List Bytes) → l ≢ [] → list l ≢ list []
list-ne [] h = absurd (h refl)
list-ne (x ∷ l) h = λ e. cc

-- The keyspace after a push: the key holds a list that is not empty.
module _ (key value : Bytes) (n : ℕ) (db db' : Db) where
  lpush-put :
      lpush key value db ≡ ret (n, db') → (l : List Bytes) × (l ≢ []) × (put key (list l) db ≡ db')
  unfolding lpush
  lpush-put h = go (find key db) h
    where
      go :
          (o : Option Entry)
          → pushed key db (prepended value (emplaced_list o)) ≡ ret (n, db')
          → (l : List Bytes) × (l ≢ []) × (put key (list l) db ≡ db')
      go none e = (value ∷ [], λ p. cc, cc)
      go (some (list l)) e = (value ∷ l, λ p. cc, cc)
      go (some (str s)) e = cc

  rpush-put :
      rpush key value db ≡ ret (n, db') → (l : List Bytes) × (l ≢ []) × (put key (list l) db ≡ db')
  unfolding rpush
  rpush-put h = go (find key db) h
    where
      go :
          (o : Option Entry)
          → pushed key db (appended value (emplaced_list o)) ≡ ret (n, db')
          → (l : List Bytes) × (l ≢ []) × (put key (list l) db ≡ db')
      go none e = (value ∷ [], λ p. cc, cc)
      go (some (list l)) e = (l ++ value ∷ [], append-ne-nil l value, cc)
      go (some (str s)) e = cc

module _ (key : Bytes) (o : Option Bytes) (db db' : Db) (full : NoEmptyList db) where
  lpop-NoEmptyList : lpop key db ≡ ret (o, db') → NoEmptyList db'
  unfolding lpop
  lpop-NoEmptyList h = go (find key db) h
    where
      go : (e : Option Entry) → front_popped key db e ≡ ret (o, db') → NoEmptyList db'
      go none h = let same : db ≡ db' = cc in rw⁻¹ same full
      go (some (str s)) h = cc
      go (some (list [])) h = cc
      go (some (list (x ∷ l))) h =
          let same : popped key l db ≡ db' = cc in rw⁻¹ same (popped-NoEmptyList key l db full)

  rpop-NoEmptyList : rpop key db ≡ ret (o, db') → NoEmptyList db'
  unfolding rpop
  rpop-NoEmptyList h = go (find key db) h
    where
      go : (e : Option Entry) → back_popped key db e ≡ ret (o, db') → NoEmptyList db'
      go none h = let same : db ≡ db' = cc in rw⁻¹ same full
      go (some (str s)) h = cc
      go (some (list [])) h = cc
      go (some (list (x ∷ l))) h =
          let same : popped key (without_back x l) db ≡ db' = cc in
          rw⁻¹ same (popped-NoEmptyList key (without_back x l) db full)

popped-Distinct :
    (key : Bytes) (l : List Bytes) (db : Db) → Distinct db → Distinct (popped key l db)
unfolding popped
popped-Distinct key [] db d = erase-Distinct key db d
popped-Distinct key (x ∷ l) db d = put-Distinct key (list (x ∷ l)) db d

module _ (key : Bytes) (o : Option Bytes) (db db' : Db) (full : Distinct db) where
  lpop-Distinct : lpop key db ≡ ret (o, db') → Distinct db'
  unfolding lpop
  lpop-Distinct h = go (find key db) h
    where
      go : (e : Option Entry) → front_popped key db e ≡ ret (o, db') → Distinct db'
      go none h = let same : db ≡ db' = cc in rw⁻¹ same full
      go (some (str s)) h = cc
      go (some (list [])) h = cc
      go (some (list (x ∷ l))) h =
          let same : popped key l db ≡ db' = cc in rw⁻¹ same (popped-Distinct key l db full)

  rpop-Distinct : rpop key db ≡ ret (o, db') → Distinct db'
  unfolding rpop
  rpop-Distinct h = go (find key db) h
    where
      go : (e : Option Entry) → back_popped key db e ≡ ret (o, db') → Distinct db'
      go none h = let same : db ≡ db' = cc in rw⁻¹ same full
      go (some (str s)) h = cc
      go (some (list [])) h = cc
      go (some (list (x ∷ l))) h =
          let same : popped key (without_back x l) db ≡ db' = cc in
          rw⁻¹ same (popped-Distinct key (without_back x l) db full)

-- No key of a keyspace that the operations make holds an empty list.
pub Reachable-NoEmptyList : (db : Db) → Reachable db → NoEmptyList db
unfolding set del clear restore_entry find
Reachable-NoEmptyList db empty = λ j h. cc
Reachable-NoEmptyList db (by_set key value {db = old} r) =
    put-NoEmptyList key (str value) old (Reachable-NoEmptyList old r) (λ h. cc)
Reachable-NoEmptyList db (by_del key {db = old} r) =
    erase-NoEmptyList key old (Reachable-NoEmptyList old r)
Reachable-NoEmptyList db (by_clear r) = λ j h. cc
Reachable-NoEmptyList db (by_lpush key value {n = n} {db = old} r h) =
    let (l, some_there, same) = lpush-put key value n old db h in
    rw⁻¹ same
      (put-NoEmptyList key (list l) old (Reachable-NoEmptyList old r) (list-ne l some_there))
Reachable-NoEmptyList db (by_rpush key value {n = n} {db = old} r h) =
    let (l, some_there, same) = rpush-put key value n old db h in
    rw⁻¹ same
      (put-NoEmptyList key (list l) old (Reachable-NoEmptyList old r) (list-ne l some_there))
Reachable-NoEmptyList db (by_lpop key {o = o} {db = old} r h) =
    lpop-NoEmptyList key o old db (Reachable-NoEmptyList old r) h
Reachable-NoEmptyList db (by_rpop key {o = o} {db = old} r h) =
    rpop-NoEmptyList key o old db (Reachable-NoEmptyList old r) h
Reachable-NoEmptyList db (by_restore key e {db = old} r proper) =
    put-NoEmptyList key e old (Reachable-NoEmptyList old r) proper

-- After any sequence of operations on the keyspace, a pop from either end never takes an element of
-- an empty list.
pub Reachable-ne-out_of_bounds :
    (db : Db)
    → Reachable db
    → (key : Bytes) → (lpop key db ≢ fault out_of_bounds) × (rpop key db ≢ fault out_of_bounds)
unfolding lpop rpop
Reachable-ne-out_of_bounds db r key = go (find key db) (Reachable-NoEmptyList db r key)
  where
    go :
        (o : Option Entry)
        → o ≢ some (list [])
        → (front_popped key db o ≢ fault out_of_bounds)
          × (back_popped key db o ≢ fault out_of_bounds)
    go none full = (λ h. cc, λ h. cc)
    go (some (str s)) full = (λ h. cc, λ h. cc)
    go (some (list [])) full = absurd (full refl)
    go (some (list (x ∷ l))) full = (λ h. cc, λ h. cc)

-- No key stands twice in a keyspace that the operations make.
pub Reachable-Distinct : (db : Db) → Reachable db → Distinct db
unfolding set del clear restore_entry popped
Reachable-Distinct db empty = tt
Reachable-Distinct db (by_set key value {db = old} r) =
    put-Distinct key (str value) old (Reachable-Distinct old r)
Reachable-Distinct db (by_del key {db = old} r) = erase-Distinct key old (Reachable-Distinct old r)
Reachable-Distinct db (by_clear r) = tt
Reachable-Distinct db (by_lpush key value {n = n} {db = old} r h) =
    let (l, some_there, same) = lpush-put key value n old db h in
    rw⁻¹ same (put-Distinct key (list l) old (Reachable-Distinct old r))
Reachable-Distinct db (by_rpush key value {n = n} {db = old} r h) =
    let (l, some_there, same) = rpush-put key value n old db h in
    rw⁻¹ same (put-Distinct key (list l) old (Reachable-Distinct old r))
Reachable-Distinct db (by_lpop key {o = o} {db = old} r h) =
    lpop-Distinct key o old db (Reachable-Distinct old r) h
Reachable-Distinct db (by_rpop key {o = o} {db = old} r h) =
    rpop-Distinct key o old db (Reachable-Distinct old r) h
Reachable-Distinct db (by_restore key e {db = old} r proper) =
    put-Distinct key e old (Reachable-Distinct old r)

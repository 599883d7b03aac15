-- ===== src/Core/Db/Ends.antt =====
-- A push and the pop that follows it at the same end: src/core/db.cpp.
use hermitdb.Prelude.{
  ℕ, ◌≡◌, refl, ◌∙◌, sym, ap, List, [], ◌∷◌, ◌++◌, Option, none, some, Bytes, arith, bytes_eq_iff,
}
use hermitdb.Prelude.Map.{find, put, find-put, find-erase}
use hermitdb.Core.Fault.{ret}
use hermitdb.Core.Db.{
  Db, Entry, str, list, lpush, rpush, lpop, rpop, emplaced_list, popped, pushed, prepended,
  appended, front_popped, back_popped, back_of, without_back,
}
use hermitdb.Core.Db.Reachable.{NoEmptyList}

-- The entry of a key whose list has these elements: an empty list has none.
abbrev entry_of : List Bytes → Option Entry
entry_of [] = none
entry_of (x ∷ l) = some (list (x ∷ l))

back_of-append : (x : Bytes) (l : List Bytes) (v : Bytes) → back_of x (l ++ v ∷ []) ≡ v
unfolding back_of
back_of-append x [] v = refl
back_of-append x (y ∷ l) v = back_of-append y l v

without_back-append :
    (x : Bytes) (l : List Bytes) (v : Bytes) → without_back x (l ++ v ∷ []) ≡ x ∷ l
unfolding without_back
without_back-append x [] v = refl
without_back-append x (y ∷ l) v = ap (λ r. x ∷ r) (without_back-append y l v)

find-popped :
    (key : Bytes) (l : List Bytes) (e : Entry) (db : Db)
    → find key db ≡ entry_of l
    → (j : Bytes) → find j (popped key l (put key e db)) ≡ find j db
unfolding popped
find-popped key [] e db was j =
    ground (arith, bytes_eq_iff key j, find-erase key j (put key e db), find-put key j e db)
find-popped key (x ∷ l) e db was j =
    ground
      (arith, bytes_eq_iff key j, find-put key j (list (x ∷ l)) (put key e db), find-put key j e db)

find-put-same : (key : Bytes) (e : Entry) (db : Db) → find key (put key e db) ≡ some e
find-put-same key e db = ground (arith, bytes_eq_iff key key, find-put key key e db)

module _ (key value : Bytes) (n : ℕ) (db db' : Db) (full : NoEmptyList db) where
  lpush-entry_of :
      lpush key value db ≡ ret (n, db')
      → (l : List Bytes) × (find key db ≡ entry_of l) × (put key (list (value ∷ l)) db ≡ db')
  unfolding lpush
  lpush-entry_of h = go (find key db) refl h
    where
      go :
          (o : Option Entry)
          → find key db ≡ o
          → pushed key db (prepended value (emplaced_list o)) ≡ ret (n, db')
          → (l : List Bytes) × (find key db ≡ entry_of l) × (put key (list (value ∷ l)) db ≡ db')
      go none was e = ([], was, cc)
      go (some (list [])) was e = absurd (full key was)
      go (some (list (x ∷ l))) was e = (x ∷ l, was, cc)
      go (some (str s)) was e = cc

  rpush-entry_of :
      rpush key value db ≡ ret (n, db')
      → (l : List Bytes) × (find key db ≡ entry_of l) × (put key (list (l ++ value ∷ [])) db ≡ db')
  unfolding rpush
  rpush-entry_of h = go (find key db) refl h
    where
      go :
          (o : Option Entry)
          → find key db ≡ o
          → pushed key db (appended value (emplaced_list o)) ≡ ret (n, db')
          → (l : List Bytes) × (find key db ≡ entry_of l)
            × (put key (list (l ++ value ∷ [])) db ≡ db')
      go none was e = ([], was, cc)
      go (some (list [])) was e = absurd (full key was)
      go (some (list (x ∷ l))) was e = (x ∷ l, was, cc)
      go (some (str s)) was e = cc

  lpop-put :
      (l : List Bytes)
      → lpop key (put key (list (value ∷ l)) db)
        ≡ ret (some value, popped key l (put key (list (value ∷ l)) db))
  unfolding lpop
  lpop-put l =
      ap (front_popped key (put key (list (value ∷ l)) db))
        (find-put-same key (list (value ∷ l)) db)

  rpop-put :
      (l : List Bytes)
      → rpop key (put key (list (l ++ value ∷ [])) db)
        ≡ ret (some value, popped key l (put key (list (l ++ value ∷ [])) db))
  unfolding rpop back_of without_back
  rpop-put [] =
      ap (back_popped key (put key (list (value ∷ [])) db))
        (find-put-same key (list (value ∷ [])) db)
  rpop-put (x ∷ l) =
      let e = list (x ∷ l ++ value ∷ []) in
      ap (back_popped key (put key e db)) (find-put-same key e db)
      ∙ ap (λ v. ret (some v, popped key (without_back x (l ++ value ∷ [])) (put key e db)))
          (back_of-append x l value)
      ∙ ap (λ r. ret (some value, popped key r (put key e db))) (without_back-append x l value)

  -- In a keyspace without empty lists, after an LPUSH that succeeds an LPOP returns the value that
  -- was pushed, and then every key has the entry that it had, or none if it had none.
  pub lpush-lpop :
      lpush key value db ≡ ret (n, db')
      → (db'' : Db) × (lpop key db' ≡ ret (some value, db''))
        × ((j : Bytes) → find j db'' ≡ find j db)
  lpush-lpop h =
      let (l, was, same) = lpush-entry_of h in
      (
        popped key l (put key (list (value ∷ l)) db),
        ap (lpop key) (sym same) ∙ lpop-put l,
        find-popped key l (list (value ∷ l)) db was,
      )

  -- In a keyspace without empty lists, after an RPUSH that succeeds an RPOP returns the value that
  -- was pushed, and then every key has the entry that it had, or none if it had none.
  pub rpush-rpop :
      rpush key value db ≡ ret (n, db')
      → (db'' : Db) × (rpop key db' ≡ ret (some value, db''))
        × ((j : Bytes) → find j db'' ≡ find j db)
  rpush-rpop h =
      let (l, was, same) = rpush-entry_of h in
      (
        popped key l (put key (list (l ++ value ∷ [])) db),
        ap (rpop key) (sym same) ∙ rpop-put l,
        find-popped key l (list (l ++ value ∷ [])) db was,
      )

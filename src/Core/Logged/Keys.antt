-- ===== src/Core/Logged/Keys.antt =====
-- DEL, EXISTS, TYPE, KEYS, DBSIZE and FLUSHALL of src/core/commands.cpp, on a server without deadlines.
use hermitdb.Prelude.{
  ℕ, suc, ◌≡◌, ◌≢◌, ◌⊎◌, inl, inr, refl, ap, sym, ◌∙◌, List, [], ◌∷◌, ◌++◌, none, some, Bytes,
  codes, crlf, ◌<◌, map, length, length-append, bytes_eq, bytes_eq_iff, if◌then◌else◌, arith,
  Bool-cases,
}
use hermitdb.Prelude.Int.{pos}
use hermitdb.Prelude.Map.{Map, find, erase}
use hermitdb.Protocol.Parser.{Command}
use hermitdb.Protocol.Decimal.{to_string, to_string_i64, to_string-cons, scan_some, scan}
use hermitdb.Protocol.Writer.{simple, error, integer, bulk, array}
use hermitdb.Core.Fault.{ret}
use hermitdb.Core.Db
use hermitdb.Core.Db.{Db, is_some}
use hermitdb.Core.Expiry
use hermitdb.Core.Server.{Host, Server, touch, check_and_expire, ◌>>=◌, ◌>>◌, pure, put_db}
use hermitdb.Core.Replies.{wrong_arity}
use hermitdb.Core.Commands.Keys.{
  del_key, del_keys, cmd_del, count_keys, cmd_exists, cmd_type, type_name, live_keys, cmd_keys,
  cmd_dbsize, disarm_all, cmd_flushall,
}
use hermitdb.Core.Dispatch.{log_nothing, log_del, log_flushed, records_of}
use hermitdb.Core.Logged.{
  plain, Logs, logged_records, Faithful, refused-Faithful, read-Faithful, verbatim-Faithful,
}

-- A key that is not there is erased.
erase-absent {ℓ} : {V : Type ℓ} (key : Bytes) (m : Map V) → find key m ≡ none → erase key m ≡ m
unfolding find erase
erase-absent key [] e = refl
erase-absent key ((j, v) ∷ m) e = ground (arith, erase-absent key m)

logged-flushed : (cmd : Command) → logged_records log_flushed cmd (simple (codes "OK")) ≡ cmd ∷ []
unfolding logged_records records_of simple bytes_eq
logged-flushed cmd = refl

-- the reply `:0`
abbrev zero_reply : Bytes
zero_reply = codes ":0" ++ crlf

logged-zero : (cmd : Command) → logged_records log_del cmd (integer (pos 0)) ≡ []
unfolding logged_records records_of integer bytes_eq to_string to_string_i64
logged-zero cmd = refl

one_digit : (c : ℕ) (s : Bytes) → (c ∷ s) ++ crlf ≡ codes "0" ++ crlf → scan_some (c ∷ s) ≡ some 0
unfolding scan_some scan
one_digit c [] e = ground (arith, e)
one_digit c (x ∷ []) e = cc
one_digit c (x ∷ y ∷ s) e = absurd (omega (arith, ap length e, length-append {0} s crlf))

-- another count prints otherwise
to_string-ne-zero : (n : ℕ) → 0 < n → to_string n ++ crlf ≢ codes "0" ++ crlf
to_string-ne-zero n less e =
    let (c, s, cons, read, _) = to_string-cons n in
    let zero_read : scan_some (c ∷ s) ≡ some 0 =
      one_digit c s (ap (λ t. t ++ crlf) (sym cons) ∙ e) in
    let same : some 0 ≡ some n = sym zero_read ∙ ap scan_some (sym cons) ∙ read in
    ground (arith, same, less)

logged-count :
    (cmd : Command) (n : ℕ) → 0 < n → logged_records log_del cmd (integer (pos n)) ≡ cmd ∷ []
unfolding logged_records records_of integer to_string_i64
logged-count cmd n less =
    ground (arith, bytes_eq_iff (integer (pos n)) zero_reply, to_string-ne-zero n less)

del-Logs :
    (cmd : Command) (n : ℕ) (db after : Db)
    → ((n ≡ 0) × (db ≡ after)) ⊎ (0 < n)
    → Logs log_del cmd (integer (pos n)) db after
del-Logs cmd n db after (inl (e, same)) = inl (rw e (logged-zero cmd), same)
del-Logs cmd n db after (inr less) = inr (inl (logged-count cmd n less))

module _ {h : Host} where
  -- one key: the count, and the keyspace
  del_key-plain :
      (key : Bytes) (n : ℕ) (db : Db)
      → (m : ℕ) × ((s : Server h) → del_key key n (plain s db) ≡ ret (m, plain s (erase key db)))
        × (((m ≡ n) × (erase key db ≡ db)) ⊎ (m ≡ suc n))
  unfolding del_key touch find Expiry.persist Db.del
  del_key-plain key n db = elim (Bool-cases (is_some (find key db))) [
    | inl e ↦ (suc n, λ s. ground (arith, e), inr refl)
    | inr e ↦ (n, λ s. ground (arith, e), inl (refl, erase-absent key db (ground (arith, e))))
  ]

  del_keys-plain :
      (keys : List Bytes) (n : ℕ) (db : Db)
      → (m : ℕ) × (after : Db) × ((s : Server h)
          → del_keys keys n (plain s db) ≡ ret (m, plain s after))
        × (((m ≡ n) × (after ≡ db)) ⊎ (n < m))
  unfolding del_keys
  del_keys-plain [] n db = (n, db, λ s. refl, inl (refl, refl))
  del_keys-plain (key ∷ keys) n db =
      let (m, one, first) = del_key-plain key n db in
      let (m', after, more, rest) = del_keys-plain keys m (erase key db) in
      (
        m',
        after,
        λ s. ap (λ r. ((λ _. r) >>= λ n'. del_keys keys n') s) (one s) ∙ more s,
        elim first [
          | inl (same, kept) ↦ elim rest [
            | inl (same', kept') ↦ inl (same' ∙ same, kept' ∙ kept)
            | inr less ↦ inr (omega (arith, less, same))
          ]
          | inr next ↦ elim rest [
            | inl (same', _) ↦ inr (omega (arith, same', next))
            | inr less ↦ inr (omega (arith, less, next))
          ]
        ],
      )

  -- the loop of KEYS
  live_keys-plain :
      (keys : List Bytes) (db : Db) (s : Server h)
      → live_keys keys (plain s db) ≡ ret (map bulk keys, plain s db)
  unfolding live_keys check_and_expire find
  live_keys-plain [] db s = refl
  live_keys-plain (key ∷ keys) db s =
      ap (λ r. ((λ _. r) >>= λ rest. pure (bulk key ∷ rest)) s) (live_keys-plain keys db s)

  disarm_all-plain :
      (keys : List Bytes) (db : Db) (s : Server h)
      → disarm_all keys (plain s db) ≡ ret (tt, plain s db)
  unfolding disarm_all Expiry.persist find
  disarm_all-plain [] db s = refl
  disarm_all-plain (key ∷ keys) db s = disarm_all-plain keys db s

  -- the loop of EXISTS
  count_keys-plain :
      (keys : List Bytes) (n : ℕ) (db : Db)
      → (m : ℕ) × ((s : Server h) → count_keys keys n (plain s db) ≡ ret (m, plain s db))
  unfolding count_keys touch find
  count_keys-plain [] n db = (n, λ s. refl)
  count_keys-plain (key ∷ keys) n db =
      let (m, more) = count_keys-plain keys (if Db.exists key db then suc n else n) db in
      (m, λ s. more s)

  pub cmd_del-Faithful : (cmd : Command) (db : Db) → Faithful (cmd_del {h = h}) log_del cmd db
  unfolding cmd_del wrong_arity error
  cmd_del-Faithful [] db =
      refused-Faithful cmd_del [] db (wrong_arity (codes "del")) log_del refl (λ s. refl)
  cmd_del-Faithful (c ∷ []) db =
      refused-Faithful cmd_del (c ∷ []) db (wrong_arity (codes "del")) log_del refl (λ s. refl)
  cmd_del-Faithful (c ∷ key ∷ keys) db =
      let (m, after, runs, count) = del_keys-plain (key ∷ keys) 0 db in
      record {
        reply = integer (pos m);
        after = after;
        runs = λ s. ap (λ r. ((λ _. r) >>= λ n. pure (integer (pos n))) s) (runs s);
        logs =
            del-Logs (c ∷ key ∷ keys) m db after
              (elim count [ inl (zero', same) ↦ inl (zero', sym same) | inr more ↦ inr more ]);
      }

  pub cmd_exists-Faithful :
      (cmd : Command) (db : Db) → Faithful (cmd_exists {h = h}) log_nothing cmd db
  unfolding cmd_exists
  cmd_exists-Faithful [] db =
      read-Faithful cmd_exists [] db (wrong_arity (codes "exists")) (λ s. refl)
  cmd_exists-Faithful (c ∷ []) db =
      read-Faithful cmd_exists (c ∷ []) db (wrong_arity (codes "exists")) (λ s. refl)
  cmd_exists-Faithful (c ∷ key ∷ keys) db =
      let (m, runs) = count_keys-plain (key ∷ keys) 0 db in
      read-Faithful cmd_exists (c ∷ key ∷ keys) db (integer (pos m))
        (λ s. ap (λ r. ((λ _. r) >>= λ n. pure (integer (pos n))) s) (runs s))

  pub cmd_type-Faithful : (cmd : Command) (db : Db) → Faithful (cmd_type {h = h}) log_nothing cmd db
  unfolding cmd_type touch find
  cmd_type-Faithful [] db = read-Faithful cmd_type [] db (wrong_arity (codes "type")) (λ s. refl)
  cmd_type-Faithful (c ∷ []) db =
      read-Faithful cmd_type (c ∷ []) db (wrong_arity (codes "type")) (λ s. refl)
  cmd_type-Faithful (c ∷ key ∷ []) db =
      read-Faithful cmd_type (c ∷ key ∷ []) db (simple (type_name (Db.key_type key db))) (λ s. refl)
  cmd_type-Faithful (c ∷ key ∷ x ∷ args) db =
      read-Faithful cmd_type (c ∷ key ∷ x ∷ args) db (wrong_arity (codes "type")) (λ s. refl)

  pub cmd_keys-Faithful : (cmd : Command) (db : Db) → Faithful (cmd_keys {h = h}) log_nothing cmd db
  unfolding cmd_keys
  cmd_keys-Faithful [] db = read-Faithful cmd_keys [] db (wrong_arity (codes "keys")) (λ s. refl)
  cmd_keys-Faithful (c ∷ []) db =
      read-Faithful cmd_keys (c ∷ []) db (wrong_arity (codes "keys")) (λ s. refl)
  cmd_keys-Faithful (c ∷ pattern ∷ []) db =
      read-Faithful cmd_keys (c ∷ pattern ∷ []) db
        (array (map bulk (Db.keys_matching_glob pattern db)))
        (λ s.
          ap (λ r. ((λ _. r) >>= λ encoded. pure (array encoded)) s)
            (live_keys-plain (Db.keys_matching_glob pattern db) db s))
  cmd_keys-Faithful (c ∷ pattern ∷ x ∷ args) db =
      read-Faithful cmd_keys (c ∷ pattern ∷ x ∷ args) db (wrong_arity (codes "keys")) (λ s. refl)

  pub cmd_dbsize-Faithful :
      (cmd : Command) (db : Db) → Faithful (cmd_dbsize {h = h}) log_nothing cmd db
  unfolding cmd_dbsize
  cmd_dbsize-Faithful [] db =
      read-Faithful cmd_dbsize [] db (wrong_arity (codes "dbsize")) (λ s. refl)
  cmd_dbsize-Faithful (c ∷ []) db =
      read-Faithful cmd_dbsize (c ∷ []) db (integer (pos (Db.size db))) (λ s. refl)
  cmd_dbsize-Faithful (c ∷ x ∷ args) db =
      read-Faithful cmd_dbsize (c ∷ x ∷ args) db (wrong_arity (codes "dbsize")) (λ s. refl)

  pub cmd_flushall-Faithful :
      (cmd : Command) (db : Db) → Faithful (cmd_flushall {h = h}) log_flushed cmd db
  unfolding cmd_flushall wrong_arity error simple Db.clear
  cmd_flushall-Faithful [] db =
      refused-Faithful cmd_flushall [] db (wrong_arity (codes "flushall")) log_flushed refl
        (λ s. refl)
  cmd_flushall-Faithful (c ∷ []) db =
      verbatim-Faithful cmd_flushall (c ∷ []) db (simple (codes "OK")) log_flushed []
        (logged-flushed (c ∷ []))
        (λ s.
          ap (λ r. ((λ _. r) >>= λ _. put_db [] >> pure (simple (codes "OK"))) s)
            (disarm_all-plain (Db.keys_matching_glob (codes "*") db) db s))
  cmd_flushall-Faithful (c ∷ x ∷ args) db =
      refused-Faithful cmd_flushall (c ∷ x ∷ args) db (wrong_arity (codes "flushall")) log_flushed
        refl (λ s. refl)

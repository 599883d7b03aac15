-- ===== src/Core/Logged/Pops.antt =====
-- LPOP, RPOP, LLEN and LRANGE of src/core/commands.cpp, on a server without deadlines.
use hermitdb.Prelude.{
  ◌≡◌, inl, inr, refl, ap, ◌∙◌, [], ◌∷◌, ◌++◌, Option, none, some, Bytes, codes, crlf, Bool, true,
  false, bytes_eq, arith, Bool-cases, length, map,
}
use hermitdb.Prelude.Int.{ℤ, pos}
use hermitdb.Prelude.Map.{find}
use hermitdb.Protocol.Parser.{Command}
use hermitdb.Protocol.Decimal.{parse_i64, to_string-cons}
use hermitdb.Protocol.Writer.{error, integer, bulk, null_bulk, array}
use hermitdb.Core.Fault.{ret}
use hermitdb.Core.Db
use hermitdb.Core.Db.{Db, list, popped}
use hermitdb.Core.Db.Reachable.{NoEmptyList}
use hermitdb.Core.Expiry
use hermitdb.Core.Server.{Host, Server, M, touch, on_db, pure, ◌>>=◌}
use hermitdb.Core.Replies.{wrong_arity, wrongtype, not_an_integer}
use hermitdb.Core.Commands.Lists.{
  with_db, pop_reply, pop_value, pop_generic, cmd_lpop, cmd_rpop, cmd_llen, range_values,
  range_parsed, cmd_lrange,
}
use hermitdb.Core.Dispatch.{log_nothing, log_popped, records_of, is_error}
use hermitdb.Core.Healthy.ListSteps.{pop_one-Popped, llen-ret, lrange-ret}
use hermitdb.Core.Logged.{plain, Logs, logged_records, logged-is_error, Faithful, read-Faithful}

-- `$-1` is no reply of a value.
bulk-ne-null : (v : Bytes) → bytes_eq (bulk v) (codes "$-1" ++ crlf) ≡ false
unfolding bulk bytes_eq
bulk-ne-null v =
    let (c, s, cons, _, digits) = to_string-cons (length v) in rw cons (ground (arith, digits))

logged-popped-none : (cmd : Command) → logged_records log_popped cmd null_bulk ≡ []
unfolding logged_records records_of null_bulk bytes_eq
logged-popped-none cmd = refl

logged-popped-some : (cmd : Command) (v : Bytes) → logged_records log_popped cmd (bulk v) ≡ cmd ∷ []
unfolding logged_records records_of bulk
logged-popped-some cmd v = ground (arith, bulk-ne-null v)

-- What a pop does, and what the log gets of it.
abbrev PopSteps : {h : Host} → M h Bytes → Command → Db → Type 0
PopSteps {h} m cmd db =
    (reply : Bytes) × (after : Db) × Logs log_popped cmd reply db after
    × ((s : Server h) → m (plain s db) ≡ ret (reply, plain s after))

module _ {h : Host} where
  pop_reply-plain :
      (key v : Bytes) (s : Server h) (db : Db)
      → pop_reply key (some v) (plain s db) ≡ ret (bulk v, plain s db)
  unfolding Db.exists Expiry.persist find
  pop_reply-plain key v s db = ground arith

  pop_value-Steps :
      (left : Bool) (key : Bytes) (cmd : Command) (db : Db)
      → NoEmptyList db
      → PopSteps {h = h} (pop_value left key) cmd db
  unfolding pop_value touch find
  pop_value-Steps left key cmd db full = elim (Bool-cases (Db.is_string (Db.key_type key db))) [
    | inl e ↦ (
      wrongtype,
      db,
      inl (logged-is_error log_popped cmd wrongtype (unfold wrongtype error in refl), refl),
      λ s. ground (arith, e),
    )
    | inr e ↦ elim (pop_one-Popped left key db full e) [
      | inl same ↦ (
        null_bulk,
        db,
        inl (logged-popped-none cmd, refl),
        λ s. ground (
          arith,
          e,
          ap (λ r. (on_db {h = h} (λ _. r) >>= λ v. pop_reply key v) (plain s db)) same,
        ),
      )
      | inr (v, l, taken) ↦ (
        bulk v,
        popped key l db,
        inr (inl (logged-popped-some cmd v)),
        λ s. ground (
          arith,
          e,
          ap (λ r. (on_db {h = h} (λ _. r) >>= λ v. pop_reply key v) (plain s db)) taken
              ∙ pop_reply-plain key v s (popped key l db),
        ),
      )
    ]
  ]

  pop_generic-Faithful :
      (f : Command → M h Bytes) (name : Bytes) (cmd : Command) (left : Bool) (db : Db)
      → ((s : Server h) → f cmd s ≡ pop_generic name cmd left s)
      → is_error (wrong_arity name) ≡ true
      → NoEmptyList db
      → Faithful f log_popped cmd db
  unfolding pop_generic
  pop_generic-Faithful f name cmd left db same e full = go (steps cmd)
    where
      steps : (cmd : Command) → PopSteps {h = h} (pop_generic name cmd left) cmd db
      steps [] = (wrong_arity name, db, inl (logged-is_error log_popped [] _ e, refl), λ s. refl)
      steps (c ∷ []) =
          (wrong_arity name, db, inl (logged-is_error log_popped (c ∷ []) _ e, refl), λ s. refl)
      steps (c ∷ key ∷ []) = pop_value-Steps left key (c ∷ key ∷ []) db full
      steps (c ∷ key ∷ x ∷ args) = (
        wrong_arity name,
        db,
        inl (logged-is_error log_popped (c ∷ key ∷ x ∷ args) _ e, refl),
        λ s. refl,
      )

      go : PopSteps {h = h} (pop_generic name cmd left) cmd db → Faithful f log_popped cmd db
      go (reply, after, logs, runs) = record {
        reply = reply;
        after = after;
        runs = λ s. same (plain s db) ∙ runs s;
        logs = logs;
      }

  pub cmd_lpop-Faithful :
      (cmd : Command) (db : Db) → NoEmptyList db → Faithful (cmd_lpop {h = h}) log_popped cmd db
  unfolding cmd_lpop wrong_arity error
  cmd_lpop-Faithful cmd db full =
      pop_generic-Faithful cmd_lpop (codes "lpop") cmd true db (λ s. refl) refl full

  pub cmd_rpop-Faithful :
      (cmd : Command) (db : Db) → NoEmptyList db → Faithful (cmd_rpop {h = h}) log_popped cmd db
  unfolding cmd_rpop wrong_arity error
  cmd_rpop-Faithful cmd db full =
      pop_generic-Faithful cmd_rpop (codes "rpop") cmd false db (λ s. refl) refl full

  pub cmd_llen-Faithful : (cmd : Command) (db : Db) → Faithful (cmd_llen {h = h}) log_nothing cmd db
  unfolding cmd_llen touch find
  cmd_llen-Faithful [] db = read-Faithful cmd_llen [] db (wrong_arity (codes "llen")) (λ s. refl)
  cmd_llen-Faithful (c ∷ []) db =
      read-Faithful cmd_llen (c ∷ []) db (wrong_arity (codes "llen")) (λ s. refl)
  cmd_llen-Faithful (c ∷ key ∷ x ∷ args) db =
      read-Faithful cmd_llen (c ∷ key ∷ x ∷ args) db (wrong_arity (codes "llen")) (λ s. refl)
  cmd_llen-Faithful (c ∷ key ∷ []) db = elim (Bool-cases (Db.is_string (Db.key_type key db))) [
    | inl e ↦ read-Faithful cmd_llen (c ∷ key ∷ []) db wrongtype (λ s. ground (arith, e))
    | inr e ↦
        let (n, same) = llen-ret key db e in
        read-Faithful cmd_llen (c ∷ key ∷ []) db (integer (pos n)) (λ s. ground (
          arith,
          e,
          ap
              (λ r.
                (on_db {h = h} (λ db. with_db db r) >>= λ len. pure (integer (pos len)))
                  (plain s db))
              same,
        ))
  ]

  range_values-runs :
      (key : Bytes) (start stop : ℤ) (db : Db)
      → (reply : Bytes) × ((s : Server h)
          → range_values key start stop (plain s db) ≡ ret (reply, plain s db))
  unfolding range_values touch find
  range_values-runs key start stop db = elim (Bool-cases (Db.is_string (Db.key_type key db))) [
    | inl e ↦ (wrongtype, λ s. ground (arith, e))
    | inr e ↦
        let (l, same) = lrange-ret key start stop db e in
        (
          array (map bulk l),
          λ s. ground (
            arith,
            e,
            ap
                (λ r.
                  (on_db {h = h} (λ db. with_db db r) >>= λ values. pure (array (map bulk values)))
                    (plain s db))
                same,
          ),
        )
  ]

  pub cmd_lrange-Faithful :
      (cmd : Command) (db : Db) → Faithful (cmd_lrange {h = h}) log_nothing cmd db
  unfolding cmd_lrange
  cmd_lrange-Faithful cmd db =
      let (reply, runs) = go cmd in read-Faithful cmd_lrange cmd db reply runs
    where
      parsed :
          (key : Bytes) (start stop : Option ℤ)
          → (reply : Bytes) × ((s : Server h)
              → range_parsed key start stop (plain s db) ≡ ret (reply, plain s db))
      parsed key none stop = (not_an_integer, λ s. refl)
      parsed key (some a) none = (not_an_integer, λ s. refl)
      parsed key (some a) (some b) = range_values-runs key a b db

      go :
          (cmd : Command)
          → (reply : Bytes) × ((s : Server h)
              → cmd_lrange cmd (plain s db) ≡ ret (reply, plain s db))
      go [] = (_, λ s. refl)
      go (c ∷ []) = (_, λ s. refl)
      go (c ∷ key ∷ []) = (_, λ s. refl)
      go (c ∷ key ∷ start ∷ []) = (_, λ s. refl)
      go (c ∷ key ∷ start ∷ stop ∷ []) = parsed key (parse_i64 start) (parse_i64 stop)
      go (c ∷ key ∷ start ∷ stop ∷ x ∷ args) = (_, λ s. refl)

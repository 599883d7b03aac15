-- ===== src/Core/Logged/Strings.antt =====
-- GET, SET and the counters of src/core/commands.cpp, on a server without deadlines.
use hermitdb.Prelude.{
  ◌≡◌, inl, inr, refl, [], ◌∷◌, Option, none, some, Bytes, codes, if◌then◌else◌, arith, Bool-cases,
}
use hermitdb.Prelude.Int.{ℤ, pos, negsuc}
use hermitdb.Prelude.Map.{find}
use hermitdb.Protocol.Decimal.{parse_i64, to_string_i64}
use hermitdb.Protocol.Parser.{Command}
use hermitdb.Protocol.Writer.{error, integer}
use hermitdb.Core.Fault.{ret}
use hermitdb.Core.Db
use hermitdb.Core.Db.{Db}
use hermitdb.Core.Server.{Host, Server, touch}
use hermitdb.Core.Replies.{wrong_arity, wrongtype, not_an_integer}
use hermitdb.Core.Commands.Strings.{
  cmd_get, get_reply, cmd_incr, cmd_decr, cmd_incrby, incr_by, incr_parsed, next_value,
  counter_value, store_next,
}
use hermitdb.Core.Dispatch.{log_nothing, log_counted}
use hermitdb.Core.Logged.{plain, Faithful, refused-Faithful, read-Faithful, Steps, stepped-Faithful}

-- without a deadline, `touch` does nothing
touch-plain :
    {h : Host} (key : Bytes) (s : Server h) (db : Db)
    → touch key (plain s db) ≡ ret (tt, plain s db)
unfolding touch find
touch-plain key s db = refl

module _ {h : Host} where
  pub cmd_get-Faithful : (cmd : Command) (db : Db) → Faithful (cmd_get {h = h}) log_nothing cmd db
  unfolding cmd_get touch find
  cmd_get-Faithful [] db = read-Faithful cmd_get [] db (wrong_arity (codes "get")) (λ s. refl)
  cmd_get-Faithful (c ∷ []) db =
      read-Faithful cmd_get (c ∷ []) db (wrong_arity (codes "get")) (λ s. refl)
  cmd_get-Faithful (c ∷ key ∷ []) db =
      read-Faithful cmd_get (c ∷ key ∷ []) db
        (if Db.is_list (Db.key_type key db) then wrongtype else get_reply (Db.get key db))
        (λ s. ground arith)
  cmd_get-Faithful (c ∷ key ∷ x ∷ args) db =
      read-Faithful cmd_get (c ∷ key ∷ x ∷ args) db (wrong_arity (codes "get")) (λ s. refl)

  store_next-Steps : (key : Bytes) (o : Option ℤ) (db : Db) → Steps {h = h} (store_next key o) db
  unfolding not_an_integer error integer
  store_next-Steps key none db = (not_an_integer, db, inl (refl, refl), λ s. refl)
  store_next-Steps key (some n) db =
      (integer n, Db.set key (to_string_i64 n) db, inr refl, λ s. refl)

  incr_by-Steps : (key : Bytes) (delta : ℤ) (db : Db) → Steps {h = h} (incr_by key delta) db
  unfolding incr_by touch find wrongtype error
  incr_by-Steps key delta db = elim (Bool-cases (Db.is_list (Db.key_type key db))) [
    | inl e ↦ (wrongtype, db, inl (refl, refl), λ s. ground (arith, e))
    | inr e ↦
        let (reply, after, counted, runs) =
          store_next-Steps key (next_value (counter_value (Db.get key db)) delta) db in
        (reply, after, counted, λ s. ground (arith, e, runs s))
  ]

  pub cmd_incr-Faithful : (cmd : Command) (db : Db) → Faithful (cmd_incr {h = h}) log_counted cmd db
  unfolding cmd_incr wrong_arity error
  cmd_incr-Faithful [] db =
      refused-Faithful cmd_incr [] db (wrong_arity (codes "incr")) log_counted refl (λ s. refl)
  cmd_incr-Faithful (c ∷ []) db =
      refused-Faithful cmd_incr (c ∷ []) db (wrong_arity (codes "incr")) log_counted refl
        (λ s. refl)
  cmd_incr-Faithful (c ∷ key ∷ []) db =
      stepped-Faithful cmd_incr (c ∷ key ∷ []) db (incr_by key (pos 1)) (λ s. refl)
        (incr_by-Steps key (pos 1) db)
  cmd_incr-Faithful (c ∷ key ∷ x ∷ args) db =
      refused-Faithful cmd_incr (c ∷ key ∷ x ∷ args) db (wrong_arity (codes "incr")) log_counted
        refl (λ s. refl)

  pub cmd_decr-Faithful : (cmd : Command) (db : Db) → Faithful (cmd_decr {h = h}) log_counted cmd db
  unfolding cmd_decr wrong_arity error
  cmd_decr-Faithful [] db =
      refused-Faithful cmd_decr [] db (wrong_arity (codes "decr")) log_counted refl (λ s. refl)
  cmd_decr-Faithful (c ∷ []) db =
      refused-Faithful cmd_decr (c ∷ []) db (wrong_arity (codes "decr")) log_counted refl
        (λ s. refl)
  cmd_decr-Faithful (c ∷ key ∷ []) db =
      stepped-Faithful cmd_decr (c ∷ key ∷ []) db (incr_by key (negsuc 0)) (λ s. refl)
        (incr_by-Steps key (negsuc 0) db)
  cmd_decr-Faithful (c ∷ key ∷ x ∷ args) db =
      refused-Faithful cmd_decr (c ∷ key ∷ x ∷ args) db (wrong_arity (codes "decr")) log_counted
        refl (λ s. refl)

  incr_parsed-Steps : (key : Bytes) (o : Option ℤ) (db : Db) → Steps {h = h} (incr_parsed key o) db
  unfolding not_an_integer error
  incr_parsed-Steps key none db = (not_an_integer, db, inl (refl, refl), λ s. refl)
  incr_parsed-Steps key (some n) db = incr_by-Steps key n db

  pub cmd_incrby-Faithful :
      (cmd : Command) (db : Db) → Faithful (cmd_incrby {h = h}) log_counted cmd db
  unfolding cmd_incrby wrong_arity error
  cmd_incrby-Faithful [] db =
      refused-Faithful cmd_incrby [] db (wrong_arity (codes "incrby")) log_counted refl (λ s. refl)
  cmd_incrby-Faithful (c ∷ []) db =
      refused-Faithful cmd_incrby (c ∷ []) db (wrong_arity (codes "incrby")) log_counted refl
        (λ s. refl)
  cmd_incrby-Faithful (c ∷ key ∷ []) db =
      refused-Faithful cmd_incrby (c ∷ key ∷ []) db (wrong_arity (codes "incrby")) log_counted refl
        (λ s. refl)
  cmd_incrby-Faithful (c ∷ key ∷ delta ∷ []) db =
      stepped-Faithful cmd_incrby (c ∷ key ∷ delta ∷ []) db (incr_parsed key (parse_i64 delta))
        (λ s. refl) (incr_parsed-Steps key (parse_i64 delta) db)
  cmd_incrby-Faithful (c ∷ key ∷ delta ∷ x ∷ args) db =
      refused-Faithful cmd_incrby (c ∷ key ∷ delta ∷ x ∷ args) db (wrong_arity (codes "incrby"))
        log_counted refl (λ s. refl)

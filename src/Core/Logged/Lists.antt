-- ===== src/Core/Logged/Lists.antt =====
-- The list commands of src/core/commands.cpp, on a server without deadlines.
use hermitdb.Prelude.{
  ℕ, ◌≡◌, inl, inr, refl, ap, ◌∙◌, List, [], ◌∷◌, Bytes, codes, Bool, true, false, arith,
  Bool-cases,
}
use hermitdb.Prelude.Int.{pos}
use hermitdb.Prelude.Map.{find, put}
use hermitdb.Protocol.Parser.{Command}
use hermitdb.Protocol.Writer.{error, integer}
use hermitdb.Core.Fault.{ret}
use hermitdb.Core.Db
use hermitdb.Core.Db.{Db, list, popped}
use hermitdb.Core.Server.{Host, Server, touch, on_db, pure, ◌>>=◌}
use hermitdb.Core.Replies.{wrong_arity, wrongtype}
use hermitdb.Core.Commands.Lists.{push_all, push_values, push_generic, cmd_lpush, cmd_rpush}
use hermitdb.Core.Dispatch.{log_counted, is_error}
use hermitdb.Core.Healthy.ListSteps.{NoString, push_one-Pushed, NoString-put}
use hermitdb.Core.Logged.{plain, Faithful, Steps, stepped-Faithful}

module _ {h : Host} where
  pushed-plain :
      (left : Bool) (key : Bytes) (values : List Bytes) (n : ℕ) (db : Db)
      → NoString key db
      → (m : ℕ) × (after : Db) × ((s : Server h)
          → push_all left key values n (plain s db) ≡ ret (m, plain s after))
  unfolding push_all
  pushed-plain left key [] n db free = (n, db, λ s. refl)
  pushed-plain left key (value ∷ values) n db free =
      let (l, n', e, _) = push_one-Pushed left key value db free in
      let (m, after, more) =
        pushed-plain left key values n' (put key (list l) db) (NoString-put key l db) in
      (
        m,
        after,
        λ s.
            ap (λ r. (on_db (λ _. r) >>= λ len. push_all left key values len) (plain s db)) e
            ∙ more s,
      )

  push_values-Steps :
      (left : Bool) (key : Bytes) (values : List Bytes) (db : Db)
      → Steps {h = h} (push_values left key values) db
  unfolding push_values touch find wrongtype error integer
  push_values-Steps left key values db = elim (Bool-cases (Db.is_string (Db.key_type key db))) [
    | inl e ↦ (wrongtype, db, inl (refl, refl), λ s. ground (arith, e))
    | inr e ↦
        let (m, after, runs) = pushed-plain left key values 0 db e in
        (
          integer (pos m),
          after,
          inr refl,
          λ s. ground (
            arith,
            e,
            ap (λ r. ((λ _. r) >>= λ len. pure {h = h} (integer (pos len))) s) (runs s),
          ),
        )
  ]

  push_generic-Steps :
      (name : Bytes) (cmd : Command) (left : Bool) (db : Db)
      → is_error (wrong_arity name) ≡ true
      → Steps {h = h} (push_generic name cmd left) db
  unfolding push_generic
  push_generic-Steps name [] left db e = (wrong_arity name, db, inl (e, refl), λ s. refl)
  push_generic-Steps name (c ∷ []) left db e = (wrong_arity name, db, inl (e, refl), λ s. refl)
  push_generic-Steps name (c ∷ key ∷ []) left db e =
      (wrong_arity name, db, inl (e, refl), λ s. refl)
  push_generic-Steps name (c ∷ key ∷ value ∷ values) left db e =
      push_values-Steps left key (value ∷ values) db

  pub cmd_lpush-Faithful :
      (cmd : Command) (db : Db) → Faithful (cmd_lpush {h = h}) log_counted cmd db
  unfolding cmd_lpush wrong_arity error
  cmd_lpush-Faithful cmd db =
      stepped-Faithful cmd_lpush cmd db (push_generic (codes "lpush") cmd true) (λ s. refl)
        (push_generic-Steps (codes "lpush") cmd true db refl)

  pub cmd_rpush-Faithful :
      (cmd : Command) (db : Db) → Faithful (cmd_rpush {h = h}) log_counted cmd db
  unfolding cmd_rpush wrong_arity error
  cmd_rpush-Faithful cmd db =
      stepped-Faithful cmd_rpush cmd db (push_generic (codes "rpush") cmd false) (λ s. refl)
        (push_generic-Steps (codes "rpush") cmd false db refl)

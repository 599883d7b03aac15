-- ===== src/Core/Logged/Ttl.antt =====
-- TTL, PTTL and PERSIST of src/core/commands.cpp, on a server without deadlines.
use hermitdb.Prelude.{
  ◌≡◌, inl, refl, [], ◌∷◌, Bytes, codes, Bool, true, false, bytes_eq, if◌then◌else◌, arith,
}
use hermitdb.Prelude.Int.{pos, negsuc}
use hermitdb.Prelude.Map.{find}
use hermitdb.Protocol.Parser.{Command}
use hermitdb.Protocol.Decimal.{to_string, to_string_i64}
use hermitdb.Protocol.Writer.{error, integer}
use hermitdb.Core.Fault.{ret}
use hermitdb.Core.Db
use hermitdb.Core.Db.{Db}
use hermitdb.Core.Expiry
use hermitdb.Core.Server.{Host, Server, touch}
use hermitdb.Core.Replies.{wrong_arity}
use hermitdb.Core.Commands.Ttl.{ttl_of, ttl_generic, cmd_ttl, cmd_pttl, cmd_persist}
use hermitdb.Core.Dispatch.{log_nothing, log_persist, records_of}
use hermitdb.Core.Logged.{plain, logged_records, Faithful, refused-Faithful, read-Faithful}

logged-persist : (c key : Bytes) → logged_records log_persist (c ∷ key ∷ []) (integer (pos 0)) ≡ []
unfolding logged_records records_of integer bytes_eq to_string to_string_i64
logged-persist c key = refl

module _ {h : Host} where
  -- the key has no deadline, or there is no key
  ttl_of-plain :
      (key : Bytes) (seconds : Bool) (db : Db) (s : Server h)
      → ttl_of key seconds (plain s db)
        ≡ ret (integer (if Db.exists key db then negsuc 0 else negsuc 1), plain s db)
  unfolding ttl_of touch find Expiry.expiry_at
  ttl_of-plain key seconds db s = ground arith

  pub cmd_ttl-Faithful : (cmd : Command) (db : Db) → Faithful (cmd_ttl {h = h}) log_nothing cmd db
  unfolding cmd_ttl ttl_generic
  cmd_ttl-Faithful [] db = read-Faithful cmd_ttl [] db (wrong_arity (codes "ttl")) (λ s. refl)
  cmd_ttl-Faithful (c ∷ []) db =
      read-Faithful cmd_ttl (c ∷ []) db (wrong_arity (codes "ttl")) (λ s. refl)
  cmd_ttl-Faithful (c ∷ key ∷ []) db =
      read-Faithful cmd_ttl (c ∷ key ∷ []) db
        (integer (if Db.exists key db then negsuc 0 else negsuc 1)) (ttl_of-plain key true db)
  cmd_ttl-Faithful (c ∷ key ∷ x ∷ args) db =
      read-Faithful cmd_ttl (c ∷ key ∷ x ∷ args) db (wrong_arity (codes "ttl")) (λ s. refl)

  pub cmd_pttl-Faithful : (cmd : Command) (db : Db) → Faithful (cmd_pttl {h = h}) log_nothing cmd db
  unfolding cmd_pttl ttl_generic
  cmd_pttl-Faithful [] db = read-Faithful cmd_pttl [] db (wrong_arity (codes "pttl")) (λ s. refl)
  cmd_pttl-Faithful (c ∷ []) db =
      read-Faithful cmd_pttl (c ∷ []) db (wrong_arity (codes "pttl")) (λ s. refl)
  cmd_pttl-Faithful (c ∷ key ∷ []) db =
      read-Faithful cmd_pttl (c ∷ key ∷ []) db
        (integer (if Db.exists key db then negsuc 0 else negsuc 1)) (ttl_of-plain key false db)
  cmd_pttl-Faithful (c ∷ key ∷ x ∷ args) db =
      read-Faithful cmd_pttl (c ∷ key ∷ x ∷ args) db (wrong_arity (codes "pttl")) (λ s. refl)

  pub cmd_persist-Faithful :
      (cmd : Command) (db : Db) → Faithful (cmd_persist {h = h}) log_persist cmd db
  unfolding cmd_persist touch find Expiry.expiry_at wrong_arity error
  cmd_persist-Faithful [] db =
      refused-Faithful cmd_persist [] db (wrong_arity (codes "persist")) log_persist refl
        (λ s. refl)
  cmd_persist-Faithful (c ∷ []) db =
      refused-Faithful cmd_persist (c ∷ []) db (wrong_arity (codes "persist")) log_persist refl
        (λ s. refl)
  cmd_persist-Faithful (c ∷ key ∷ []) db = record {
    reply = integer (pos 0);
    after = db;
    runs = λ s. ground arith;
    logs = inl (logged-persist c key, refl);
  }
  cmd_persist-Faithful (c ∷ key ∷ x ∷ args) db =
      refused-Faithful cmd_persist (c ∷ key ∷ x ∷ args) db (wrong_arity (codes "persist"))
        log_persist refl (λ s. refl)

-- ===== src/Core/Logged.antt =====
-- Commands on a server without deadlines, and the records that the log gets of them.
pub mod Strings
pub mod Set
pub mod Keys
pub mod Ttl
pub mod Lists
pub mod Pops
pub mod Misc
pub mod Table
use hermitdb.Prelude.{
  ℕ, ◌≡◌, ◌⊎◌, inl, inr, refl, ap, ◌∙◌, List, [], ◌∷◌, Option, none, some, Bytes, codes, Bool, true,
  false, ◌||◌, bytes_eq, if◌then◌else◌, arith,
}
use hermitdb.Protocol.Parser.{Command}
use hermitdb.Core.Fault.{Result, ret}
use hermitdb.Core.Db
use hermitdb.Core.Db.{Db}
use hermitdb.Core.Expiry.{empty}
use hermitdb.Core.Server.{Host, Server, M}
use hermitdb.Core.Replies.{upper}
use hermitdb.Core.Dispatch.{LogRule, records_of, is_error, is_integer}

-- The server with this keyspace, and without a deadline.
abbrev pub plain : {h : Host} → Server h → Db → Server h
plain s db = record s { db = db; expiry = empty }

-- What `log_mutation` writes of a command with this reply, where the key has no deadline.
unfoldable pub logged_records : LogRule → Command → Bytes → List Command
logged_records rule cmd reply = if is_error reply then [] else records_of rule cmd reply none

abbrev pub set_record : Bytes → Bytes → Command
set_record key value = codes "SET" ∷ key ∷ value ∷ []

-- The records of a command that takes the keyspace from `db` to `db'`: none, and the keyspace is the
-- same; or the command itself; or a SET that makes the same keyspace.
abbrev pub Logs : LogRule → Command → Bytes → Db → Db → Type 0
Logs rule cmd reply db db' =
    ((logged_records rule cmd reply ≡ []) × (db ≡ db'))
    ⊎ (logged_records rule cmd reply ≡ cmd ∷ [])
    ⊎ ((key value : Bytes) × (logged_records rule cmd reply ≡ set_record key value ∷ [])
        × (Db.set key value db ≡ db'))

-- What a handler does to a keyspace without deadlines: the reply and the keyspace do not depend on the
-- rest of the server, which stays as it is, and the log gets what makes the same change.
pub record Faithful {h : Host} (f : Command → M h Bytes) (rule : LogRule) (cmd : Command) (db : Db)
    : Type 0 where
  pub reply : Bytes
  pub after : Db
  pub runs : (s : Server h) → f cmd (plain s db) ≡ ret (reply, plain s after)
  pub logs : Logs rule cmd reply db after

-- an error reply is not logged
pub logged-is_error :
    (rule : LogRule) (cmd : Command) (reply : Bytes)
    → is_error reply ≡ true
    → logged_records rule cmd reply ≡ []
unfolding logged_records
logged-is_error rule cmd reply e = rw e refl

logged-log_nothing :
    (cmd : Command) (reply : Bytes) → logged_records LogRule.log_nothing cmd reply ≡ []
unfolding logged_records records_of
logged-log_nothing cmd reply = ground arith

module _ {h : Host} (f : Command → M h Bytes) (cmd : Command) (db : Db) (reply : Bytes) where
  -- a command that is refused
  pub refused-Faithful :
      (rule : LogRule)
      → is_error reply ≡ true
      → ((s : Server h) → f cmd (plain s db) ≡ ret (reply, plain s db))
      → Faithful f rule cmd db
  refused-Faithful rule e runs = record {
    reply = reply;
    after = db;
    runs = runs;
    logs = inl (logged-is_error rule cmd reply e, refl);
  }

  -- a command that only reads
  pub read-Faithful :
      ((s : Server h) → f cmd (plain s db) ≡ ret (reply, plain s db))
      → Faithful f LogRule.log_nothing cmd db
  read-Faithful runs = record {
    reply = reply;
    after = db;
    runs = runs;
    logs = inl (logged-log_nothing cmd reply, refl);
  }

  -- a command that is logged as it is
  pub verbatim-Faithful :
      (rule : LogRule) (after : Db)
      → logged_records rule cmd reply ≡ cmd ∷ []
      → ((s : Server h) → f cmd (plain s db) ≡ ret (reply, plain s after))
      → Faithful f rule cmd db
  verbatim-Faithful rule after e runs = record {
    reply = reply;
    after = after;
    runs = runs;
    logs = inr (inl e);
  }

-- The reply is an error and the keyspace is the same, or the reply is a number.
abbrev pub Counted : Bytes → Db → Db → Type 0
Counted reply db db' = ((is_error reply ≡ true) × (db ≡ db')) ⊎ (is_integer reply ≡ true)

logged-counted :
    (cmd : Command) (reply : Bytes)
    → is_integer reply ≡ true
    → logged_records LogRule.log_counted cmd reply ≡ cmd ∷ []
unfolding logged_records records_of
logged-counted cmd [] e = cc
logged-counted cmd (c ∷ reply) e = ground (arith, e)

pub numbered-Faithful :
    {h : Host} (f : Command → M h Bytes) (cmd : Command) (db : Db) (reply : Bytes) (after : Db)
    → Counted reply db after
    → ((s : Server h) → f cmd (plain s db) ≡ ret (reply, plain s after))
    → Faithful f LogRule.log_counted cmd db
numbered-Faithful f cmd db reply after counted runs = record {
  reply = reply;
  after = after;
  runs = runs;
  logs = elim counted [
    | inl (e, same) ↦ inl (logged-is_error LogRule.log_counted cmd reply e, same)
    | inr e ↦ inr (inl (logged-counted cmd reply e))
  ];
}

module _ {h : Host} where
  -- what a step leaves of a keyspace without deadlines, and the reply
  abbrev pub Steps : M h Bytes → Db → Type 0
  Steps m db =
      (reply : Bytes) × (after : Db) × Counted reply db after
      × ((s : Server h) → m (plain s db) ≡ ret (reply, plain s after))

  -- a command that does what such a step does
  pub stepped-Faithful :
      (f : Command → M h Bytes) (cmd : Command) (db : Db) (m : M h Bytes)
      → ((s : Server h) → f cmd s ≡ m s)
      → Steps m db
      → Faithful f LogRule.log_counted cmd db
  stepped-Faithful f cmd db m same (reply, after, counted, runs) =
      numbered-Faithful f cmd db reply after counted (λ s. same (plain s db) ∙ runs s)

-- ===== src/Core/Healthy/Whole.antt =====
-- `execute` of src/core/commands.cpp on a healthy server.
use hermitdb.Prelude.{
  ◌≡◌, List, [], ◌∷◌, Option, none, some, Bytes, Bool, true, false, arith, bytes_eq, if◌then◌else◌,
}
use hermitdb.Prelude.Map.{Map, find}
use hermitdb.Protocol.Parser.{Command}
use hermitdb.Core.Expiry
use hermitdb.Core.Server.{Host, Server, M, ◌>>◌, append_record}
use hermitdb.Core.Server.Touch.{Answers, append_record-Leaves}
use hermitdb.Core.Replies.{upper}
use hermitdb.Core.Commands.Misc.{cmd_ping, cmd_echo, cmd_command, cmd_config}
use hermitdb.Core.Dispatch.{
  table, rule_of, records_of, put_records, log_mutation, logged, answer, run_handler, dispatch,
  execute, key_of,
}
use hermitdb.Core.Healthy.Steps.{Healthy, Safe, bind-Safe}
use hermitdb.Core.Healthy.Strings.{
  cmd_get-Safe, cmd_set-Safe, cmd_incr-Safe, cmd_decr-Safe, cmd_incrby-Safe,
}
use hermitdb.Core.Healthy.Keys.{
  cmd_del-Safe, cmd_exists-Safe, cmd_type-Safe, cmd_keys-Safe, cmd_dbsize-Safe, cmd_flushall-Safe,
}
use hermitdb.Core.Healthy.Ttl.{
  cmd_expire-Safe, cmd_pexpire-Safe, cmd_pexpireat-Safe, cmd_ttl-Safe, cmd_pttl-Safe,
  cmd_persist-Safe,
}
use hermitdb.Core.Healthy.Lists.{
  cmd_lpush-Safe, cmd_rpush-Safe, cmd_lpop-Safe, cmd_rpop-Safe, cmd_llen-Safe, cmd_lrange-Safe,
}

infixr 5 ◌&◌
abbrev ◌&◌ : {A B : Type 0} → A → B → A × B
a & b = (a, b)

module _ {h : Host} where
  -- the handler is safe on every command and healthy server
  abbrev SafeHandler : (Command → M h Bytes) → Type 0
  SafeHandler f = (cmd : Command) (s : Server h) → Healthy s → Safe (f cmd s)

  -- the handlers that touch no key
  cmd_ping-Safe : SafeHandler cmd_ping
  unfolding cmd_ping
  cmd_ping-Safe [] s ok = ok
  cmd_ping-Safe (c ∷ []) s ok = ok
  cmd_ping-Safe (c ∷ m ∷ []) s ok = ok
  cmd_ping-Safe (c ∷ m ∷ x ∷ args) s ok = ok

  cmd_echo-Safe : SafeHandler cmd_echo
  unfolding cmd_echo
  cmd_echo-Safe [] s ok = ok
  cmd_echo-Safe (c ∷ []) s ok = ok
  cmd_echo-Safe (c ∷ m ∷ []) s ok = ok
  cmd_echo-Safe (c ∷ m ∷ x ∷ args) s ok = ok

  cmd_command-Safe : SafeHandler cmd_command
  unfolding cmd_command
  cmd_command-Safe cmd s ok = ok

  cmd_config-Safe : SafeHandler cmd_config
  unfolding cmd_config
  cmd_config-Safe [] s ok = ok
  cmd_config-Safe (c ∷ []) s ok = ok
  cmd_config-Safe (c ∷ sub ∷ args) s ok = ok

  abbrev AllSafe : Map (Command → M h Bytes) → Type 0
  AllSafe [] = Unit
  AllSafe ((name, f) ∷ m) = SafeHandler f × AllSafe m

  abbrev FoundSafe : Option (Command → M h Bytes) → Type 0
  FoundSafe none = Unit
  FoundSafe (some f) = SafeHandler f

  -- what is found in such a table
  found-Safe : (name : Bytes) (m : Map (Command → M h Bytes)) → AllSafe m → FoundSafe (find name m)
  unfolding find
  found-Safe name [] all = tt
  found-Safe name ((j, f) ∷ m) all =
      choose (bytes_eq j name) (some f) (find name m) all.0 (found-Safe name m all.1)
    where
      choose :
          (b : Bool) (x y : Option (Command → M h Bytes))
          → FoundSafe x
          → FoundSafe y
          → FoundSafe (if b then x else y)
      choose true x y p q = p
      choose false x y p q = q

  module _ (answers : Answers h) where
    append_record-Safe : (r : Command) (s : Server h) → Healthy s → Safe (append_record {h = h} r s)
    append_record-Safe r s ok =
        let (s', e, db, table) = append_record-Leaves answers r s in rw e (kept s' db table)
      where
        kept : (s' : Server h) → s'.db ≡ s.db → s'.expiry ≡ s.expiry → Healthy s'
        kept s' db table = rw (db, table) ok

    put_records-Safe :
        (rs : List Command) (s : Server h) → Healthy s → Safe (put_records {h = h} rs s)
    unfolding put_records
    put_records-Safe [] s ok = ok
    put_records-Safe (r ∷ rs) s ok =
        bind-Safe (append_record r) (λ _. put_records rs) s (append_record-Safe r s ok)
          (λ a t k. put_records-Safe rs t k)

    logged-Safe :
        (name : Bytes) (cmd : Command) (reply : Bytes) (s : Server h)
        → Healthy s
        → Safe (logged {h = h} name cmd reply s)
    unfolding log_mutation
    logged-Safe name cmd reply s ok = ground (
      arith,
      put_records-Safe
          (records_of (rule_of name) cmd reply (Expiry.expiry_at (key_of cmd) s.expiry)) s ok,
    )

    run_handler-Safe :
        (name : Bytes) (cmd : Command) (o : Option (Command → M h Bytes)) (s : Server h)
        → FoundSafe o
        → Healthy s
        → Safe (run_handler {h = h} name cmd o s)
    run_handler-Safe name [] o s found ok = ok
    run_handler-Safe name (c ∷ args) none s found ok = ok
    run_handler-Safe name (c ∷ args) (some f) s found ok =
        bind-Safe (f (c ∷ args)) (λ reply. logged name (c ∷ args) reply >> answer reply) s
          (found (c ∷ args) s ok)
          (λ reply t k.
            bind-Safe (logged name (c ∷ args) reply) (λ _. answer reply) t
              (logged-Safe name (c ∷ args) reply t k) (λ a u l. l))

table-AllSafe : (h : Host) → Answers h → AllSafe (table {h = h})
unfolding table
table-AllSafe h answers =
    cmd_ping-Safe
    & cmd_echo-Safe
    & cmd_set-Safe answers
    & cmd_get-Safe answers
    & cmd_del-Safe answers
    & cmd_exists-Safe answers
    & cmd_expire-Safe answers
    & cmd_pexpire-Safe answers
    & cmd_ttl-Safe answers
    & cmd_pexpireat-Safe answers
    & cmd_pttl-Safe answers
    & cmd_persist-Safe answers
    & cmd_incr-Safe answers
    & cmd_decr-Safe answers
    & cmd_incrby-Safe answers
    & cmd_type-Safe answers
    & cmd_flushall-Safe answers
    & cmd_dbsize-Safe answers
    & cmd_keys-Safe answers
    & cmd_config-Safe
    & cmd_command-Safe
    & cmd_lpush-Safe answers
    & cmd_rpush-Safe answers
    & cmd_lpop-Safe answers
    & cmd_rpop-Safe answers
    & cmd_lrange-Safe answers
    & cmd_llen-Safe answers
    & tt

module _ {h : Host} (answers : Answers h) where
  -- On a log whose appends return, and a server where no list is empty, the table of deadlines is
  -- consistent and only keys of the keyspace have deadlines, `execute` returns a reply and leaves such
  -- a server, or an `int64_t` overflows: no command reads a value as the wrong type or takes an
  -- element of an empty list.
  pub execute_lem : (cmd : Command) (s : Server h) → Healthy s → Safe (execute {h = h} cmd s)
  unfolding execute dispatch
  execute_lem [] s ok = ground arith
  execute_lem (c ∷ args) s ok = ground (
    arith,
    run_handler-Safe answers (upper c) (c ∷ args) (find (upper c) table) s
        (found-Safe (upper c) table (table-AllSafe h answers)) ok,
  )

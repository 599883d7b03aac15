-- ===== src/Core/Logged/Table.antt =====
-- The table of src/core/commands.cpp: its handlers on a server without deadlines.
use hermitdb.Prelude.{
  ◌≡◌, sym, [], ◌∷◌, Option, none, some, Bytes, Bool, true, false, not, arith, bytes_eq,
  bytes_eq_iff, Bool-cases, inl, inr,
}
use hermitdb.Prelude.Map.{Map, find}
use hermitdb.Protocol.Parser.{Command}
use hermitdb.Core.Db.{Db}
use hermitdb.Core.Db.Reachable.{NoEmptyList}
use hermitdb.Core.Server.{Host, M}
use hermitdb.Core.Replies.{upper}
use hermitdb.Core.Dispatch.{
  table, rule_of, is_one_of, LogRule, log_set, log_expire, log_persist, log_del, log_counted,
  log_popped, log_flushed, log_nothing,
}
use hermitdb.Core.Logged.{Faithful}
use hermitdb.Core.Logged.Strings.{
  cmd_get-Faithful, cmd_incr-Faithful, cmd_decr-Faithful, cmd_incrby-Faithful,
}
use hermitdb.Core.Logged.Set.{has_time, behind_value, cmd_set-Faithful}
use hermitdb.Core.Logged.Keys.{
  cmd_del-Faithful, cmd_exists-Faithful, cmd_type-Faithful, cmd_keys-Faithful, cmd_dbsize-Faithful,
  cmd_flushall-Faithful,
}
use hermitdb.Core.Logged.Ttl.{cmd_ttl-Faithful, cmd_pttl-Faithful, cmd_persist-Faithful}
use hermitdb.Core.Logged.Lists.{cmd_lpush-Faithful, cmd_rpush-Faithful}
use hermitdb.Core.Logged.Pops.{
  cmd_lpop-Faithful, cmd_rpop-Faithful, cmd_llen-Faithful, cmd_lrange-Faithful,
}
use hermitdb.Core.Logged.Misc.{
  cmd_ping-Faithful, cmd_echo-Faithful, cmd_command-Faithful, cmd_config-Faithful,
}

-- whether a command with this rule gives no key a deadline
abbrev pub without_time : LogRule → Command → Bool
without_time log_set cmd = not (has_time (behind_value cmd))
without_time log_expire cmd = false
without_time log_persist cmd = true
without_time log_del cmd = true
without_time log_counted cmd = true
without_time log_popped cmd = true
without_time log_flushed cmd = true
without_time log_nothing cmd = true

-- whether a command is none of the three that set deadlines, nor a SET with EX or PX
unfoldable pub timeless : Command → Bool
unfolding rule_of
timeless [] = true
timeless (c ∷ args) = without_time (rule_of (upper c)) (c ∷ args)

infixr 5 ◌&◌
abbrev ◌&◌ : {A B : Type 0} → A → B → A × B
a & b = (a, b)

not-true : {b : Bool} → not b ≡ true → b ≡ false
not-true e = ground arith

module _ {h : Host} where
  abbrev FaithfulHandler : LogRule → (Command → M h Bytes) → Type 0
  FaithfulHandler rule f =
      (cmd : Command) (db : Db)
      → NoEmptyList db
      → without_time rule cmd ≡ true
      → Faithful f rule cmd db

  abbrev AllFaithful : Map (Command → M h Bytes) → Type 0
  AllFaithful [] = Unit
  AllFaithful ((name, f) ∷ m) = FaithfulHandler (rule_of name) f × AllFaithful m

  abbrev FoundFaithful : Bytes → Option (Command → M h Bytes) → Type 0
  FoundFaithful name none = Unit
  FoundFaithful name (some f) = FaithfulHandler (rule_of name) f

  -- what is found in such a table
  found-Faithful :
      (name : Bytes) (m : Map (Command → M h Bytes))
      → AllFaithful m
      → FoundFaithful name (find name m)
  unfolding find
  found-Faithful name [] all = tt
  found-Faithful name ((j, f) ∷ m) all = elim (Bool-cases (bytes_eq j name)) [
    | inl e ↦ rw (e, sym ((bytes_eq_iff j name).0 e)) all.0
    | inr e ↦ rw e (found-Faithful name m all.1)
  ]

  -- a handler whose rule is the same for all commands
  always :
      {rule : LogRule} {f : Command → M h Bytes}
      → ((cmd : Command) (db : Db) → Faithful f rule cmd db)
      → FaithfulHandler rule f
  always g cmd db full e = g cmd db

table-AllFaithful : (h : Host) → AllFaithful (table {h = h})
unfolding table rule_of is_one_of bytes_eq
table-AllFaithful h =
    always cmd_ping-Faithful
    & always cmd_echo-Faithful
    & (λ cmd db full e. cmd_set-Faithful cmd db (not-true e))
    & always cmd_get-Faithful
    & always cmd_del-Faithful
    & always cmd_exists-Faithful
    & (λ cmd db full e. cc)
    & (λ cmd db full e. cc)
    & always cmd_ttl-Faithful
    & (λ cmd db full e. cc)
    & always cmd_pttl-Faithful
    & always cmd_persist-Faithful
    & always cmd_incr-Faithful
    & always cmd_decr-Faithful
    & always cmd_incrby-Faithful
    & always cmd_type-Faithful
    & always cmd_flushall-Faithful
    & always cmd_dbsize-Faithful
    & always cmd_keys-Faithful
    & always cmd_config-Faithful
    & always cmd_command-Faithful
    & always cmd_lpush-Faithful
    & always cmd_rpush-Faithful
    & (λ cmd db full e. cmd_lpop-Faithful cmd db full)
    & (λ cmd db full e. cmd_rpop-Faithful cmd db full)
    & always cmd_lrange-Faithful
    & always cmd_llen-Faithful
    & tt

module _ {h : Host} where
  -- the handler that the table has for a command, if it has one
  pub table-Faithful :
      (name : Bytes) (f : Command → M h Bytes)
      → find name table ≡ some f
      → (cmd : Command) (db : Db) → NoEmptyList db
      → without_time (rule_of name) cmd ≡ true
      → Faithful f (rule_of name) cmd db
  table-Faithful name f e =
      let found : FoundFaithful {h = h} name (find name table) =
        found-Faithful name table (table-AllFaithful h) in
      rw e at found

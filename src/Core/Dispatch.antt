-- ===== src/Core/Dispatch.antt =====
-- CommandDispatcher::execute and log_mutation of src/core/commands.cpp.
use hermitdb.Prelude.{
  List, [], ◌∷◌, ◌++◌, Option, none, some, Bytes, codes, crlf, Bool, true, false, not, ◌&&◌, ◌||◌,
  ◌==◌, bytes_eq, if◌then◌else◌,
}
use hermitdb.Prelude.Int.{ℤ}
use hermitdb.Prelude.Map.{Map, find}
use hermitdb.Protocol.Decimal.{to_string_i64}
use hermitdb.Protocol.Writer.{simple, error}
use hermitdb.Protocol.Parser.{Command}
use hermitdb.Core.Fault.{ret}
use hermitdb.Core.Expiry
use hermitdb.Core.Server.{Host, M, ◌>>=◌, ◌>>◌, pure, append_record}
use hermitdb.Core.Replies.{upper, misconf}
use hermitdb.Core.Commands.Strings.{cmd_get, cmd_set, cmd_incr, cmd_decr, cmd_incrby}
use hermitdb.Core.Commands.Keys.{cmd_del, cmd_exists, cmd_type, cmd_keys, cmd_dbsize, cmd_flushall}
use hermitdb.Core.Commands.Ttl.{
  cmd_expire, cmd_pexpire, cmd_pexpireat, cmd_ttl, cmd_pttl, cmd_persist,
}
use hermitdb.Core.Commands.Lists.{cmd_lpush, cmd_rpush, cmd_lpop, cmd_rpop, cmd_llen, cmd_lrange}
use hermitdb.Core.Commands.Misc.{cmd_ping, cmd_echo, cmd_command, cmd_config}

module _ {h : Host} where
  unfoldable pub table : Map (Command → M h Bytes)
  table =
      (codes "PING", cmd_ping)
      ∷ (codes "ECHO", cmd_echo)
      ∷ (codes "SET", cmd_set)
      ∷ (codes "GET", cmd_get)
      ∷ (codes "DEL", cmd_del)
      ∷ (codes "EXISTS", cmd_exists)
      ∷ (codes "EXPIRE", cmd_expire)
      ∷ (codes "PEXPIRE", cmd_pexpire)
      ∷ (codes "TTL", cmd_ttl)
      ∷ (codes "PEXPIREAT", cmd_pexpireat)
      ∷ (codes "PTTL", cmd_pttl)
      ∷ (codes "PERSIST", cmd_persist)
      ∷ (codes "INCR", cmd_incr)
      ∷ (codes "DECR", cmd_decr)
      ∷ (codes "INCRBY", cmd_incrby)
      ∷ (codes "TYPE", cmd_type)
      ∷ (codes "FLUSHALL", cmd_flushall)
      ∷ (codes "DBSIZE", cmd_dbsize)
      ∷ (codes "KEYS", cmd_keys)
      ∷ (codes "CONFIG", cmd_config)
      ∷ (codes "COMMAND", cmd_command)
      ∷ (codes "LPUSH", cmd_lpush)
      ∷ (codes "RPUSH", cmd_rpush)
      ∷ (codes "LPOP", cmd_lpop)
      ∷ (codes "RPOP", cmd_rpop)
      ∷ (codes "LRANGE", cmd_lrange)
      ∷ (codes "LLEN", cmd_llen)
      ∷ []

-- `name == "A" || name == "B" || ...`
unfoldable pub is_one_of : Bytes → List Bytes → Bool
is_one_of name [] = false
is_one_of name (n ∷ names) = bytes_eq name n || is_one_of name names

abbrev pub is_error : Bytes → Bool
is_error [] = true
is_error (c ∷ _) = c == b'-'

abbrev pub is_integer : Bytes → Bool
is_integer [] = false
is_integer (c ∷ _) = c == b':'

-- Which rule of `log_mutation` is for a command.
pub data LogRule : Type 0 where
  log_set log_expire log_persist log_del log_counted log_popped log_flushed log_nothing : LogRule

unfoldable pub rule_of : Bytes → LogRule
unfolding is_one_of
rule_of name =
    if bytes_eq name (codes "SET")
    then log_set
    else if is_one_of name (codes "EXPIRE" ∷ codes "PEXPIRE" ∷ codes "PEXPIREAT" ∷ [])
    then log_expire
    else if bytes_eq name (codes "PERSIST")
    then log_persist
    else if bytes_eq name (codes "DEL")
    then log_del
    else if is_one_of name
        (codes "INCR" ∷ codes "DECR" ∷ codes "INCRBY" ∷ codes "LPUSH" ∷ codes "RPUSH" ∷ [])
    then log_counted
    else if is_one_of name (codes "LPOP" ∷ codes "RPOP" ∷ [])
    then log_popped
    else if bytes_eq name (codes "FLUSHALL")
    then log_flushed
    else log_nothing

abbrev pexpireat : Bytes → ℤ → Command
pexpireat key at = codes "PEXPIREAT" ∷ key ∷ to_string_i64 at ∷ []

-- The records that `log_mutation` puts, in order, from the reply and the deadline of the key.
unfoldable pub records_of : LogRule → Command → Bytes → Option ℤ → List Command
records_of log_set (_ ∷ key ∷ value ∷ _) reply none =
    if bytes_eq reply (codes "+OK" ++ crlf) then (codes "SET" ∷ key ∷ value ∷ []) ∷ [] else []
records_of log_set (_ ∷ key ∷ value ∷ _) reply (some at) =
    if bytes_eq reply (codes "+OK" ++ crlf)
    then (codes "SET" ∷ key ∷ value ∷ []) ∷ pexpireat key at ∷ []
    else []
records_of log_expire (_ ∷ key ∷ _) reply (some at) =
    if bytes_eq reply (codes ":1" ++ crlf) then pexpireat key at ∷ [] else []
records_of log_expire (_ ∷ key ∷ _) reply none =
    if bytes_eq reply (codes ":1" ++ crlf) then (codes "DEL" ∷ key ∷ []) ∷ [] else []
records_of log_persist (_ ∷ key ∷ _) reply at =
    if bytes_eq reply (codes ":1" ++ crlf) then (codes "PERSIST" ∷ key ∷ []) ∷ [] else []
records_of log_del cmd reply at = if bytes_eq reply (codes ":0" ++ crlf) then [] else cmd ∷ []
records_of log_counted cmd reply at = if is_integer reply then cmd ∷ [] else []
records_of log_popped cmd reply at = if bytes_eq reply (codes "$-1" ++ crlf) then [] else cmd ∷ []
records_of log_flushed cmd reply at = if bytes_eq reply (codes "+OK" ++ crlf) then cmd ∷ [] else []
records_of _ cmd reply at = []

abbrev pub key_of : Command → Bytes
key_of (_ ∷ key ∷ _) = key
key_of _ = []

module _ {h : Host} where
  -- `put(...)` for each record
  unfoldable pub put_records : List Command → M h (Unit {0})
  unfolding append_record
  put_records [] = pure tt
  put_records (r ∷ rs) = do append_record r; put_records rs

  unfoldable pub log_mutation : Bytes → Command → Bytes → M h (Unit {0})
  unfolding put_records records_of rule_of
  log_mutation name cmd reply s =
      if is_error reply
      then ret (tt, s)
      else put_records
          (records_of (rule_of name) cmd reply (Expiry.expiry_at (key_of cmd) s.expiry)) s

  abbrev pub logged : Bytes → Command → Bytes → M h (Unit {0})
  logged name cmd reply s =
      if s.attached && not s.persistence_failed then log_mutation name cmd reply s else ret (tt, s)

  abbrev pub answer : Bytes → M h Bytes
  answer reply s = ret (if s.persistence_failed then misconf else reply, s)

  abbrev pub run_handler : Bytes → Command → Option (Command → M h Bytes) → M h Bytes
  run_handler name [] _ = pure []
  run_handler name (c ∷ _) none = pure (error (codes "ERR unknown command '" ++ c ++ codes "'"))
  run_handler name (c ∷ args) (some handler) = do
    reply ← handler (c ∷ args)
    logged name (c ∷ args) reply
    answer reply

  unfoldable pub dispatch : Command → M h Bytes
  unfolding log_mutation table
  dispatch [] s = ret (error (codes "ERR empty command"), s)
  dispatch (c ∷ args) s =
      if bytes_eq (upper c) (codes "SHUTDOWN")
      then ret (simple (codes "OK"), record s { shutdown = true })
      else run_handler (upper c) (c ∷ args) (find (upper c) table) s

  -- CommandDispatcher::execute
  unfoldable pub execute : Command → M h Bytes
  unfolding dispatch
  execute cmd s = if s.persistence_failed then ret (misconf, s) else dispatch cmd s

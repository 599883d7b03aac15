-- ===== src/Core/Commands/Misc.antt =====
-- PING, ECHO, COMMAND and CONFIG: src/core/commands.cpp.
use hermitdb.Prelude.{List, [], ◌∷◌, Option, none, some, Bytes, codes, bytes_eq, if◌then◌else◌}
use hermitdb.Protocol.Writer.{simple, error, bulk, array, empty_array}
use hermitdb.Protocol.Parser.{Command}
use hermitdb.Core.Server.{Host, M, pure}
use hermitdb.Core.Replies.{upper, lower, wrong_arity}
use hermitdb.Prelude.Map.{Map, find}

abbrev known_config : Map Bytes
known_config =
    (codes "save", []) ∷ (codes "appendonly", codes "no") ∷ (codes "maxmemory", codes "0") ∷ []

abbrev config_reply : Bytes → Option Bytes → Bytes
config_reply name none = empty_array
config_reply name (some value) = array (bulk name ∷ bulk value ∷ [])

-- CONFIG GET, from its arguments on
abbrev config_get : List Bytes → Bytes
config_get (name ∷ []) = config_reply (lower name) (find (lower name) known_config)
config_get _ = wrong_arity (codes "config|get")

abbrev config_refused : Bytes
config_refused = error (codes "ERR CONFIG subcommand must be GET")

module _ {h : Host} where
  unfoldable pub cmd_ping : Command → M h Bytes
  cmd_ping (_ ∷ []) = pure (simple (codes "PONG"))
  cmd_ping (_ ∷ message ∷ []) = pure (bulk message)
  cmd_ping _ = pure (wrong_arity (codes "ping"))

  unfoldable pub cmd_echo : Command → M h Bytes
  cmd_echo (_ ∷ message ∷ []) = pure (bulk message)
  cmd_echo _ = pure (wrong_arity (codes "echo"))

  unfoldable pub cmd_command : Command → M h Bytes
  cmd_command _ = pure empty_array

  unfoldable pub cmd_config : Command → M h Bytes
  unfolding upper lower find
  cmd_config (_ ∷ sub ∷ args) =
      pure (if bytes_eq (upper sub) (codes "GET") then config_get args else config_refused)
  cmd_config _ = pure config_refused

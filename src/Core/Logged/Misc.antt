-- ===== src/Core/Logged/Misc.antt =====
-- PING, ECHO, COMMAND and CONFIG of src/core/commands.cpp, on a server without deadlines.
use hermitdb.Prelude.{◌≡◌, refl, [], ◌∷◌, Bytes}
use hermitdb.Protocol.Parser.{Command}
use hermitdb.Core.Fault.{ret}
use hermitdb.Core.Db.{Db}
use hermitdb.Core.Server.{Host, Server, M}
use hermitdb.Core.Commands.Misc.{cmd_ping, cmd_echo, cmd_command, cmd_config}
use hermitdb.Core.Dispatch.{log_nothing}
use hermitdb.Core.Logged.{Faithful, read-Faithful}

module _ {h : Host} where
  -- the handler gives a reply and changes nothing
  abbrev Answered : (Command → M h Bytes) → Type 0
  Answered f = (cmd : Command) → (reply : Bytes) × ((s : Server h) → f cmd s ≡ ret (reply, s))

  unchanged-Faithful :
      (f : Command → M h Bytes)
      → Answered f
      → (cmd : Command) (db : Db) → Faithful f log_nothing cmd db
  unchanged-Faithful f same cmd db =
      let (reply, runs) = same cmd in read-Faithful f cmd db reply (λ s. runs _)

  pub cmd_ping-Faithful : (cmd : Command) (db : Db) → Faithful (cmd_ping {h = h}) log_nothing cmd db
  unfolding cmd_ping
  cmd_ping-Faithful = unchanged-Faithful cmd_ping go
    where
      go : Answered cmd_ping
      go [] = (_, λ s. refl)
      go (c ∷ []) = (_, λ s. refl)
      go (c ∷ m ∷ []) = (_, λ s. refl)
      go (c ∷ m ∷ x ∷ args) = (_, λ s. refl)

  pub cmd_echo-Faithful : (cmd : Command) (db : Db) → Faithful (cmd_echo {h = h}) log_nothing cmd db
  unfolding cmd_echo
  cmd_echo-Faithful = unchanged-Faithful cmd_echo go
    where
      go : Answered cmd_echo
      go [] = (_, λ s. refl)
      go (c ∷ []) = (_, λ s. refl)
      go (c ∷ m ∷ []) = (_, λ s. refl)
      go (c ∷ m ∷ x ∷ args) = (_, λ s. refl)

  pub cmd_command-Faithful :
      (cmd : Command) (db : Db) → Faithful (cmd_command {h = h}) log_nothing cmd db
  unfolding cmd_command
  cmd_command-Faithful = unchanged-Faithful cmd_command (λ cmd. (_, λ s. refl))

  pub cmd_config-Faithful :
      (cmd : Command) (db : Db) → Faithful (cmd_config {h = h}) log_nothing cmd db
  unfolding cmd_config
  cmd_config-Faithful = unchanged-Faithful cmd_config go
    where
      go : Answered cmd_config
      go [] = (_, λ s. refl)
      go (c ∷ []) = (_, λ s. refl)
      go (c ∷ sub ∷ args) = (_, λ s. refl)

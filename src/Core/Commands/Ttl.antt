-- ===== src/Core/Commands/Ttl.antt =====
-- EXPIRE, PEXPIRE, PEXPIREAT, TTL, PTTL and PERSIST: src/core/commands.cpp.
use hermitdb.Prelude.{
  ◌+◌, ◌/◌, [], ◌∷◌, Option, none, some, Bytes, codes, Bool, true, false, not, if◌then◌else◌,
}
use hermitdb.Prelude.Int.{ℤ, pos, negsuc, pos_part, ◌-ℤ◌, ◌*ℤ◌, leb_ℤ, ltb_ℤ, checked}
use hermitdb.Protocol.Decimal.{parse_i64}
use hermitdb.Protocol.Writer.{integer}
use hermitdb.Protocol.Parser.{Command}
use hermitdb.Core.Fault.{signed_overflow}
use hermitdb.Core.Db
use hermitdb.Core.Db.{Db, KeyType, no_key, string_key, list_key, is_string, is_some}
use hermitdb.Core.Expiry
use hermitdb.Core.Server.{
  Host, M, ◌>>=◌, ◌>>◌, pure, demand, get_db, put_db, get_expiry, put_expiry, disarm, wall_ms,
  touch,
}
use hermitdb.Core.Replies.{wrong_arity, not_an_integer}
use hermitdb.Core.Commands.Strings.{arm_in}

-- `n * unit_to_ms` in `int64_t`
abbrev pub to_ms : ℤ → ℤ → Option ℤ
to_ms n unit = checked (n *ℤ unit)

-- `(remaining_ms + 500) / 1000` or `remaining_ms`, of a number that is not negative
abbrev pub shown_ttl : Bool → ℤ → Option ℤ
shown_ttl false ms = some ms
shown_ttl true ms =
    if ltb_ℤ (pos 9223372036854775307) ms then none else some (pos ((pos_part ms + 500) / 1000))

module _ {h : Host} where
  -- the key goes at once: its deadline is behind us
  unfoldable pub delete_now : Bytes → M h Bytes
  unfolding Db.del
  delete_now key = do db ← get_db; put_db (Db.del key db).1; disarm key; pure (integer (pos 1))

  unfoldable pub expire_in : Bytes → ℤ → ℤ → M h Bytes
  unfolding touch Db.exists arm_in delete_now
  expire_in key n unit = do
    touch key
    db ← get_db
    if not (Db.exists key db) then pure (integer (pos 0)) else do
      if leb_ℤ n (pos 0)
          then delete_now key
          else do ms ← demand signed_overflow (to_ms n unit); arm_in key ms; pure (integer (pos 1))

  abbrev pub expire_parsed : Bytes → Option ℤ → ℤ → M h Bytes
  expire_parsed key none unit = pure not_an_integer
  expire_parsed key (some n) unit = expire_in key n unit

  unfoldable pub expire_generic : Bytes → Command → ℤ → M h Bytes
  unfolding expire_in
  expire_generic name (_ ∷ key ∷ n ∷ []) unit = expire_parsed key (parse_i64 n) unit
  expire_generic name _ unit = pure (wrong_arity name)

  unfoldable pub cmd_expire : Command → M h Bytes
  unfolding expire_generic
  cmd_expire cmd = expire_generic (codes "expire") cmd (pos 1000)

  unfoldable pub cmd_pexpire : Command → M h Bytes
  unfolding expire_generic
  cmd_pexpire cmd = expire_generic (codes "pexpire") cmd (pos 1)

  unfoldable pub expire_at : Bytes → ℤ → M h Bytes
  unfolding touch Db.exists delete_now
  expire_at key at_ms = do
    touch key
    db ← get_db
    if not (Db.exists key db) then pure (integer (pos 0)) else do
      now ← wall_ms
      if leb_ℤ at_ms now
          then delete_now key
          else do e ← get_expiry; put_expiry (Expiry.set_expiry key at_ms e); pure (integer (pos 1))

  abbrev pub expire_at_parsed : Bytes → Option ℤ → M h Bytes
  expire_at_parsed key none = pure not_an_integer
  expire_at_parsed key (some at_ms) = expire_at key at_ms

  unfoldable pub cmd_pexpireat : Command → M h Bytes
  unfolding expire_at
  cmd_pexpireat (_ ∷ key ∷ at_ms ∷ []) = expire_at_parsed key (parse_i64 at_ms)
  cmd_pexpireat _ = pure (wrong_arity (codes "pexpireat"))

  -- the time that is left until a deadline
  abbrev pub remaining : Bool → Option ℤ → M h Bytes
  remaining seconds none = pure (integer (negsuc 0))
  remaining seconds (some at) = do
    now ← wall_ms
    ms ← demand signed_overflow (checked (at -ℤ now))
    shown ← demand signed_overflow (shown_ttl seconds (if ltb_ℤ ms (pos 0) then pos 0 else ms))
    pure (integer shown)

  unfoldable pub ttl_of : Bytes → Bool → M h Bytes
  unfolding touch Db.exists Expiry.expiry_at
  ttl_of key seconds = do
    touch key
    db ← get_db
    e ← get_expiry
    if not (Db.exists key db)
        then pure (integer (negsuc 1))
        else remaining seconds (Expiry.expiry_at key e)

  unfoldable pub ttl_generic : Bytes → Command → Bool → M h Bytes
  unfolding ttl_of
  ttl_generic name (_ ∷ key ∷ []) seconds = ttl_of key seconds
  ttl_generic name _ seconds = pure (wrong_arity name)

  unfoldable pub cmd_ttl : Command → M h Bytes
  unfolding ttl_generic
  cmd_ttl cmd = ttl_generic (codes "ttl") cmd true

  unfoldable pub cmd_pttl : Command → M h Bytes
  unfolding ttl_generic
  cmd_pttl cmd = ttl_generic (codes "pttl") cmd false

  unfoldable pub cmd_persist : Command → M h Bytes
  unfolding touch Db.exists Expiry.expiry_at
  cmd_persist (_ ∷ key ∷ []) = do
    touch key
    db ← get_db
    e ← get_expiry
    if not (Db.exists key db) then pure (integer (pos 0)) else do
      if not (is_some (Expiry.expiry_at key e))
          then pure (integer (pos 0))
          else do disarm key; pure (integer (pos 1))
  cmd_persist _ = pure (wrong_arity (codes "persist"))

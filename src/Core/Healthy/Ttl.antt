-- ===== src/Core/Healthy/Ttl.antt =====
-- EXPIRE, PEXPIRE, PEXPIREAT, TTL, PTTL and PERSIST of src/core/commands.cpp on a healthy server.
use hermitdb.Prelude.{
  ◌≡◌, ◌≢◌, refl, [], ◌∷◌, Option, none, some, Bytes, codes, Bool, true, false, arith,
  if◌then◌else◌,
}
use hermitdb.Prelude.Int.{ℤ, pos, checked, ◌-ℤ◌, ltb_ℤ}
use hermitdb.Prelude.Map.{find}
use hermitdb.Protocol.Parser.{Command}
use hermitdb.Protocol.Decimal.{parse_i64}
use hermitdb.Protocol.Writer.{integer}
use hermitdb.Core.Db
use hermitdb.Core.Expiry
use hermitdb.Core.Server.{Host, Server, pure, demand, ◌>>=◌, ◌>>◌}
use hermitdb.Core.Fault.{signed_overflow}
use hermitdb.Prelude.{suc}
use hermitdb.Core.Server.Touch.{Answers}
use hermitdb.Core.Commands.Strings.{arm_in}
use hermitdb.Core.Commands.Ttl.{
  to_ms, shown_ttl, delete_now, expire_in, expire_parsed, expire_generic, cmd_expire, cmd_pexpire,
  expire_at, expire_at_parsed, cmd_pexpireat, remaining, ttl_of, ttl_generic, cmd_ttl, cmd_pttl,
  cmd_persist,
}
use hermitdb.Core.Healthy.{arm-IsHealthy}
use hermitdb.Core.Healthy.Steps.{Healthy, Safe, bind-Safe, demand-Safe, touched-Safe}
use hermitdb.Core.Healthy.Strings.{arm_in-Safe, disarmed-Healthy}
use hermitdb.Core.Healthy.Keys.{dropped-Healthy}

exists-found : (key : Bytes) (db : Db.Db) → Db.exists key db ≡ true → find key db ≢ none
unfolding Db.exists
exists-found key db h e = ground arith

module _ {h : Host} where
  delete_now-Safe : (key : Bytes) (s : Server h) → Healthy s → Safe (delete_now {h = h} key s)
  unfolding delete_now
  delete_now-Safe key s ok = dropped-Healthy key s ok

  -- the sum and the product of EXPIRE
  arm_later-Safe :
      (key : Bytes) (o : Option ℤ) (s : Server h)
      → Healthy s
      → find key s.db ≢ none
      → Safe ((do ms ← demand signed_overflow o; arm_in {h = h} key ms; pure (integer (pos 1))) s)
  arm_later-Safe key none s ok there = refl
  arm_later-Safe key (some ms) s ok there =
      bind-Safe (arm_in key ms) _ s (arm_in-Safe key ms s ok there) (λ a t k. k)

  armed-Healthy :
      (key : Bytes) (at : ℤ) (s : Server h)
      → Healthy s
      → Db.exists key s.db ≡ true
      → Healthy {h = h} (record s { expiry = Expiry.set_expiry key at s.expiry })
  armed-Healthy key at s ok there = arm-IsHealthy ok key at (exists-found key s.db there)

  -- what is left of a deadline, or an overflow
  remaining-Safe :
      (seconds : Bool) (o : Option ℤ) (s : Server h)
      → Healthy s
      → Safe (remaining {h = h} seconds o s)
  remaining-Safe seconds none s ok = ok
  remaining-Safe seconds (some at) s ok =
      demand-Safe (checked (at -ℤ h.wall_ms s.readings)) _ _ (λ ms.
        demand-Safe (shown_ttl seconds (if ltb_ℤ ms (pos 0) then pos 0 else ms)) _ _ (λ n. ok))

  module _ (answers : Answers h) where
    expire_in-Safe :
        (key : Bytes) (n unit : ℤ) (s : Server h)
        → Healthy s
        → Safe (expire_in {h = h} key n unit s)
    unfolding expire_in
    expire_in-Safe key n unit s ok = touched-Safe answers key _ s ok (λ t k. ground (
      arith,
      delete_now-Safe key t k,
      exists-found key t.db,
      arm_later-Safe key (to_ms n unit) t k,
    ))

    expire_generic-Safe :
        (name : Bytes) (cmd : Command) (unit : ℤ) (s : Server h)
        → Healthy s
        → Safe (expire_generic {h = h} name cmd unit s)
    unfolding expire_generic
    expire_generic-Safe name [] unit s ok = ok
    expire_generic-Safe name (c ∷ []) unit s ok = ok
    expire_generic-Safe name (c ∷ key ∷ []) unit s ok = ok
    expire_generic-Safe name (c ∷ key ∷ n ∷ []) unit s ok = go (parse_i64 n)
      where
        go : (o : Option ℤ) → Safe (expire_parsed {h = h} key o unit s)
        go none = ok
        go (some m) = expire_in-Safe key m unit s ok
    expire_generic-Safe name (c ∷ key ∷ n ∷ x ∷ args) unit s ok = ok

    pub cmd_expire-Safe :
        (cmd : Command) (s : Server h) → Healthy s → Safe (cmd_expire {h = h} cmd s)
    unfolding cmd_expire
    cmd_expire-Safe cmd s ok = expire_generic-Safe (codes "expire") cmd (pos 1000) s ok

    pub cmd_pexpire-Safe :
        (cmd : Command) (s : Server h) → Healthy s → Safe (cmd_pexpire {h = h} cmd s)
    unfolding cmd_pexpire
    cmd_pexpire-Safe cmd s ok = expire_generic-Safe (codes "pexpire") cmd (pos 1) s ok

    expire_at-Safe :
        (key : Bytes) (at : ℤ) (s : Server h) → Healthy s → Safe (expire_at {h = h} key at s)
    unfolding expire_at
    expire_at-Safe key at s ok = touched-Safe answers key _ s ok (λ t k.
        let later : Server h = record t { readings = suc t.readings } in
        ground (arith, delete_now-Safe key later k, armed-Healthy key at later k))

    pub cmd_pexpireat-Safe :
        (cmd : Command) (s : Server h) → Healthy s → Safe (cmd_pexpireat {h = h} cmd s)
    unfolding cmd_pexpireat
    cmd_pexpireat-Safe [] s ok = ok
    cmd_pexpireat-Safe (c ∷ []) s ok = ok
    cmd_pexpireat-Safe (c ∷ key ∷ []) s ok = ok
    cmd_pexpireat-Safe (c ∷ key ∷ at ∷ []) s ok = go (parse_i64 at)
      where
        go : (o : Option ℤ) → Safe (expire_at_parsed {h = h} key o s)
        go none = ok
        go (some m) = expire_at-Safe key m s ok
    cmd_pexpireat-Safe (c ∷ key ∷ at ∷ x ∷ args) s ok = ok

    ttl_of-Safe :
        (key : Bytes) (seconds : Bool) (s : Server h)
        → Healthy s
        → Safe (ttl_of {h = h} key seconds s)
    unfolding ttl_of
    ttl_of-Safe key seconds s ok =
        touched-Safe answers key _ s ok
          (λ t k. ground (arith, remaining-Safe seconds (Expiry.expiry_at key t.expiry) t k))

    ttl_generic-Safe :
        (name : Bytes) (cmd : Command) (seconds : Bool) (s : Server h)
        → Healthy s
        → Safe (ttl_generic {h = h} name cmd seconds s)
    unfolding ttl_generic
    ttl_generic-Safe name [] seconds s ok = ok
    ttl_generic-Safe name (c ∷ []) seconds s ok = ok
    ttl_generic-Safe name (c ∷ key ∷ []) seconds s ok = ttl_of-Safe key seconds s ok
    ttl_generic-Safe name (c ∷ key ∷ x ∷ args) seconds s ok = ok

    pub cmd_ttl-Safe : (cmd : Command) (s : Server h) → Healthy s → Safe (cmd_ttl {h = h} cmd s)
    unfolding cmd_ttl
    cmd_ttl-Safe cmd s ok = ttl_generic-Safe (codes "ttl") cmd true s ok

    pub cmd_pttl-Safe : (cmd : Command) (s : Server h) → Healthy s → Safe (cmd_pttl {h = h} cmd s)
    unfolding cmd_pttl
    cmd_pttl-Safe cmd s ok = ttl_generic-Safe (codes "pttl") cmd false s ok

    pub cmd_persist-Safe :
        (cmd : Command) (s : Server h) → Healthy s → Safe (cmd_persist {h = h} cmd s)
    unfolding cmd_persist
    cmd_persist-Safe [] s ok = ok
    cmd_persist-Safe (c ∷ []) s ok = ok
    cmd_persist-Safe (c ∷ key ∷ []) s ok =
        touched-Safe answers key _ s ok (λ t k. ground (arith, disarmed-Healthy key t k))
    cmd_persist-Safe (c ∷ key ∷ x ∷ args) s ok = ok

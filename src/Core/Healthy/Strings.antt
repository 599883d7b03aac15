-- ===== src/Core/Healthy/Strings.antt =====
-- GET, SET and the counters of src/core/commands.cpp on a healthy server.
use hermitdb.Prelude.{
  ◌≡◌, ◌≢◌, refl, List, [], ◌∷◌, Option, none, some, Bytes, Bool, true, false, arith, bytes_eq_iff,
}
use hermitdb.Prelude.Int.{ℤ, pos, negsuc, checked, ◌+ℤ◌}
use hermitdb.Prelude.Map.{find, find-put}
use hermitdb.Protocol.Parser.{Command}
use hermitdb.Protocol.Decimal.{parse_i64, to_string_i64}
use hermitdb.Core.Fault.{Result, ret, fault, signed_overflow}
use hermitdb.Core.Db
use hermitdb.Core.Db.{Db, str, list}
use hermitdb.Core.Expiry
use hermitdb.Core.Server.{Host, Server, ◌>>◌, pure, disarm}
use hermitdb.Protocol.Writer.{simple}
use hermitdb.Prelude.{if◌then◌else◌, codes, bytes_eq}
use hermitdb.Prelude.Int.{leb_ℤ}
use hermitdb.Core.Replies.{upper}
use hermitdb.Core.Server.Touch.{Answers}
use hermitdb.Core.Commands.Strings.{
  SetOptions, Options, refused, accepted, set_options, no_options, cmd_get, arm_in, set_value,
  set_parsed, cmd_set, store_next, next_value, counter_value, incr_by, cmd_incr, cmd_decr,
  incr_parsed, cmd_incrby, with_expire, expire_time, then_options, timed,
}
use hermitdb.Core.Healthy.{put-IsHealthy, untrack-IsHealthy, arm-IsHealthy}
use hermitdb.Core.Healthy.Steps.{Healthy, Safe, bind-Safe, choose-Safe, demand-Safe, touched-Safe}

pub there_after-set : (key value : Bytes) (db : Db) → find key (Db.set key value db) ≢ none
unfolding Db.set
there_after-set key value db e =
    ground (arith, find-put key key (str value) db, bytes_eq_iff key key)

-- The only fault is an overflow.
abbrev Overflows : Result Options → Type 0
Overflows (ret o) = Unit
Overflows (fault f) = f ≡ signed_overflow

timed-Overflows :
    (seconds : Bool) (o : SetOptions) (n : Option ℤ) (rest : SetOptions → Result Options)
    → ((o : SetOptions) → Overflows (rest o))
    → Overflows (timed seconds o n rest)
timed-Overflows seconds o none rest h = tt
timed-Overflows seconds o (some n) rest h =
    choose (leb_ℤ n (pos 0)) _ _ tt (go (expire_time seconds n))
  where
    go : (m : Option ℤ) → Overflows (then_options (with_expire o m) rest)
    go none = refl
    go (some ms) = h _

    choose :
        (b : Bool) (x y : Result Options)
        → Overflows x
        → Overflows y
        → Overflows (if b then x else y)
    choose true x y f g = f
    choose false x y f g = g

set_options-Overflows : (l : List Bytes) (o : SetOptions) → Overflows (set_options l o)
unfolding set_options
set_options-Overflows [] o = tt
set_options-Overflows (a ∷ []) o = ground arith
set_options-Overflows (a ∷ v ∷ rest) o = ground (
  arith,
  set_options-Overflows (v ∷ rest) (record o { nx = true }),
  set_options-Overflows (v ∷ rest) (record o { xx = true }),
  timed-Overflows (bytes_eq (upper a) (codes "EX")) o (parse_i64 v) (λ o'. set_options rest o')
      (λ o'. set_options-Overflows rest o'),
)

module _ {h : Host} where
  -- a string is stored
  pub stored-Healthy :
      (key value : Bytes) (s : Server h)
      → Healthy s
      → Healthy {h = h} (record s { db = Db.set key value s.db })
  unfolding Db.set
  stored-Healthy key value s ok = put-IsHealthy ok key (str value) (λ e. cc)

  -- the deadline of a key that there is
  pub arm_in-Safe :
      (key : Bytes) (ms : ℤ) (s : Server h)
      → Healthy s
      → find key s.db ≢ none
      → Safe (arm_in {h = h} key ms s)
  unfolding arm_in
  arm_in-Safe key ms s ok there =
      demand-Safe (checked (h.wall_ms s.readings +ℤ ms)) _ _ (λ at. arm-IsHealthy ok key at there)

  pub disarmed-Healthy :
      (key : Bytes) (s : Server h)
      → Healthy s
      → Healthy {h = h} (record s { expiry = Expiry.persist key s.expiry })
  unfolding Expiry.persist
  disarmed-Healthy key s ok = untrack-IsHealthy ok key

  -- what SET does with the deadline
  deadline-Safe :
      (key : Bytes) (o : SetOptions) (s : Server h) (reply : Bytes)
      → Healthy s
      → find key s.db ≢ none
      → Safe
          (((if o.have_expire then arm_in {h = h} key o.expire_ms else disarm key) >> pure reply) s)
  deadline-Safe key o s reply ok there =
      bind-Safe {h = h} (if o.have_expire then arm_in key o.expire_ms else disarm key)
        (λ _. pure reply) s
        (choose-Safe {h = h} o.have_expire (arm_in key o.expire_ms) (disarm key) s
          (λ e. arm_in-Safe key o.expire_ms s ok there) (λ e. disarmed-Healthy key s ok))
        (λ a t k. k)

  store_next-Safe :
      (key : Bytes) (o : Option ℤ) (s : Server h) → Healthy s → Safe (store_next {h = h} key o s)
  store_next-Safe key none s ok = ok
  store_next-Safe key (some n) s ok = stored-Healthy key (to_string_i64 n) s ok

  module _ (answers : Answers h) where
    pub cmd_get-Safe : (cmd : Command) (s : Server h) → Healthy s → Safe (cmd_get {h = h} cmd s)
    unfolding cmd_get
    cmd_get-Safe [] s ok = ok
    cmd_get-Safe (c ∷ []) s ok = ok
    cmd_get-Safe (c ∷ key ∷ []) s ok = touched-Safe answers key _ s ok (λ t o. ground arith)
    cmd_get-Safe (c ∷ key ∷ x ∷ args) s ok = ok

    set_value-Safe :
        (key value : Bytes) (o : SetOptions) (s : Server h)
        → Healthy s
        → Safe (set_value {h = h} key value o s)
    unfolding set_value
    set_value-Safe key value o s ok = touched-Safe answers key _ s ok (λ t k. ground (
      arith,
      deadline-Safe key o (record t { db = Db.set key value t.db }) (simple (codes "OK"))
          (stored-Healthy key value t k) (there_after-set key value t.db),
    ))

    -- The options are read, or an expire time overflows.
    pub cmd_set-Safe : (cmd : Command) (s : Server h) → Healthy s → Safe (cmd_set {h = h} cmd s)
    unfolding cmd_set
    cmd_set-Safe [] s ok = ok
    cmd_set-Safe (c ∷ []) s ok = ok
    cmd_set-Safe (c ∷ key ∷ []) s ok = ok
    cmd_set-Safe (c ∷ key ∷ value ∷ options) s ok =
        go (set_options options no_options) (set_options-Overflows options no_options)
      where
        go : (r : Result Options) → Overflows r → Safe (set_parsed {h = h} key value r s)
        go (fault f) e = e
        go (ret (refused reply)) e = ok
        go (ret (accepted o)) e = set_value-Safe key value o s ok

    incr_by-Safe :
        (key : Bytes) (delta : ℤ) (s : Server h) → Healthy s → Safe (incr_by {h = h} key delta s)
    unfolding incr_by
    incr_by-Safe key delta s ok = touched-Safe answers key _ s ok (λ t k.
        ground
          (arith, store_next-Safe key (next_value (counter_value (Db.get key t.db)) delta) t k))

    pub cmd_incr-Safe : (cmd : Command) (s : Server h) → Healthy s → Safe (cmd_incr {h = h} cmd s)
    unfolding cmd_incr
    cmd_incr-Safe [] s ok = ok
    cmd_incr-Safe (c ∷ []) s ok = ok
    cmd_incr-Safe (c ∷ key ∷ []) s ok = incr_by-Safe key (pos 1) s ok
    cmd_incr-Safe (c ∷ key ∷ x ∷ args) s ok = ok

    pub cmd_decr-Safe : (cmd : Command) (s : Server h) → Healthy s → Safe (cmd_decr {h = h} cmd s)
    unfolding cmd_decr
    cmd_decr-Safe [] s ok = ok
    cmd_decr-Safe (c ∷ []) s ok = ok
    cmd_decr-Safe (c ∷ key ∷ []) s ok = incr_by-Safe key (negsuc 0) s ok
    cmd_decr-Safe (c ∷ key ∷ x ∷ args) s ok = ok

    pub cmd_incrby-Safe :
        (cmd : Command) (s : Server h) → Healthy s → Safe (cmd_incrby {h = h} cmd s)
    unfolding cmd_incrby
    cmd_incrby-Safe [] s ok = ok
    cmd_incrby-Safe (c ∷ []) s ok = ok
    cmd_incrby-Safe (c ∷ key ∷ []) s ok = ok
    cmd_incrby-Safe (c ∷ key ∷ delta ∷ []) s ok = go (parse_i64 delta)
      where
        go : (o : Option ℤ) → Safe (incr_parsed {h = h} key o s)
        go none = ok
        go (some n) = incr_by-Safe key n s ok
    cmd_incrby-Safe (c ∷ key ∷ delta ∷ x ∷ args) s ok = ok

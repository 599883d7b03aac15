-- ===== src/Core/Commands/Strings.antt =====
-- GET, SET and the counters: src/core/commands.cpp.
use hermitdb.Prelude.{
  List, [], ◌∷◌, Option, none, some, Bytes, codes, Bool, true, false, not, ◌&&◌, ◌||◌, bytes_eq,
  if◌then◌else◌,
}
use hermitdb.Prelude.Int.{ℤ, pos, negsuc, ◌+ℤ◌, ◌*ℤ◌, leb_ℤ, checked}
use hermitdb.Protocol.Decimal.{parse_i64, to_string_i64}
use hermitdb.Protocol.Writer.{simple, error, integer, bulk, null_bulk}
use hermitdb.Protocol.Parser.{Command}
use hermitdb.Core.Fault.{Result, ret, fault, signed_overflow}
use hermitdb.Core.Db
use hermitdb.Core.Db.{Db, is_list}
use hermitdb.Core.Expiry
use hermitdb.Core.Server.{
  Host, M, ◌>>=◌, ◌>>◌, pure, demand, get_db, put_db, get_expiry, put_expiry, disarm, wall_ms,
  touch,
}
use hermitdb.Core.Replies.{upper, wrong_arity, wrongtype, not_an_integer}

-- What the options of SET say.
pub record SetOptions : Type 0 where
  pub nx : Bool
  pub xx : Bool
  pub have_expire : Bool
  pub expire_ms : ℤ

abbrev pub no_options : SetOptions
no_options = record { nx = false; xx = false; have_expire = false; expire_ms = pos 0 }

-- The options, or the error reply.
pub data Options : Type 0 where
  refused : Bytes → Options
  accepted : SetOptions → Options

-- `(opt == "EX") ? n * 1000 : n`, in `int64_t`
abbrev pub expire_time : Bool → ℤ → Option ℤ
expire_time seconds n = if seconds then checked (n *ℤ pos 1000) else some n

abbrev pub with_expire : SetOptions → Option ℤ → Result SetOptions
with_expire o none = fault signed_overflow
with_expire o (some ms) = ret (record o { have_expire = true; expire_ms = ms })

abbrev pub syntax_error : Result Options
syntax_error = ret (refused (error (codes "ERR syntax error")))

-- the rest of the options, after an EX or PX that has been read
abbrev pub then_options : Result SetOptions → (SetOptions → Result Options) → Result Options
then_options (ret o) rest = rest o
then_options (fault f) rest = fault f

-- the number of an EX or a PX
abbrev pub timed : Bool → SetOptions → Option ℤ → (SetOptions → Result Options) → Result Options
timed seconds o none rest = ret (refused not_an_integer)
timed seconds o (some n) rest =
    if leb_ℤ n (pos 0)
    then ret (refused (error (codes "ERR invalid expire time in 'set' command")))
    else then_options (with_expire o (expire_time seconds n)) rest

unfoldable pub is_nx : Bytes → SetOptions → Bool
is_nx opt o = bytes_eq opt (codes "NX") && not o.xx

unfoldable pub is_xx : Bytes → SetOptions → Bool
is_xx opt o = bytes_eq opt (codes "XX") && not o.nx

unfoldable pub is_timed : Bytes → SetOptions → Bool
is_timed opt o = (bytes_eq opt (codes "EX") || bytes_eq opt (codes "PX")) && not o.have_expire

-- The loop over the arguments behind the value.
unfoldable pub set_options : List Bytes → SetOptions → Result Options
unfolding is_nx is_xx is_timed upper
set_options [] o = ret (accepted o)
set_options (a ∷ []) o =
    if is_nx (upper a) o
    then ret (accepted (record o { nx = true }))
    else if is_xx (upper a) o
    then ret (accepted (record o { xx = true }))
    else syntax_error
set_options (a ∷ v ∷ rest) o =
    let nx = set_options (v ∷ rest) (record o { nx = true }) in
    let xx = set_options (v ∷ rest) (record o { xx = true }) in
    let time =
      timed (bytes_eq (upper a) (codes "EX")) o (parse_i64 v) (λ o'. set_options rest o') in
    if is_nx (upper a) o
    then nx
    else if is_xx (upper a) o
    then xx
    else if is_timed (upper a) o
    then time
    else syntax_error

abbrev pub get_reply : Option Bytes → Bytes
get_reply none = null_bulk
get_reply (some v) = bulk v

-- the number that a counter holds: 0 if there is none
abbrev pub counter_value : Option Bytes → Option ℤ
counter_value none = some (pos 0)
counter_value (some v) = parse_i64 v

abbrev pub next_value : Option ℤ → ℤ → Option ℤ
next_value none delta = none
next_value (some cur) delta = checked (cur +ℤ delta)

module _ {h : Host} where
  unfoldable pub cmd_get : Command → M h Bytes
  unfolding touch Db.get Db.key_type
  cmd_get (_ ∷ key ∷ []) = do
    touch key
    db ← get_db
    if is_list (Db.key_type key db) then pure wrongtype else pure (get_reply (Db.get key db))
  cmd_get _ = pure (wrong_arity (codes "get"))

  -- `c.expiry.set_expiry(key, now_ms(c.clock) + ms)`, where the sum may overflow
  unfoldable pub arm_in : Bytes → ℤ → M h (Unit {0})
  arm_in key ms = do
    now ← wall_ms
    at ← demand signed_overflow (checked (now +ℤ ms))
    e ← get_expiry
    put_expiry (Expiry.set_expiry key at e)

  -- SET once its options are known
  unfoldable pub set_value : Bytes → Bytes → SetOptions → M h Bytes
  unfolding touch Db.exists Db.set arm_in
  set_value key value o = do
    touch key
    db ← get_db
    if o.nx && Db.exists key db || o.xx && not (Db.exists key db) then pure null_bulk else do
      put_db (Db.set key value db)
      if o.have_expire then arm_in key o.expire_ms else disarm key
      pure (simple (codes "OK"))

  abbrev pub set_parsed : Bytes → Bytes → Result Options → M h Bytes
  set_parsed key value (fault f) s = fault f
  set_parsed key value (ret (refused reply)) s = ret (reply, s)
  set_parsed key value (ret (accepted o)) s = set_value key value o s

  unfoldable pub cmd_set : Command → M h Bytes
  unfolding set_options set_value
  cmd_set (_ ∷ key ∷ value ∷ options) = set_parsed key value (set_options options no_options)
  cmd_set _ = pure (wrong_arity (codes "set"))

  abbrev pub store_next : Bytes → Option ℤ → M h Bytes
  store_next key none = pure not_an_integer
  store_next key (some next) = do
    db ← get_db
    put_db (Db.set key (to_string_i64 next) db)
    pure (integer next)

  unfoldable pub incr_by : Bytes → ℤ → M h Bytes
  unfolding touch Db.get Db.set Db.key_type
  incr_by key delta = do
    touch key
    db ← get_db
    if is_list (Db.key_type key db)
        then pure wrongtype
        else store_next key (next_value (counter_value (Db.get key db)) delta)

  unfoldable pub cmd_incr : Command → M h Bytes
  unfolding incr_by
  cmd_incr (_ ∷ key ∷ []) = incr_by key (pos 1)
  cmd_incr _ = pure (wrong_arity (codes "incr"))

  unfoldable pub cmd_decr : Command → M h Bytes
  unfolding incr_by
  cmd_decr (_ ∷ key ∷ []) = incr_by key (negsuc 0)
  cmd_decr _ = pure (wrong_arity (codes "decr"))

  abbrev pub incr_parsed : Bytes → Option ℤ → M h Bytes
  incr_parsed key none = pure not_an_integer
  incr_parsed key (some delta) = incr_by key delta

  unfoldable pub cmd_incrby : Command → M h Bytes
  unfolding incr_by
  cmd_incrby (_ ∷ key ∷ delta ∷ []) = incr_parsed key (parse_i64 delta)
  cmd_incrby _ = pure (wrong_arity (codes "incrby"))

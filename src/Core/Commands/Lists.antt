-- ===== src/Core/Commands/Lists.antt =====
-- The list commands: src/core/commands.cpp.
use hermitdb.Prelude.{
  ℕ, List, [], ◌∷◌, Option, none, some, Bytes, codes, Bool, true, false, not, if◌then◌else◌,
}
use hermitdb.Prelude.Int.{ℤ, pos}
use hermitdb.Protocol.Decimal.{parse_i64}
use hermitdb.Protocol.Writer.{integer, bulk, null_bulk, array}
use hermitdb.Protocol.Parser.{Command}
use hermitdb.Core.Fault.{Result, ret, fault}
use hermitdb.Core.Db
use hermitdb.Core.Db.{Db, KeyType, no_key, string_key, list_key, is_string, is_some}
use hermitdb.Core.Server.{Host, M, ◌>>=◌, ◌>>◌, pure, get_db, on_db, disarm, touch}
use hermitdb.Core.Replies.{wrong_arity, wrongtype, not_an_integer}
use hermitdb.Prelude.{map}

-- `left ? c.db.lpush(key, value) : c.db.rpush(key, value)`
abbrev pub push_one : Bool → Bytes → Bytes → Db → Result (ℕ × Db)
push_one true key value db = Db.lpush key value db
push_one false key value db = Db.rpush key value db

abbrev pub pop_one : Bool → Bytes → Db → Result (Option Bytes × Db)
pop_one true key db = Db.lpop key db
pop_one false key db = Db.rpop key db

abbrev pub with_db : {A : Type 0} → Db → Result A → Result (A × Db)
with_db db (ret a) = ret (a, db)
with_db db (fault f) = fault f

module _ {h : Host} where
  -- the loop over the values: `len` is the length after the last push
  unfoldable pub push_all : Bool → Bytes → List Bytes → ℕ → M h ℕ
  unfolding Db.lpush Db.rpush
  push_all left key [] len = pure len
  push_all left key (value ∷ values) len = do
    len' ← on_db (push_one left key value)
    push_all left key values len'

  unfoldable pub push_values : Bool → Bytes → List Bytes → M h Bytes
  unfolding touch Db.key_type push_all
  push_values left key values = do
    touch key
    db ← get_db
    if is_string (Db.key_type key db)
        then pure wrongtype
        else do len ← push_all left key values 0; pure (integer (pos len))

  unfoldable pub push_generic : Bytes → Command → Bool → M h Bytes
  unfolding push_values
  push_generic name (_ ∷ key ∷ value ∷ values) left = push_values left key (value ∷ values)
  push_generic name _ left = pure (wrong_arity name)

  unfoldable pub cmd_lpush : Command → M h Bytes
  unfolding push_generic
  cmd_lpush cmd = push_generic (codes "lpush") cmd true

  unfoldable pub cmd_rpush : Command → M h Bytes
  unfolding push_generic
  cmd_rpush cmd = push_generic (codes "rpush") cmd false

  abbrev pub pop_reply : Bytes → Option Bytes → M h Bytes
  pop_reply key none = pure null_bulk
  pop_reply key (some v) = do
    db ← get_db
    if not (Db.exists key db) then disarm key else pure tt
    pure (bulk v)

  unfoldable pub pop_value : Bool → Bytes → M h Bytes
  unfolding touch Db.key_type Db.exists Db.lpop Db.rpop
  pop_value left key = do
    touch key
    db ← get_db
    if is_string (Db.key_type key db)
        then pure wrongtype
        else do v ← on_db (pop_one left key); pop_reply key v

  unfoldable pub pop_generic : Bytes → Command → Bool → M h Bytes
  unfolding pop_value
  pop_generic name (_ ∷ key ∷ []) left = pop_value left key
  pop_generic name _ left = pure (wrong_arity name)

  unfoldable pub cmd_lpop : Command → M h Bytes
  unfolding pop_generic
  cmd_lpop cmd = pop_generic (codes "lpop") cmd true

  unfoldable pub cmd_rpop : Command → M h Bytes
  unfolding pop_generic
  cmd_rpop cmd = pop_generic (codes "rpop") cmd false

  unfoldable pub cmd_llen : Command → M h Bytes
  unfolding touch Db.key_type Db.llen
  cmd_llen (_ ∷ key ∷ []) = do
    touch key
    db ← get_db
    if is_string (Db.key_type key db)
        then pure wrongtype
        else do len ← on_db (λ db. with_db db (Db.llen key db)); pure (integer (pos len))
  cmd_llen _ = pure (wrong_arity (codes "llen"))

  unfoldable pub range_values : Bytes → ℤ → ℤ → M h Bytes
  unfolding touch Db.key_type Db.lrange
  range_values key start stop = do
    touch key
    db ← get_db
    if is_string (Db.key_type key db) then pure wrongtype else do
      values ← on_db (λ db. with_db db (Db.lrange key start stop db))
      pure (array (map bulk values))

  abbrev pub range_parsed : Bytes → Option ℤ → Option ℤ → M h Bytes
  range_parsed key (some start) (some stop) = range_values key start stop
  range_parsed key _ _ = pure not_an_integer

  unfoldable pub cmd_lrange : Command → M h Bytes
  unfolding range_values
  cmd_lrange (_ ∷ key ∷ start ∷ stop ∷ []) = range_parsed key (parse_i64 start) (parse_i64 stop)
  cmd_lrange _ = pure (wrong_arity (codes "lrange"))

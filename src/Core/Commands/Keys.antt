-- ===== src/Core/Commands/Keys.antt =====
-- DEL, EXISTS, TYPE, KEYS, DBSIZE and FLUSHALL: src/core/commands.cpp.
use hermitdb.Prelude.{ℕ, suc, List, [], ◌∷◌, Bytes, codes, if◌then◌else◌}
use hermitdb.Prelude.Int.{pos}
use hermitdb.Protocol.Writer.{simple, integer, bulk, array}
use hermitdb.Protocol.Parser.{Command}
use hermitdb.Core.Db
use hermitdb.Core.Db.{Db, KeyType, no_key, string_key, list_key, is_string, is_some}
use hermitdb.Core.Server.{
  Host, M, ◌>>=◌, ◌>>◌, pure, get_db, put_db, disarm, touch, check_and_expire,
}
use hermitdb.Core.Replies.{wrong_arity}

abbrev pub type_name : KeyType → Bytes
type_name no_key = codes "none"
type_name string_key = codes "string"
type_name list_key = codes "list"

module _ {h : Host} where
  -- one round of DEL: `n` is the count so far
  unfoldable pub del_key : Bytes → ℕ → M h ℕ
  unfolding touch Db.del
  del_key key n = do
    touch key
    db ← get_db
    put_db (Db.del key db).1
    if (Db.del key db).0 then (do disarm key; pure (suc n)) else pure n

  unfoldable pub del_keys : List Bytes → ℕ → M h ℕ
  unfolding del_key
  del_keys [] n = pure n
  del_keys (key ∷ keys) n = do n' ← del_key key n; del_keys keys n'

  unfoldable pub cmd_del : Command → M h Bytes
  unfolding del_keys
  cmd_del (_ ∷ key ∷ keys) = do n ← del_keys (key ∷ keys) 0; pure (integer (pos n))
  cmd_del _ = pure (wrong_arity (codes "del"))

  unfoldable pub count_keys : List Bytes → ℕ → M h ℕ
  unfolding touch Db.exists
  count_keys [] n = pure n
  count_keys (key ∷ keys) n = do
    touch key
    db ← get_db
    count_keys keys (if Db.exists key db then suc n else n)

  unfoldable pub cmd_exists : Command → M h Bytes
  unfolding count_keys
  cmd_exists (_ ∷ key ∷ keys) = do n ← count_keys (key ∷ keys) 0; pure (integer (pos n))
  cmd_exists _ = pure (wrong_arity (codes "exists"))

  unfoldable pub cmd_type : Command → M h Bytes
  unfolding touch Db.key_type
  cmd_type (_ ∷ key ∷ []) = do
    touch key
    db ← get_db
    pure (simple (type_name (Db.key_type key db)))
  cmd_type _ = pure (wrong_arity (codes "type"))

  -- the loop of KEYS: keys whose deadline has passed are dropped and not listed
  unfoldable pub live_keys : List Bytes → M h (List Bytes)
  unfolding check_and_expire
  live_keys [] = pure []
  live_keys (key ∷ keys) = do
    dead ← check_and_expire key
    rest ← live_keys keys
    pure (if dead then rest else bulk key ∷ rest)

  unfoldable pub cmd_keys : Command → M h Bytes
  unfolding live_keys Db.keys_matching_glob
  cmd_keys (_ ∷ pattern ∷ []) = do
    db ← get_db
    encoded ← live_keys (Db.keys_matching_glob pattern db)
    pure (array encoded)
  cmd_keys _ = pure (wrong_arity (codes "keys"))

  unfoldable pub cmd_dbsize : Command → M h Bytes
  unfolding Db.size
  cmd_dbsize (_ ∷ []) = do db ← get_db; pure (integer (pos (Db.size db)))
  cmd_dbsize _ = pure (wrong_arity (codes "dbsize"))

  unfoldable pub disarm_all : List Bytes → M h (Unit {0})
  disarm_all [] = pure tt
  disarm_all (key ∷ keys) = do disarm key; disarm_all keys

  unfoldable pub cmd_flushall : Command → M h Bytes
  unfolding disarm_all Db.keys_matching_glob Db.clear
  cmd_flushall (_ ∷ []) = do
    db ← get_db
    disarm_all (Db.keys_matching_glob (codes "*") db)
    put_db (Db.clear db)
    pure (simple (codes "OK"))
  cmd_flushall _ = pure (wrong_arity (codes "flushall"))

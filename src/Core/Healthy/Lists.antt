-- ===== src/Core/Healthy/Lists.antt =====
-- The list commands of src/core/commands.cpp on a healthy server.
use hermitdb.Prelude.{
  ℕ, ◌≡◌, refl, ap, List, [], ◌∷◌, Option, none, some, Bytes, codes, Bool, true, false, arith,
  bytes_eq_iff, if◌then◌else◌, not, inl, inr, map,
}
use hermitdb.Prelude.Int.{ℤ, pos}
use hermitdb.Prelude.Map.{put, erase, find-put, find-erase}
use hermitdb.Protocol.Parser.{Command}
use hermitdb.Protocol.Decimal.{parse_i64}
use hermitdb.Protocol.Writer.{integer, bulk, array}
use hermitdb.Core.Db
use hermitdb.Core.Db.{Db, Entry, str, list, popped, without_back, front_popped, back_popped}
use hermitdb.Core.Expiry
use hermitdb.Core.Expiry.{Expiry, expiry_at, untrack}
use hermitdb.Core.Server.{Host, Server, on_db, pure, disarm, ◌>>=◌, ◌>>◌}
use hermitdb.Core.Server.Touch.{Answers}
use hermitdb.Core.Commands.Lists.{
  push_one, pop_one, with_db, push_all, push_values, push_generic, cmd_lpush, cmd_rpush, pop_reply,
  pop_value, pop_generic, cmd_lpop, cmd_rpop, cmd_llen, range_values, range_parsed, cmd_lrange,
}
use hermitdb.Core.Healthy.{put-IsHealthy, drop-IsHealthy}
use hermitdb.Core.Healthy.Steps.{Healthy, Safe, bind-Safe, returned-Safe, touched-Safe}
use hermitdb.Core.Healthy.ListSteps.{
  NoString, push_one-Pushed, pop_one-Popped, llen-ret, lrange-ret, NoString-put,
}

module _ {h : Host} where
  pushed-Safe :
      (left : Bool) (key : Bytes) (values : List Bytes) (len : ℕ) (s : Server h)
      → Healthy s
      → NoString key s.db
      → Safe (push_all {h = h} left key values len s)
  unfolding push_all
  pushed-Safe left key [] len s ok plain = ok
  pushed-Safe left key (value ∷ values) len s ok plain =
      let (l, n, e, proper) = push_one-Pushed left key value s.db plain in
      returned-Safe (on_db (push_one left key value)) (λ n. push_all left key values n) s n
        (record s { db = put key (list l) s.db }) (ap (λ r. on_db {h = h} (λ _. r) s) e)
        (pushed-Safe left key values n (record s { db = put key (list l) s.db })
          (put-IsHealthy ok key (list l) proper) (NoString-put key l s.db))

  -- the pushes and the reply
  push_all-Safe :
      (left : Bool) (key : Bytes) (values : List Bytes) (s : Server h)
      → Healthy s
      → NoString key s.db
      → Safe ((do len ← push_all {h = h} left key values 0; pure (integer (pos len))) s)
  push_all-Safe left key values s ok plain =
      bind-Safe (push_all left key values 0) _ s (pushed-Safe left key values 0 s ok plain)
        (λ n t k. k)

  reply-Safe :
      (key v : Bytes) (s : Server h) (b : Bool)
      → (b ≡ true → Healthy s)
      → (b ≡ false → Healthy {h = h} (record s { expiry = Expiry.persist key s.expiry }))
      → Safe (((if not b then disarm {h = h} key else pure tt) >> pure (bulk v)) s)
  reply-Safe key v s true f g = f refl
  reply-Safe key v s false f g = g refl

  popped-Safe :
      (key v : Bytes) (l : List Bytes) (s : Server h)
      → Healthy s
      → Safe (pop_reply {h = h} key (some v) (record s { db = popped key l s.db }))
  unfolding popped Db.exists Expiry.persist
  popped-Safe key v [] s ok =
      reply-Safe key v (record s { db = erase key s.db }) (Db.exists key (erase key s.db))
        (λ e. ground (arith, e, find-erase key key s.db, bytes_eq_iff key key))
        (λ e. drop-IsHealthy ok key)
  popped-Safe key v (x ∷ l) s ok =
      reply-Safe key v (record s { db = put key (list (x ∷ l)) s.db })
        (Db.exists key (put key (list (x ∷ l)) s.db))
        (λ e. put-IsHealthy ok key (list (x ∷ l)) (λ p. cc))
        (λ e. ground (arith, e, find-put key key (list (x ∷ l)) s.db, bytes_eq_iff key key))

  -- the pop and the reply
  pop_one-Safe :
      (left : Bool) (key : Bytes) (s : Server h)
      → Healthy s
      → NoString key s.db
      → Safe ((do v ← on_db (pop_one left key); pop_reply {h = h} key v) s)
  pop_one-Safe left key s ok plain = elim (pop_one-Popped left key s.db ok.full plain) [
    | inl e ↦
        returned-Safe (on_db (pop_one left key)) (λ v. pop_reply key v) s none s
          (ap (λ r. on_db {h = h} (λ _. r) s) e) ok
    | inr (v, l, e) ↦
        returned-Safe (on_db (pop_one left key)) (λ v. pop_reply key v) s (some v)
          (record s { db = popped key l s.db }) (ap (λ r. on_db {h = h} (λ _. r) s) e)
          (popped-Safe key v l s ok)
  ]

  llen-Safe :
      (key : Bytes) (s : Server h)
      → Healthy s
      → NoString key s.db
      → Safe
          ((do len ← on_db {h = h} (λ db. with_db db (Db.llen key db)); pure (integer (pos len))) s)
  llen-Safe key s ok plain =
      let (n, e) = llen-ret key s.db plain in
      returned-Safe (on_db (λ db. with_db db (Db.llen key db))) _ s n s
        (ap (λ r. on_db {h = h} (λ db. with_db db r) s) e) ok

  lrange-Safe :
      (key : Bytes) (start stop : ℤ) (s : Server h)
      → Healthy s
      → NoString key s.db
      → Safe (
          (do
            values ← on_db {h = h} (λ db. with_db db (Db.lrange key start stop db))
            pure (array (map bulk values)))
            s)
  lrange-Safe key start stop s ok plain =
      let (l, e) = lrange-ret key start stop s.db plain in
      returned-Safe (on_db (λ db. with_db db (Db.lrange key start stop db))) _ s l s
        (ap (λ r. on_db {h = h} (λ db. with_db db r) s) e) ok

  module _ (answers : Answers h) where
    push_generic-Safe :
        (name : Bytes) (cmd : Command) (left : Bool) (s : Server h)
        → Healthy s
        → Safe (push_generic {h = h} name cmd left s)
    unfolding push_generic push_values
    push_generic-Safe name [] left s ok = ok
    push_generic-Safe name (c ∷ []) left s ok = ok
    push_generic-Safe name (c ∷ key ∷ []) left s ok = ok
    push_generic-Safe name (c ∷ key ∷ value ∷ values) left s ok =
        touched-Safe answers key _ s ok
          (λ t k. ground (arith, push_all-Safe left key (value ∷ values) t k))

    pub cmd_lpush-Safe : (cmd : Command) (s : Server h) → Healthy s → Safe (cmd_lpush {h = h} cmd s)
    unfolding cmd_lpush
    cmd_lpush-Safe cmd s ok = push_generic-Safe (codes "lpush") cmd true s ok

    pub cmd_rpush-Safe : (cmd : Command) (s : Server h) → Healthy s → Safe (cmd_rpush {h = h} cmd s)
    unfolding cmd_rpush
    cmd_rpush-Safe cmd s ok = push_generic-Safe (codes "rpush") cmd false s ok

    pop_generic-Safe :
        (name : Bytes) (cmd : Command) (left : Bool) (s : Server h)
        → Healthy s
        → Safe (pop_generic {h = h} name cmd left s)
    unfolding pop_generic pop_value
    pop_generic-Safe name [] left s ok = ok
    pop_generic-Safe name (c ∷ []) left s ok = ok
    pop_generic-Safe name (c ∷ key ∷ []) left s ok =
        touched-Safe answers key _ s ok (λ t k. ground (arith, pop_one-Safe left key t k))
    pop_generic-Safe name (c ∷ key ∷ x ∷ args) left s ok = ok

    pub cmd_lpop-Safe : (cmd : Command) (s : Server h) → Healthy s → Safe (cmd_lpop {h = h} cmd s)
    unfolding cmd_lpop
    cmd_lpop-Safe cmd s ok = pop_generic-Safe (codes "lpop") cmd true s ok

    pub cmd_rpop-Safe : (cmd : Command) (s : Server h) → Healthy s → Safe (cmd_rpop {h = h} cmd s)
    unfolding cmd_rpop
    cmd_rpop-Safe cmd s ok = pop_generic-Safe (codes "rpop") cmd false s ok

    pub cmd_llen-Safe : (cmd : Command) (s : Server h) → Healthy s → Safe (cmd_llen {h = h} cmd s)
    unfolding cmd_llen
    cmd_llen-Safe [] s ok = ok
    cmd_llen-Safe (c ∷ []) s ok = ok
    cmd_llen-Safe (c ∷ key ∷ []) s ok =
        touched-Safe answers key _ s ok (λ t k. ground (arith, llen-Safe key t k))
    cmd_llen-Safe (c ∷ key ∷ x ∷ args) s ok = ok

    range_values-Safe :
        (key : Bytes) (start stop : ℤ) (s : Server h)
        → Healthy s
        → Safe (range_values {h = h} key start stop s)
    unfolding range_values
    range_values-Safe key start stop s ok =
        touched-Safe answers key _ s ok (λ t k. ground (arith, lrange-Safe key start stop t k))

    pub cmd_lrange-Safe :
        (cmd : Command) (s : Server h) → Healthy s → Safe (cmd_lrange {h = h} cmd s)
    unfolding cmd_lrange
    cmd_lrange-Safe [] s ok = ok
    cmd_lrange-Safe (c ∷ []) s ok = ok
    cmd_lrange-Safe (c ∷ key ∷ []) s ok = ok
    cmd_lrange-Safe (c ∷ key ∷ start ∷ []) s ok = ok
    cmd_lrange-Safe (c ∷ key ∷ start ∷ stop ∷ []) s ok = go (parse_i64 start) (parse_i64 stop)
      where
        go : (a b : Option ℤ) → Safe (range_parsed {h = h} key a b s)
        go (some a) (some b) = range_values-Safe key a b s ok
        go (some a) none = ok
        go none b = ok
    cmd_lrange-Safe (c ∷ key ∷ start ∷ stop ∷ x ∷ args) s ok = ok

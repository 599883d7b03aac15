-- ===== src/Core/Healthy/Keys.antt =====
-- DEL, EXISTS, TYPE, KEYS, DBSIZE and FLUSHALL of src/core/commands.cpp on a healthy server.
use hermitdb.Prelude.{
  ℕ, ◌≡◌, ◌≢◌, refl, List, [], ◌∷◌, none, Bytes, codes, false, arith, bytes_eq_iff, inl, inr,
  Option-cases,
}
use hermitdb.Prelude.Map.{find}
use hermitdb.Protocol.Parser.{Command}
use hermitdb.Protocol.Writer.{simple}
use hermitdb.Core.Fault.{ret}
use hermitdb.Core.Glob.{glob_match-star}
use hermitdb.Core.Db
use hermitdb.Core.Db.{Db}
use hermitdb.Core.Expiry
use hermitdb.Core.Expiry.{Expiry, expiry_at}
use hermitdb.Core.Expiry.Consistent.{IsConsistent, untrack-IsConsistent, expiry_at-untrack}
use hermitdb.Core.Server.{Host, Server, ◌>>◌, pure, check_and_expire, put_db}
use hermitdb.Core.Server.Touch.{Answers}
use hermitdb.Core.Commands.Keys.{
  del_key, del_keys, cmd_del, count_keys, cmd_exists, cmd_type, live_keys, cmd_keys, cmd_dbsize,
  disarm_all, cmd_flushall,
}
use hermitdb.Core.Healthy.{IsHealthy, drop-IsHealthy, erase-IsHealthy}
use hermitdb.Core.Healthy.Steps.{
  Healthy, Safe, bind-Safe, touched-Safe, check_and_expire-Safe, returned-Safe,
}

-- None of the keys has a deadline.
abbrev AllGone : Expiry → List Bytes → Type 0
AllGone e [] = Unit
AllGone e (k ∷ ks) = (expiry_at k e ≡ none) × AllGone e ks

-- if no key of the keyspace has a deadline
AllGone-find :
    (db : Db) (e : Expiry) (j : Bytes)
    → AllGone e (Db.keys_matching_glob (codes "*") db)
    → find j db ≢ none
    → expiry_at j e ≡ none
unfolding Db.keys_matching_glob find
AllGone-find [] e j gone there = absurd (there refl)
AllGone-find ((k, v) ∷ db) e j gone there =
    let (first, rest) = rw (glob_match-star k) at gone in
    ground (arith, bytes_eq_iff k j, first, AllGone-find db e j rest)

module _ {h : Host} where
  -- the key and its deadline go
  pub dropped-Healthy :
      (key : Bytes) (s : Server h)
      → Healthy s
      → Healthy {h = h}
          (record s { db = (Db.del key s.db).1; expiry = Expiry.persist key s.expiry })
  unfolding Expiry.persist Db.del
  dropped-Healthy key s ok = drop-IsHealthy ok key

  -- a key that there is not is deleted
  absent-Healthy :
      (key : Bytes) (s : Server h)
      → Healthy s
      → (Db.del key s.db).0 ≡ false
      → Healthy {h = h} (record s { db = (Db.del key s.db).1 })
  unfolding Db.del
  absent-Healthy key s ok e = erase-IsHealthy ok key (ok.covered key (ground arith))

  -- what `disarm_all` leaves: the table, in which no deadline is new
  disarm_all_lem :
      (keys : List Bytes) (s : Server h)
      → IsConsistent s.expiry
      → (e : Expiry) × (disarm_all {h = h} keys s ≡ ret (tt, record s { expiry = e }))
        × IsConsistent e
        × ((j : Bytes) → expiry_at j s.expiry ≡ none → expiry_at j e ≡ none)
        × AllGone e keys
  unfolding disarm_all Expiry.persist
  disarm_all_lem [] s c = (s.expiry, refl, c, λ j n. n, tt)
  disarm_all_lem (key ∷ keys) s c =
      let e' = Expiry.persist key s.expiry in
      let (e, r, c', stays, gone) =
        disarm_all_lem keys (record s { expiry = e' }) (untrack-IsConsistent key s.expiry c) in
      (
        e,
        r,
        c',
        λ j n. stays j (ground (arith, expiry_at-untrack key s.expiry c j)),
        (
          stays key (ground (arith, expiry_at-untrack key s.expiry c key, bytes_eq_iff key key)),
          gone,
        ),
      )

  module _ (answers : Answers h) where
    del_key-Safe : (key : Bytes) (n : ℕ) (s : Server h) → Healthy s → Safe (del_key {h = h} key n s)
    unfolding del_key
    del_key-Safe key n s ok =
        touched-Safe answers key _ s ok
          (λ t k. ground (arith, dropped-Healthy key t k, absent-Healthy key t k))

    del_keys-Safe :
        (keys : List Bytes) (n : ℕ) (s : Server h) → Healthy s → Safe (del_keys {h = h} keys n s)
    unfolding del_keys
    del_keys-Safe [] n s ok = ok
    del_keys-Safe (key ∷ keys) n s ok =
        bind-Safe (del_key key n) (λ n'. del_keys keys n') s (del_key-Safe key n s ok)
          (λ n' t k. del_keys-Safe keys n' t k)

    pub cmd_del-Safe : (cmd : Command) (s : Server h) → Healthy s → Safe (cmd_del {h = h} cmd s)
    unfolding cmd_del
    cmd_del-Safe [] s ok = ok
    cmd_del-Safe (c ∷ []) s ok = ok
    cmd_del-Safe (c ∷ key ∷ keys) s ok =
        bind-Safe (del_keys (key ∷ keys) 0) _ s (del_keys-Safe (key ∷ keys) 0 s ok) (λ n t k. k)

    count_keys-Safe :
        (keys : List Bytes) (n : ℕ) (s : Server h) → Healthy s → Safe (count_keys {h = h} keys n s)
    unfolding count_keys
    count_keys-Safe [] n s ok = ok
    count_keys-Safe (key ∷ keys) n s ok =
        touched-Safe answers key _ s ok (λ t k. count_keys-Safe keys _ t k)

    pub cmd_exists-Safe :
        (cmd : Command) (s : Server h) → Healthy s → Safe (cmd_exists {h = h} cmd s)
    unfolding cmd_exists
    cmd_exists-Safe [] s ok = ok
    cmd_exists-Safe (c ∷ []) s ok = ok
    cmd_exists-Safe (c ∷ key ∷ keys) s ok =
        bind-Safe (count_keys (key ∷ keys) 0) _ s (count_keys-Safe (key ∷ keys) 0 s ok) (λ n t k. k)

    pub cmd_type-Safe : (cmd : Command) (s : Server h) → Healthy s → Safe (cmd_type {h = h} cmd s)
    unfolding cmd_type
    cmd_type-Safe [] s ok = ok
    cmd_type-Safe (c ∷ []) s ok = ok
    cmd_type-Safe (c ∷ key ∷ []) s ok = touched-Safe answers key _ s ok (λ t k. k)
    cmd_type-Safe (c ∷ key ∷ x ∷ args) s ok = ok

    live_keys-Safe :
        (keys : List Bytes) (s : Server h) → Healthy s → Safe (live_keys {h = h} keys s)
    unfolding live_keys
    live_keys-Safe [] s ok = ok
    live_keys-Safe (key ∷ keys) s ok =
        bind-Safe (check_and_expire key) _ s (check_and_expire-Safe answers key s ok)
          (λ dead t k. bind-Safe (live_keys keys) _ t (live_keys-Safe keys t k) (λ rest u l. l))

    pub cmd_keys-Safe : (cmd : Command) (s : Server h) → Healthy s → Safe (cmd_keys {h = h} cmd s)
    unfolding cmd_keys
    cmd_keys-Safe [] s ok = ok
    cmd_keys-Safe (c ∷ []) s ok = ok
    cmd_keys-Safe (c ∷ pattern ∷ []) s ok =
        bind-Safe (live_keys (Db.keys_matching_glob pattern s.db)) _ s
          (live_keys-Safe (Db.keys_matching_glob pattern s.db) s ok) (λ l t k. k)
    cmd_keys-Safe (c ∷ pattern ∷ x ∷ args) s ok = ok

    pub cmd_dbsize-Safe :
        (cmd : Command) (s : Server h) → Healthy s → Safe (cmd_dbsize {h = h} cmd s)
    unfolding cmd_dbsize
    cmd_dbsize-Safe [] s ok = ok
    cmd_dbsize-Safe (c ∷ []) s ok = ok
    cmd_dbsize-Safe (c ∷ x ∷ args) s ok = ok

    pub cmd_flushall-Safe :
        (cmd : Command) (s : Server h) → Healthy s → Safe (cmd_flushall {h = h} cmd s)
    unfolding cmd_flushall Db.clear
    cmd_flushall-Safe [] s ok = ok
    cmd_flushall-Safe (c ∷ []) s ok =
        let keys = Db.keys_matching_glob (codes "*") s.db in
        let (e, r, c', stays, gone) = disarm_all_lem keys s ok.consistent in
        let empty : IsHealthy [] e = record {
          full = λ key p. unfold find in cc;
          consistent = c';
          covered = λ j n. elim (Option-cases (find j s.db)) [
            | inl absent ↦ stays j (ok.covered j absent)
            | inr (v, there) ↦ AllGone-find s.db e j gone (λ p. cc)
          ];
        } in
        returned-Safe (disarm_all keys) (λ _. put_db (Db.clear s.db) >> pure (simple (codes "OK")))
          s tt (record s { expiry = e }) r empty
    cmd_flushall-Safe (c ∷ x ∷ args) s ok = ok

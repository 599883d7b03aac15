-- ===== src/Boot/Rebuilt.antt =====
-- What the replay of the log makes of the keyspace: src/core/commands.cpp with the callback of
-- src/main.cpp.
use hermitdb.Prelude.{
  ◌≡◌, inl, inr, refl, ap, ◌∙◌, List, [], ◌∷◌, ◌++◌, some, Bytes, codes, false, bytes_eq,
}
use mathlib.Core.Path.{subst}
use hermitdb.Prelude.Map.{find}
use hermitdb.Protocol.Parser.{Command}
use hermitdb.Protocol.Writer.{simple}
use hermitdb.Persist.Wal.Replay.{apply_all}
use hermitdb.Persist.Wal.Replay.Recovery.{apply_all-append}
use hermitdb.Core.Fault.{ret}
use hermitdb.Core.Db
use hermitdb.Core.Db.{Db}
use hermitdb.Core.Expiry
use hermitdb.Core.Server.{Host, Server, M, touch}
use hermitdb.Core.Replies.{upper}
use hermitdb.Core.Commands.Strings.{cmd_set, set_value, set_options}
use hermitdb.Core.Dispatch.{table, rule_of, records_of}
use hermitdb.Core.Logged.{plain, logged_records, set_record, Faithful}
use hermitdb.Boot.{apply_record, after_record}
use hermitdb.Boot.Journal.{executed-plain, unlogged-plain}

-- The records make the one keyspace of the other, on each server that replays.
abbrev pub Replays : Host → List Command → Db → Db → Type 0
Replays h rs db db' =
    (u : Server h)
    → u.attached ≡ false
    → u.persistence_failed ≡ false
    → apply_all apply_record rs (ret (plain u db)) ≡ ret (plain u db')

module _ (h : Host) where
  pub Replays-nil : (db : Db) → Replays h [] db db
  unfolding apply_all
  Replays-nil db u detached healthy = refl

  pub Replays-append :
      (rs qs : List Command) (a b c : Db)
      → Replays h rs a b
      → Replays h qs b c
      → Replays h (rs ++ qs) a c
  Replays-append rs qs a b c first second u detached healthy =
      apply_all-append apply_record rs qs (ret (plain u a))
      ∙ ap (apply_all apply_record qs) (first u detached healthy)
      ∙ second u detached healthy

  -- a command that is logged as it is
  Replays-verbatim :
      (c : Bytes) (args : List Bytes) (f : Command → M h Bytes) (db : Db)
      → bytes_eq (upper c) (codes "SHUTDOWN") ≡ false
      → find (upper c) table ≡ some f
      → (r : Faithful f (rule_of (upper c)) (c ∷ args) db) → Replays h ((c ∷ args) ∷ []) db r.after
  unfolding apply_all apply_record
  Replays-verbatim c args f db other found r u detached healthy = ap after_record (
      executed-plain c args f u db other found healthy r
      ∙ unlogged-plain (upper c) (c ∷ args) r.reply u r.after detached healthy)

  -- a SET that stands for a command
  Replays-set :
      (key value : Bytes) (db : Db) → Replays h (set_record key value ∷ []) db (Db.set key value db)
  unfolding rule_of table find upper bytes_eq cmd_set set_options set_value touch logged_records
      records_of simple Expiry.persist
  Replays-set key value db =
      Replays-verbatim (codes "SET") (key ∷ value ∷ []) cmd_set db refl refl (record {
        reply = simple (codes "OK");
        after = Db.set key value db;
        runs = λ s. refl;
        logs = inr (inl refl);
      })

  -- what a command logs makes the same change
  pub Replays-logged :
      (c : Bytes) (args : List Bytes) (f : Command → M h Bytes) (db : Db)
      → bytes_eq (upper c) (codes "SHUTDOWN") ≡ false
      → find (upper c) table ≡ some f
      → (r : Faithful f (rule_of (upper c)) (c ∷ args) db)
      → Replays h (logged_records (rule_of (upper c)) (c ∷ args) r.reply) db r.after
  Replays-logged c args f db other found r = elim r.logs [
    | inl (e, same) ↦ rw (e, same) (Replays-nil r.after)
    | inr (inl e) ↦ rw e (Replays-verbatim c args f db other found r)
    | inr (inr (key, value, e, same)) ↦
        rw e
          (subst (λ d. Replays h (set_record key value ∷ []) db d) same (Replays-set key value db))
  ]

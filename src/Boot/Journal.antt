-- ===== src/Boot/Journal.antt =====
-- `execute` on a server without deadlines, with and without the log: src/core/commands.cpp, as main.cpp
-- uses it for clients and for the replay.
use hermitdb.Prelude.{
  ◌≡◌, refl, ap, sym, ◌∙◌, List, [], ◌∷◌, ◌++◌, some, Bytes, codes, true, false, not, ◌&&◌, arith,
  bytes_eq, if◌then◌else◌, append-nil, append_assoc,
}
use hermitdb.Prelude.Map.{find}
use hermitdb.Protocol.Parser.{Command}
use hermitdb.Persist.Encoding.{encode, encode_all}
use hermitdb.Persist.Wal.{ok}
use hermitdb.Core.Fault.{ret}
use hermitdb.Core.Db.{Db}
use hermitdb.Core.Expiry
use hermitdb.Core.Server.{Host, Server, M, ◌>>=◌, ◌>>◌, append_record, appended}
use hermitdb.Core.Server.Touch.{Answers}
use hermitdb.Core.Replies.{upper, misconf}
use hermitdb.Protocol.Writer.{simple}
use hermitdb.Core.Dispatch.{
  table, rule_of, put_records, log_mutation, logged, answer, run_handler, dispatch, execute,
}
use hermitdb.Core.Logged.{plain, logged_records, Faithful}

-- A log whose appends return, and while it is open succeed and leave the record's encoding at the end
-- of the file.
pub record Journal (h : Host) : Type 1 where
  pub Open : h.Log → Type 0
  pub file : h.Log → Bytes
  pub answers : Answers h
  pub keeps :
      (r : Command) (l : h.Log)
      → Open l
      → (l' : h.Log) × (h.append r l ≡ some (ok, l')) × (file l' ≡ file l ++ encode r) × Open l'

module _ {h : Host} where
  -- no fault was reported, and the command is not SHUTDOWN
  pub past_guards :
      (c : Bytes) (args : List Bytes) (s : Server h)
      → bytes_eq (upper c) (codes "SHUTDOWN") ≡ false
      → s.persistence_failed ≡ false
      → execute (c ∷ args) s ≡ run_handler (upper c) (c ∷ args) (find (upper c) table) s
  unfolding execute dispatch
  past_guards c args s other healthy =
      ap (λ b. if b then ret (misconf, s) else dispatch (c ∷ args) s) healthy
      ∙ ap
          (λ b.
            if b
            then ret (simple (codes "OK"), record s { shutdown = true })
            else run_handler (upper c) (c ∷ args) (find (upper c) table) s)
          other

  -- the handler runs, and then the log gets its records
  pub executed-plain :
      (c : Bytes) (args : List Bytes) (f : Command → M h Bytes) (s : Server h) (db : Db)
      → bytes_eq (upper c) (codes "SHUTDOWN") ≡ false
      → find (upper c) table ≡ some f
      → s.persistence_failed ≡ false
      → (r : Faithful f (rule_of (upper c)) (c ∷ args) db)
      → execute (c ∷ args) (plain s db)
        ≡ (logged (upper c) (c ∷ args) r.reply >> answer r.reply) (plain s r.after)
  executed-plain c args f s db other found healthy r =
      past_guards c args (plain s db) other healthy
      ∙ ap (λ o. run_handler {h = h} (upper c) (c ∷ args) o (plain s db)) found
      ∙ ap
          (λ x.
            ((λ _. x) >>= λ reply. logged (upper c) (c ∷ args) reply >> answer reply) (plain s db))
          (r.runs s)

  -- what the log gets has no deadline
  log_mutation-plain :
      (name : Bytes) (cmd : Command) (reply : Bytes) (s : Server h) (db : Db)
      → log_mutation name cmd reply (plain s db)
        ≡ put_records (logged_records (rule_of name) cmd reply) (plain s db)
  unfolding log_mutation logged_records put_records find Expiry.expiry_at
  log_mutation-plain name cmd reply s db = ground arith

  -- what `dispatch` does after a handler while no log is attached
  pub logged_off :
      (name : Bytes) (cmd : Command) (reply : Bytes) (s : Server h)
      → s.attached ≡ false
      → s.persistence_failed ≡ false
      → (logged name cmd reply >> answer reply) s ≡ ret (reply, s)
  logged_off name cmd reply s detached healthy =
      ap
        (λ a.
          ((λ t.
                if a && not t.persistence_failed
                then log_mutation name cmd reply t
                else ret (tt, t))
              >> answer {h = h} reply)
            s)
        detached
      ∙ ap (λ b. ret (if b then misconf else reply, s)) healthy

  -- and while one is, from what the log makes of the records
  pub logged_on :
      (name : Bytes) (cmd : Command) (reply : Bytes) (s : Server h) (l : h.Log)
      → s.attached ≡ true
      → s.persistence_failed ≡ false
      → log_mutation name cmd reply s ≡ ret (tt, record s { log = l })
      → (logged name cmd reply >> answer reply) s ≡ ret (reply, record s { log = l })
  logged_on name cmd reply s l live healthy put =
      ap
        (λ a.
          ((λ t.
                if a && not s.persistence_failed
                then log_mutation name cmd reply t
                else ret (tt, t))
              >> answer {h = h} reply)
            s)
        live
      ∙ ap
          (λ b.
            ((λ t. if not b then log_mutation name cmd reply t else ret (tt, t))
                >> answer {h = h} reply)
              s)
          healthy
      ∙ ap (λ r. ((λ _. r) >> answer {h = h} reply) s) put
      ∙ ap (λ b. ret (if b then misconf else reply, record s { log = l })) healthy

  -- what a record of the replay does after its handler
  pub unlogged-plain :
      (name : Bytes) (cmd : Command) (reply : Bytes) (u : Server h) (db : Db)
      → u.attached ≡ false
      → u.persistence_failed ≡ false
      → (logged name cmd reply >> answer reply) (plain u db) ≡ ret (reply, plain u db)
  unlogged-plain name cmd reply u db detached healthy =
      logged_off name cmd reply (plain u db) detached healthy

  module _ (j : Journal h) where
    -- the records stand in the log, in order
    pub put_records-keeps :
        (rs : List Command) (s : Server h)
        → s.persistence_failed ≡ false
        → j.Open s.log
        → (l : h.Log) × (put_records rs s ≡ ret (tt, record s { log = l }))
          × (j.file l ≡ j.file s.log ++ encode_all rs)
          × j.Open l
    unfolding put_records append_record encode_all
    put_records-keeps [] s healthy opened = (s.log, refl, sym (append-nil (j.file s.log)), opened)
    put_records-keeps (r ∷ rs) s healthy opened =
        let (l, put, holds, still) = j.keeps r s.log opened in
        let (l', more, all, kept) = put_records-keeps rs (record s { log = l }) healthy still in
        (
          l',
          ap
                (λ b.
                  ((λ _. if b then ret (tt, s) else appended (h.append r s.log) s) >>= λ _.
                  put_records rs)
                    s)
                healthy
              ∙ ap (λ o. ((λ _. appended {h = h} o s) >>= λ _. put_records rs) s) put
              ∙ more,
          all
              ∙ ap (λ x. x ++ encode_all rs) holds
              ∙ append_assoc (j.file s.log) (encode r) (encode_all rs),
          kept,
        )

    -- what a client's command does after its handler
    pub logged-plain :
        (name : Bytes) (cmd : Command) (reply : Bytes) (s : Server h) (db : Db)
        → s.attached ≡ true
        → s.persistence_failed ≡ false
        → j.Open s.log
        → (l : h.Log) × ((logged name cmd reply >> answer reply) (plain s db)
            ≡ ret (reply, plain (record s { log = l }) db))
          × (j.file l ≡ j.file s.log ++ encode_all (logged_records (rule_of name) cmd reply))
          × j.Open l
    logged-plain name cmd reply s db live healthy opened =
        let (l, put, holds, still) =
          put_records-keeps (logged_records (rule_of name) cmd reply) (plain s db) healthy opened in
        (
          l,
          logged_on name cmd reply (plain s db) l live healthy
              (log_mutation-plain name cmd reply s db ∙ put),
          holds,
          still,
        )

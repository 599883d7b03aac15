-- ===== src/Boot/Served.antt =====
-- A command of a client on a server without deadlines, and the records it logs: `execute` of
-- src/core/commands.cpp.
use hermitdb.Prelude.{
  ℕ, ◌≤◌, ◌≡◌, ◌⊎◌, inl, inr, refl, ap, sym, ◌∙◌, List, [], ◌∷◌, ◌++◌, none, some, Bytes, codes,
  true, false, arith, bytes_eq, append-nil, Bool-cases, Option-cases,
}
use mathlib.Core.Path.{subst}
use hermitdb.Prelude.Map.{find}
use hermitdb.Protocol.Parser.{Command}
use hermitdb.Protocol.Writer.{simple, error}
use hermitdb.Core.Fault.{ret}
use hermitdb.Core.Db.{Db}
use hermitdb.Core.Db.Reachable.{NoEmptyList}
use hermitdb.Core.Expiry
use hermitdb.Core.Server.{Host, Server, M}
use hermitdb.Core.Replies.{upper}
use hermitdb.Core.Dispatch.{LogRule, table, rule_of, run_handler, dispatch, execute}
use hermitdb.Core.Logged.{plain, logged_records, set_record, Faithful, Logs}
use hermitdb.Core.Logged.Table.{timeless, table-Faithful}
use hermitdb.Boot.Journal.{Journal, executed-plain, past_guards, logged-plain}
use hermitdb.Boot.Rebuilt.{Replays, Replays-nil, Replays-logged}
use hermitdb.Boot.Fitting.{logged_records-AllFit}
use hermitdb.Persist.Encoding.{encode_all, Fits, AllFit}
use hermitdb.Core.Expiry.{empty}
use hermitdb.Core.Expiry.Consistent.{empty-IsConsistent}
use hermitdb.Core.Healthy.{IsHealthy}
use hermitdb.Core.Healthy.Steps.{Safe}
use hermitdb.Core.Healthy.Whole.{execute_lem}

-- the server answers its clients and writes to its log
abbrev pub Live : {h : Host} → Journal h → Server h → Type 0
Live j s = (s.attached ≡ true) × (s.persistence_failed ≡ false) × j.Open s.log

-- What a client's command does to a live server: it returns, at most one record goes to the log, and
-- the replay of what goes there makes the same change.
pub record Served {h : Host} (j : Journal h) (cmd : Command) (s : Server h) (db : Db) : Type 0 where
  pub reply : Bytes
  pub next : Server h
  pub after : Db
  pub rs : List Command
  pub runs : execute cmd (plain s db) ≡ ret (reply, plain next after)
  pub live : Live j next
  pub full : NoEmptyList after
  pub file : j.file next.log ≡ j.file s.log ++ encode_all rs
  pub replays : Replays h rs db after
  pub short : (rs ≡ []) ⊎ ((r : Command) × (rs ≡ r ∷ []))
  pub fits : (n : ℕ) → 9 ≤ n → Fits n cmd → AllFit n rs

-- at most one record
logged-short :
    (rule : LogRule) (cmd : Command) (reply : Bytes) {db db' : Db}
    → Logs rule cmd reply db db'
    → (logged_records rule cmd reply ≡ [])
      ⊎ ((r : Command) × (logged_records rule cmd reply ≡ r ∷ []))
logged-short rule cmd reply (inl (e, _)) = inl e
logged-short rule cmd reply (inr (inl e)) = inr (cmd, e)
logged-short rule cmd reply (inr (inr (key, value, e, _))) = inr (set_record key value, e)

plain-Healthy : {db : Db} → NoEmptyList db → IsHealthy db empty
unfolding find Expiry.expiry_at
plain-Healthy full = record {
  full = full;
  consistent = empty-IsConsistent;
  covered = λ key p. refl;
}

module _ {h : Host} (j : Journal h) (s : Server h) (db : Db) (full : NoEmptyList db)
    (live : Live j s) where
  -- a command that is not in the table, or has no arguments
  quiet-Served :
      (cmd : Command) (reply : Bytes) (next : Server h)
      → execute cmd (plain s db) ≡ ret (reply, plain next db)
      → Live j next
      → next.log ≡ s.log
      → Served j cmd s db
  unfolding encode_all
  quiet-Served cmd reply next runs still same = record {
    reply = reply;
    next = next;
    after = db;
    rs = [];
    runs = runs;
    live = still;
    full = full;
    file = ap j.file same ∙ sym (append-nil (j.file s.log));
    replays = Replays-nil h db;
    short = inl refl;
    fits = λ n room p. tt;
  }

  handled-Served :
      (c : Bytes) (args : List Bytes) (f : Command → M h Bytes)
      → bytes_eq (upper c) (codes "SHUTDOWN") ≡ false
      → find (upper c) table ≡ some f
      → Faithful f (rule_of (upper c)) (c ∷ args) db
      → Served j (c ∷ args) s db
  handled-Served c args f other found r =
      let (l, logs, file, still) =
        logged-plain j (upper c) (c ∷ args) r.reply s r.after live.0 live.1 live.2 in
      let runs = executed-plain c args f s db other found live.1 r ∙ logs in
      record {
        reply = r.reply;
        next = record s { log = l };
        after = r.after;
        rs = logged_records (rule_of (upper c)) (c ∷ args) r.reply;
        runs = runs;
        live = (live.0, live.1, still);
        full = kept (record s { log = l }) runs;
        file = file;
        replays = Replays-logged h c args f db other found r;
        short = logged-short (rule_of (upper c)) (c ∷ args) r.reply r.logs;
        fits = λ n room p. logged_records-AllFit room (rule_of (upper c)) (c ∷ args) r.reply p;
      }
    where
      kept :
          {reply : Bytes} (next : Server h) {after : Db}
          → execute (c ∷ args) (plain s db) ≡ ret (reply, plain next after)
          → NoEmptyList after
      kept next e =
          let safe = execute_lem j.answers (c ∷ args) (plain s db) (plain-Healthy full) in
          (subst Safe e safe).full

  -- each client's command
  pub execute-Served : (cmd : Command) → timeless cmd ≡ true → Served j cmd s db
  unfolding timeless execute dispatch
  execute-Served [] e =
      quiet-Served [] (error (codes "ERR empty command")) s (ground (arith, live.1)) live refl
  execute-Served (c ∷ args) e = elim (Bool-cases (bytes_eq (upper c) (codes "SHUTDOWN"))) [
    | inl down ↦
        quiet-Served (c ∷ args) (simple (codes "OK")) (record s { shutdown = true })
          (ground (arith, down, live.1)) live refl
    | inr other ↦ elim (Option-cases (find (upper c) table)) [
      | inl missing ↦
          quiet-Served (c ∷ args) (error (codes "ERR unknown command '" ++ c ++ codes "'")) s
            (unknown other missing) live refl
      | inr (f, found) ↦
          handled-Served c args f other found
            (table-Faithful (upper c) f found (c ∷ args) db full e)
    ]
  ]
    where
      unknown :
          bytes_eq (upper c) (codes "SHUTDOWN") ≡ false
          → find (upper c) (table {h = h}) ≡ none
          → execute (c ∷ args) (plain s db)
            ≡ ret (error (codes "ERR unknown command '" ++ c ++ codes "'"), plain s db)
      unknown other missing =
          past_guards c args (plain s db) other live.1
          ∙ ap (λ o. run_handler {h = h} (upper c) (c ∷ args) o (plain s db)) missing

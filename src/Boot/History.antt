-- ===== src/Boot/History.antt =====
-- The clients' commands on a server without deadlines, and what they leave in the log: `execute` of
-- src/core/commands.cpp.
use hermitdb.Prelude.{
  ℕ, ◌≡◌, ◌⊎◌, inl, inr, refl, ap, sym, ◌∙◌, List, [], ◌∷◌, ◌++◌, Bytes, true, arith, append-nil,
  append_assoc,
}
use hermitdb.Protocol.Parser.{Command}
use hermitdb.Persist.Encoding.{encode, encode_all, AllFit}
use hermitdb.Persist.Wal.Replay.{apply_all, replay_frame_cap}
use hermitdb.Core.Fault.{ret}
use hermitdb.Core.Db.{Db}
use hermitdb.Core.Db.Reachable.{NoEmptyList}
use hermitdb.Core.Server.{Host, Server}
use hermitdb.Core.Dispatch.{execute}
use hermitdb.Core.Logged.{plain}
use hermitdb.Core.Logged.Table.{timeless}
use hermitdb.Boot.{apply_record, after_record}
use hermitdb.Boot.Journal.{Journal}
use hermitdb.Boot.Rebuilt.{Replays, Replays-nil, Replays-append}
use hermitdb.Boot.Served.{Live, Served, execute-Served}

-- the commands give no key a deadline
abbrev pub AllTimeless : List Command → Type 0
AllTimeless [] = Unit
AllTimeless (c ∷ cs) = (timeless c ≡ true) × AllTimeless cs

-- After the first of the commands, the keyspace is what the replay of these records makes.
abbrev pub Stands : {h : Host} → Journal h → List Command → Server h → Db → List Command → Type 0
Stands {h} j cmds s db rs =
    (first rest : List Command) × (cmds ≡ first ++ rest)
    × (t : Server h) × (db' : Db) × (apply_all apply_record first (ret (plain s db))
        ≡ ret (plain t db'))
    × (j.file t.log ≡ j.file s.log ++ encode_all rs)
    × Replays h rs db db'

-- The clients' commands return; the records in the log make the keyspace, and those of them that are
-- complete at a crash make the keyspace of an earlier time.
pub record History {h : Host} (j : Journal h) (cmds : List Command) (s : Server h) (db : Db)
    : Type 0 where
  pub next : Server h
  pub after : Db
  pub rs : List Command
  pub runs : apply_all apply_record cmds (ret (plain s db)) ≡ ret (plain next after)
  pub live : Live j next
  pub file : j.file next.log ≡ j.file s.log ++ encode_all rs
  pub replays : Replays h rs db after
  pub fits : AllFit replay_frame_cap cmds → AllFit replay_frame_cap rs
  pub earlier : (done lost : List Command) → rs ≡ done ++ lost → Stands j cmds s db done

pub encode_all-append :
    (rs qs : List Command) → encode_all (rs ++ qs) ≡ encode_all rs ++ encode_all qs
unfolding encode_all
encode_all-append [] qs = refl
encode_all-append (r ∷ rs) qs =
    ap (λ x. encode r ++ x) (encode_all-append rs qs)
    ∙ sym (append_assoc (encode r) (encode_all rs) (encode_all qs))

AllFit-join : (n : ℕ) (rs qs : List Command) → AllFit n rs → AllFit n qs → AllFit n (rs ++ qs)
AllFit-join n [] qs p q = q
AllFit-join n (r ∷ rs) qs p q = (p.0, AllFit-join n rs qs p.1 q)

-- A first part of at most one record and more is empty, or holds the record.
first_part :
    (rs qs done lost : List Command)
    → (rs ≡ []) ⊎ ((r : Command) × (rs ≡ r ∷ []))
    → rs ++ qs ≡ done ++ lost
    → (done ≡ []) ⊎ ((more : List Command) × (done ≡ rs ++ more) × (qs ≡ more ++ lost))
first_part rs qs [] lost short e = inl refl
first_part rs qs (d ∷ done) lost (inl none') e =
    inr (d ∷ done, ap (λ x. x ++ d ∷ done) (sym none'), ap (λ x. x ++ qs) (sym none') ∙ e)
first_part rs qs (d ∷ done) lost (inr (r, one)) e =
    let e' : r ∷ qs ≡ d ∷ (done ++ lost) = ap (λ x. x ++ qs) (sym one) ∙ e in
    inr (done, ground (arith, one, e'), ground (arith, e'))

module _ {h : Host} (j : Journal h) where
  first_step :
      (c : Command) (cs : List Command) (s t : Server h) (reply : Bytes) (db db' : Db)
      → execute c (plain s db) ≡ ret (reply, plain t db')
      → apply_all apply_record (c ∷ cs) (ret (plain s db))
        ≡ apply_all apply_record cs (ret (plain t db'))
  unfolding apply_all apply_record
  first_step c cs s t reply db db' e = ap (λ x. apply_all apply_record cs (after_record x)) e

  history-nil : (s : Server h) (db : Db) → Live j s → History j [] s db
  unfolding apply_all encode_all
  history-nil s db live = record {
    next = s;
    after = db;
    rs = [];
    runs = refl;
    live = live;
    file = sym (append-nil (j.file s.log));
    replays = Replays-nil h db;
    fits = λ p. tt;
    earlier = earlier;
  }
    where
      earlier : (done lost : List Command) → [] ≡ done ++ lost → Stands j [] s db done
      earlier [] lost e =
          ([], [], refl, s, db, refl, sym (append-nil (j.file s.log)), Replays-nil h db)
      earlier (d ∷ done) lost e = cc

  -- the records of two parts, one behind the other
  grown :
      (a b c : h.Log) (rs qs : List Command)
      → j.file b ≡ j.file a ++ encode_all rs
      → j.file c ≡ j.file b ++ encode_all qs
      → j.file c ≡ j.file a ++ encode_all (rs ++ qs)
  grown a b c rs qs first second =
      second
      ∙ ap (λ x. x ++ encode_all qs) first
      ∙ append_assoc (j.file a) (encode_all rs) (encode_all qs)
      ∙ ap (λ x. j.file a ++ x) (sym (encode_all-append rs qs))

  history-cons :
      (c : Command) (cs : List Command) (s : Server h) (db : Db)
      → (r : Served j c s db) → History j cs r.next r.after
      → History j (c ∷ cs) s db
  unfolding apply_all encode_all
  history-cons c cs s db r more = record {
    next = more.next;
    after = more.after;
    rs = r.rs ++ more.rs;
    runs = first_step c cs s r.next r.reply db r.after r.runs ∙ more.runs;
    live = more.live;
    file = grown s.log r.next.log more.next.log r.rs more.rs r.file more.file;
    replays = Replays-append h r.rs more.rs db r.after more.after r.replays more.replays;
    fits = λ p.
        AllFit-join replay_frame_cap r.rs more.rs (r.fits replay_frame_cap (omega arith) p.0)
          (more.fits p.1);
    earlier = λ done lost e. elim (first_part r.rs more.rs done lost r.short e) [
      | inl none' ↦
          rw none'
            ([], c ∷ cs, refl, s, db, refl, sym (append-nil (j.file s.log)), Replays-nil h db)
      | inr (part, e1, e2) ↦
          let (first, rest, split, t, db', ran, file, same) = more.earlier part lost e2 in
          rw e1 (
            c ∷ first,
            rest,
            ap (λ x. c ∷ x) split,
            t,
            db',
            first_step c first s r.next r.reply db r.after r.runs ∙ ran,
            grown s.log r.next.log t.log r.rs part r.file file,
            Replays-append h r.rs part db r.after db' r.replays same,
          )
    ];
  }

  pub history :
      (cmds : List Command) (s : Server h) (db : Db)
      → NoEmptyList db
      → Live j s
      → AllTimeless cmds
      → History j cmds s db
  history [] s db full live all = history-nil s db live
  history (c ∷ cs) s db full live all =
      let r = execute-Served j s db full live c all.0 in
      history-cons c cs s db r (history cs r.next r.after r.full r.live all.1)

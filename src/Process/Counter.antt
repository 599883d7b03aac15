-- ===== src/Process/Counter.antt =====
-- INCR of src/core/commands.cpp, and `execute` around it, on a counter in range.
use hermitdb.Prelude.{
  ℕ, suc, ◌^◌, ◌<◌, ◌≡◌, ◌⊎◌, inl, inr, refl, ap, ◌∙◌, [], ◌∷◌, some, Bytes, codes, true, false,
  arith, bytes_eq, bytes_eq_iff,
}
use hermitdb.Prelude.Int.{pos, ◌+ℤ◌}
use hermitdb.Prelude.Map.{find, find-put}
use hermitdb.Protocol.Parser.{Command}
use hermitdb.Protocol.Decimal.{to_string_i64, parse_i64-to_string_i64}
use hermitdb.Protocol.Writer.{integer}
use hermitdb.Core.Fault.{Result, ret}
use hermitdb.Core.Db
use hermitdb.Core.Db.{Db}
use hermitdb.Core.Server.{Host, Server, touch}
use hermitdb.Core.Replies.{upper}
use hermitdb.Core.Commands.Strings.{cmd_incr, incr_by, counter_value}
use hermitdb.Core.Dispatch.{table, rule_of, is_one_of, execute, records_of}
use hermitdb.Core.Logged.{plain, logged_records, Faithful}
use hermitdb.Boot.Journal.{Journal, executed-plain, unlogged-plain, logged-plain}

abbrev pub incr : Bytes → Command
incr key = codes "INCR" ∷ key ∷ []

-- INCR reads this number at the key: 0 where there is none.
abbrev pub Counts : Bytes → ℕ → Db → Type 0
Counts key n db =
    (Db.is_list (Db.key_type key db) ≡ false) × (counter_value (Db.get key db) ≡ some (pos n))

-- the keyspace after one more
abbrev pub counted_up : Bytes → ℕ → Db → Db
counted_up key n db = Db.set key (to_string_i64 (pos (suc n))) db

-- No fault was reported, and the log, where there is one, is open.
abbrev pub Ready : {h : Host} → Journal h → Server h → Type 0
Ready j s =
    (s.persistence_failed ≡ false) × ((s.attached ≡ false) ⊎ ((s.attached ≡ true) × j.Open s.log))

pub counted_up-Counts :
    (key : Bytes) (n : ℕ) (db : Db) → suc n < 2 ^ 63 → Counts key (suc n) (counted_up key n db)
unfolding Db.key_type Db.get Db.set
counted_up-Counts key n db small =
    let there = find-put key key (Db.str (to_string_i64 (pos (suc n)))) db in
    (
      ground (arith, there, bytes_eq_iff key key),
      ground (
        arith,
        there,
        bytes_eq_iff key key,
        parse_i64-to_string_i64 (pos (suc n)) (small, omega arith),
      ),
    )

module _ {h : Host} where
  incr_by-Counts :
      (key : Bytes) (n : ℕ) (db : Db)
      → suc n < 2 ^ 63
      → Counts key n db
      → (s : Server h)
      → incr_by key (pos 1) (plain s db)
        ≡ ret (integer (pos (suc n)), plain s (counted_up key n db))
  unfolding incr_by touch find ◌+ℤ◌
  incr_by-Counts key n db small (plain_key, value) s = ground (arith, plain_key, value)

  incr-Faithful :
      (key : Bytes) (n : ℕ) (db : Db)
      → suc n < 2 ^ 63
      → Counts key n db
      → (r : Faithful (cmd_incr {h = h}) (rule_of (codes "INCR")) (incr key) db) × (r.after
          ≡ counted_up key n db)
        × (r.reply ≡ integer (pos (suc n)))
  unfolding cmd_incr rule_of is_one_of bytes_eq logged_records records_of integer
  incr-Faithful key n db small counts = (
    record {
      reply = integer (pos (suc n));
      after = counted_up key n db;
      runs = incr_by-Counts key n db small counts;
      logs = inr (inl refl);
    },
    refl,
    refl,
  )

  -- INCR on a counter below the range's end answers the next number and leaves it, on a server
  -- without deadlines
  pub execute-incr :
      (j : Journal h) (key : Bytes) (n : ℕ) (s : Server h) (db : Db)
      → suc n < 2 ^ 63
      → Counts key n db
      → Ready j s
      → (t : Server h) × (execute (incr key) (plain s db)
          ≡ ret (integer (pos (suc n)), plain t (counted_up key n db)))
        × Ready j t
  unfolding upper table find bytes_eq rule_of is_one_of
  execute-incr j key n s db small counts (healthy, log) =
      let (r, after, reply) = incr-Faithful key n db small counts in
      let runs = executed-plain (codes "INCR") (key ∷ []) cmd_incr s db refl refl healthy r in
      let same : (t : Server h)
          → ◌≡◌ {A = Result (Bytes × Server h)} (ret (r.reply, plain t r.after))
              (ret (integer (pos (suc n)), plain t (counted_up key n db))) =
        λ t.
          ap (λ x. ret (x, plain t r.after)) reply
          ∙ ap (λ d. ret (integer (pos (suc n)), plain t d)) after in
      elim log [
        | inl detached ↦ (
          s,
          runs
              ∙ unlogged-plain (upper (codes "INCR")) (incr key) r.reply s r.after detached healthy
              ∙ same s,
          (healthy, inl detached),
        )
        | inr (live, opened) ↦
            let (l, logs, _, still) =
              logged-plain j (upper (codes "INCR")) (incr key) r.reply s r.after live healthy
                opened in
            (
              record s { log = l },
              runs ∙ logs ∙ same (record s { log = l }),
              (healthy, inr (live, still)),
            )
      ]

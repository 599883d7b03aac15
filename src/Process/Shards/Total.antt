-- ===== src/Process/Shards/Total.antt =====
-- INCRs from several threads: src/core/shard.cpp with INCR of src/core/commands.cpp.
use hermitdb.Prelude.{
  ℕ, suc, ◌+◌, ◌^◌, ◌<◌, ◌≡◌, inl, inr, refl, ap, sym, ◌∙◌, List, [], ◌∷◌, some, Bytes, Bool,
  get_elem?, set, arith, Option-cases,
}
use hermitdb.Prelude.Int.{pos}
use mathlib.Core.Path.{subst}
use hermitdb.Protocol.Writer.{integer}
use hermitdb.Core.Fault.{Result, ret, fault}
use hermitdb.Core.Db.{Db}
use hermitdb.Core.Server.{Host, Server, M, ◌>>=◌, pure}
use hermitdb.Core.Logged.{plain}
use hermitdb.Boot.Journal.{Journal}
use hermitdb.Process.{on_command}
use hermitdb.Process.Counter.{incr, Counts, counted_up, Ready, counted_up-Counts, execute-incr}
use hermitdb.Process.Shards.{
  Call, Phase, handle, Worker, Shards, body, over, and_then, started, run_steps,
}
use hermitdb.Process.Shards.Serial.{done, serve_of, serve, serve_all, settled, settled_result}
use hermitdb.Process.Shards.Programs.{
  EachIncr, total, to_come, WorkersIncr, next_call, WorkersIncr-set, to_come-set, to_come-idle,
  idle-WorkersIncr,
}
use hermitdb.Process.Shards.Refines.{run_steps_lem}

module _ {h : Host} where
  module _ (j : Journal h) (key : Bytes) (end : ℕ) (small : end < 2 ^ 63) where
    -- The counter's number and the calls to come are `end` together.
    abbrev pub Counting : Shards h → Type 0
    Counting sh =
        (s : Server h) × (db : Db) × (n : ℕ) × (sh.server ≡ plain s db)
        × Counts key n db
        × Ready j s
        × (n + to_come sh.workers ≡ end)
        × WorkersIncr key sh.workers

    abbrev CountingResult : Result (Shards h) → Type 0
    CountingResult (ret sh) = Counting sh
    CountingResult (fault f) = ⊥

    body-incr :
        (s : Server h) (db : Db) (n : ℕ)
        → suc n < 2 ^ 63
        → Counts key n db
        → Ready j s
        → (t : Server h) × (reply : List Bytes) × (stop : Bool) × (body
              (handle (incr key))
              (plain s db)
            ≡ ret ((reply, stop), plain t (counted_up key n db)))
          × Ready j t
    unfolding body on_command
    body-incr s db n fits counts ready =
        let (t, e, still) = execute-incr j key n s db fits counts ready in
        let after_execute : Bytes → M h (Bytes × Bool) = λ reply s. ret ((reply, s.shutdown), s) in
        let delivered : Bytes × Bool → M h (List Bytes × Bool) = λ x. pure (x.0 ∷ [], x.1) in
        (
          t,
          integer (pos (suc n)) ∷ [],
          t.shutdown,
          ap (λ r. (((λ _. r) >>= after_execute) >>= delivered) (plain s db)) e,
          still,
        )

    serve-Counting : (i : ℕ) (sh : Shards h) → Counting sh → CountingResult (serve i sh)
    unfolding serve
    serve-Counting i sh counting = elim (Option-cases (get_elem? sh.workers i)) [
      | inl e ↦ subst (λ o. CountingResult (serve_of i sh o)) (sym e) counting
      | inr (w, e) ↦
          subst (λ o. CountingResult (serve_of i sh o)) (sym e) (go w.calls w.phase w.replies e)
    ]
      where
        go :
            (calls : List Call) (p : Phase h) (replies : List Bytes)
            → get_elem? sh.workers i ≡ some (record { calls = calls; phase = p; replies = replies })
            → CountingResult
                (serve_of i sh (some (record { calls = calls; phase = p; replies = replies })))
        go [] p replies there = counting
        go (c ∷ calls) p replies there =
            let (s, db, n, server, counts, ready, sum, all) = counting in
            let (same, rest) = next_call key sh.workers i _ all there in
            let fewer : (reply : List Bytes)
                → n + suc (to_come (set sh.workers i (left reply))) ≡ end =
              λ reply. omega (arith, sum, to_come-set sh.workers i _ (left reply) there refl) in
            let (t, reply, stop, e, still) =
              body-incr s db n (omega (arith, fewer [], small)) counts ready in
            subst (λ r. CountingResult (done i (here c) sh calls r))
              (sym (ap (λ x. body x sh.server) same ∙ ap (body (handle (incr key))) server ∙ e))
              (
                t,
                counted_up key n db,
                suc n,
                refl,
                counted_up-Counts key n db (omega (arith, fewer [], small)),
                still,
                omega (arith, fewer reply),
                WorkersIncr-set key sh.workers i (left reply) all rest,
              )
          where
            here : Call → Worker h
            here c = record { calls = c ∷ calls; phase = p; replies = replies }

            left : List Bytes → Worker h
            left reply = over (here c) calls reply

    serve_all-Counting :
        (order : List ℕ) (sh : Shards h) → Counting sh → CountingResult (serve_all order sh)
    unfolding serve_all
    serve_all-Counting [] sh counting = counting
    serve_all-Counting (i ∷ order) sh counting =
        go (serve i sh) (serve-Counting i sh counting) (serve_all-Counting order)
      where
        go :
            (r : Result (Shards h))
            → CountingResult r
            → ((sh : Shards h) → Counting sh → CountingResult (serve_all order sh))
            → CountingResult (and_then r (serve_all order))
        go (ret sh') kept more = more sh' kept
        go (fault f) none' more = none'

-- Threads that only call INCR with one key, which has no deadline and holds a number, or nothing for 0,
-- lose no update: on a server without deadlines, whose log is off or appends successfully, and if the
-- number and the calls together are below 2 ^ 63, then whatever the order in which the threads' steps
-- are scheduled, and wherever the schedule ends, no call faults, and the number that the counter then
-- holds, and the calls that are still to come or under way before their write, are together the number
-- at the start and all the calls.
pub total_lem :
    {h : Host} (j : Journal h) (key : Bytes) (schedule : List ℕ) (s : Server h) (db : Db) (n : ℕ)
    (programs : List (List Call))
    → EachIncr key programs
    → Counts key n db
    → Ready j s
    → n + total programs < 2 ^ 63
    → (sh : Shards h) × (run_steps schedule (started (plain s db) programs) ≡ ret sh)
      × (t : Server h) × (db' : Db) × (m : ℕ) × (sh.server ≡ plain t db')
      × Counts key m db'
      × (m + to_come (settled sh).workers ≡ n + total programs)
total_lem {h} j key schedule s db n programs each counts ready small =
    let (order, e) = run_steps_lem schedule (plain s db) programs in
    go (run_steps schedule (started (plain s db) programs)) refl (
      subst (CountingResult j key (n + total programs) small) e (
        serve_all-Counting j key (n + total programs) small order (started (plain s db) programs) (
          s,
          db,
          n,
          refl,
          counts,
          ready,
          ap (λ x. n + x) (to_come-idle h programs),
          idle-WorkersIncr h key programs each,
        )))
  where
    go :
        (r : Result (Shards h))
        → run_steps schedule (started (plain s db) programs) ≡ r
        → CountingResult j key (n + total programs) small (settled_result r)
        → (sh : Shards h) × (run_steps schedule (started (plain s db) programs) ≡ ret sh)
          × (t : Server h) × (db' : Db) × (m : ℕ) × (sh.server ≡ plain t db')
          × Counts key m db'
          × (m + to_come (settled sh).workers ≡ n + total programs)
    go (fault f) e none' = absurd none'
    go (ret sh) e (t, db', m, server, counts', ready', sum, all) =
        (sh, e, t, db', m, server, counts', sum)

-- ===== src/Process/Readback.antt =====
-- SET and the GET that follows it, through `execute` and the log: src/core/commands.cpp.
use hermitdb.Prelude.{
  ℕ, suc, List, get_elem?, ◌≡◌, inl, inr, refl, ap, ◌∙◌, [], ◌∷◌, Option, none, some, Bytes, codes,
  Bool, true, false, bytes_eq, bytes_eq_iff, arith, if◌then◌else◌, Bool-cases,
}
use hermitdb.Prelude.Map.{find, find-put}
use hermitdb.Prelude.Int.{ℤ, ltb_ℤ}
use hermitdb.Protocol.Parser.{Command}
use hermitdb.Protocol.Writer.{simple, bulk}
use hermitdb.Core.Fault.{Result, ret, fault}
use hermitdb.Core.Db
use hermitdb.Core.Expiry
use hermitdb.Core.Expiry.{expiry_at, Slot}
use hermitdb.Core.Expiry.Consistent.{IsConsistent, untrack-IsConsistent, expiry_at-untrack}
use hermitdb.Core.Server.{
  Host, Server, M, ◌>>=◌, ◌>>◌, pure, touch, evict, append_record, check_found, check_slot,
  check_and_expire, expire,
}
use hermitdb.Core.Replies.{upper}
use hermitdb.Core.Commands.Strings.{cmd_get, cmd_set}
use hermitdb.Core.Commands.Readback.{
  touch-IsConsistent, stored, cmd_set-touched, cmd_get-stored, find-untrack,
}
use hermitdb.Core.Dispatch.{
  table, rule_of, is_one_of, is_error, records_of, key_of, log_nothing, put_records, log_mutation,
  logged, answer, run_handler, execute,
}
use hermitdb.Boot.Journal.{Journal, past_guards, put_records-keeps, logged_off, logged_on}
use hermitdb.Process.Counter.{Ready}

module _ {h : Host} (j : Journal h) where
  -- a step that returns leaves no fault reported and an open log
  abbrev Kept : {A : Type 0} → Result (A × Server h) → Type 0
  Kept (ret (a, s)) = Ready j s
  Kept (fault f) = Unit

  evict-Kept : (key : Bytes) (s : Server h) → Ready j s → Kept (evict key s)
  unfolding evict append_record
  evict-Kept key s (healthy, inl detached) = rw detached (healthy, inl refl)
  evict-Kept key s (healthy, inr (live, opened)) =
      let (l, put, _, still) = j.keeps (codes "DEL" ∷ key ∷ []) s.log opened in
      rw (live, healthy, put) (refl, inr (refl, still))

  >>=-Kept :
      {A B : Type 0} (r : Result (A × Server h)) (f : A → M h B) (s : Server h)
      → Kept r
      → ((a : A) (t : Server h) → Ready j t → Kept (f a t))
      → Kept (((λ _. r) >>= f) s)
  >>=-Kept (ret (a, t)) f s k next = next a t k
  >>=-Kept (fault e) f s k next = tt

  check_slot-Kept :
      (key : Bytes) (o : Option Slot) (s : Server h) → Ready j s → Kept (check_slot key o s)
  check_slot-Kept key none s k = tt
  check_slot-Kept key (some slot) s k = go (ltb_ℤ (h.wall_ms s.readings) slot.at_ms)
    where
      read : Server h
      read = record s { readings = suc s.readings }

      gone : Server h
      gone = record read { expiry = (Expiry.untrack key s.expiry).1 }

      go : (b : Bool) → Kept ((if b then pure false else expire key) read)
      go true = k
      go false =
          >>=-Kept (evict key gone) (λ _. pure true) gone (evict-Kept key gone k) (λ a t k. k)

  check_found-Kept :
      (key : Bytes) (o : Option ℕ) (s : Server h) → Ready j s → Kept (check_found key o s)
  check_found-Kept key none s k = k
  check_found-Kept key (some i) s k = check_slot-Kept key (get_elem? s.expiry.slots i) s k

  touch-Kept : (key : Bytes) (s : Server h) → Ready j s → Kept (touch key s)
  unfolding touch check_and_expire
  touch-Kept key s k =
      let o = find key s.expiry.index in
      >>=-Kept (check_found key o s) (λ _. pure tt) s (check_found-Kept key o s k) (λ a t k. k)

  log_mutation-Ready :
      (name : Bytes) (cmd : Command) (reply : Bytes) (s : Server h)
      → s.persistence_failed ≡ false
      → j.Open s.log
      → (l : h.Log) × (log_mutation name cmd reply s ≡ ret (tt, record s { log = l })) × j.Open l
  unfolding log_mutation
  log_mutation-Ready name cmd reply s healthy opened =
      let rs = records_of (rule_of name) cmd reply (expiry_at (key_of cmd) s.expiry) in
      let (l, put, _, still) = put_records-keeps j rs s healthy opened in
      let step : (b : Bool) → Result (Unit {0} × Server h) =
        λ b. if b then ret (tt, s) else put_records rs s in
      elim (Bool-cases (is_error reply)) [
        | inl e ↦ (s.log, ap step e, opened)
        | inr e ↦ (l, ap step e ∙ put, still)
      ]

  -- what a client's command does after its handler
  logged-Ready :
      (name : Bytes) (cmd : Command) (reply : Bytes) (s : Server h)
      → Ready j s
      → (l : h.Log) × ((logged name cmd reply >> answer reply) s
          ≡ ret (reply, record s { log = l }))
        × Ready j (record s { log = l })
  logged-Ready name cmd reply s (healthy, inl detached) =
      (s.log, logged_off name cmd reply s detached healthy, (healthy, inl detached))
  logged-Ready name cmd reply s (healthy, inr (live, opened)) =
      let (l, put, still) = log_mutation-Ready name cmd reply s healthy opened in
      (l, logged_on name cmd reply s l live healthy put, (healthy, inr (live, still)))

  -- a command that has no rule leaves the log as it is
  logged_nothing :
      (name : Bytes) (cmd : Command) (reply : Bytes) (s : Server h)
      → rule_of name ≡ log_nothing
      → Ready j s
      → (logged name cmd reply >> answer reply) s ≡ ret (reply, s)
  unfolding log_mutation put_records records_of
  logged_nothing name cmd reply s rule (healthy, inl detached) =
      logged_off name cmd reply s detached healthy
  logged_nothing name cmd reply s rule (healthy, inr (live, _)) =
      logged_on name cmd reply s s.log live healthy (
        ap (λ r. if is_error reply then ret (tt, s) else put_records (records_of r cmd reply at) s)
          rule
        ∙ same (is_error reply))
    where
      at : Option ℤ
      at = expiry_at (key_of cmd) s.expiry

      same : (b : Bool) → (if b then ret (tt, s) else pure {h = h} tt s) ≡ ret (tt, s)
      same true = refl
      same false = refl

  executed :
      (c : Bytes) (args : List Bytes) (f : Command → M h Bytes) (reply : Bytes) (s t : Server h)
      → bytes_eq (upper c) (codes "SHUTDOWN") ≡ false
      → find (upper c) table ≡ some f
      → s.persistence_failed ≡ false
      → f (c ∷ args) s ≡ ret (reply, t)
      → execute (c ∷ args) s ≡ (logged (upper c) (c ∷ args) reply >> answer reply) t
  executed c args f reply s t other found healthy e =
      past_guards c args s other healthy
      ∙ ap (λ o. run_handler {h = h} (upper c) (c ∷ args) o s) found
      ∙ ap (λ x. ((λ _. x) >>= λ r. logged (upper c) (c ∷ args) r >> answer r) s) e

  -- Where no fault was reported, and the log, if there is one, is open, so that its appends succeed, and
  -- the table of deadlines is consistent, a client's SET without options replies OK, whatever the key
  -- held and whether or not it had a deadline. Then the key has no deadline, a GET of it replies with
  -- the value and changes nothing, the table is consistent, no fault is reported and the log, if there
  -- is one, is open. The commands' names are in any case.
  pub execute_readback :
      (name name' key value : Bytes) (s : Server h)
      → upper name ≡ codes "SET"
      → upper name' ≡ codes "GET"
      → Ready j s
      → IsConsistent s.expiry
      → (t : Server h) × (execute (name ∷ key ∷ value ∷ []) s ≡ ret (simple (codes "OK"), t))
        × (execute (name' ∷ key ∷ []) t ≡ ret (bulk value, t))
        × (expiry_at key t.expiry ≡ none)
        × IsConsistent t.expiry
        × Ready j t
  unfolding Db.set Expiry.persist find table bytes_eq rule_of is_one_of
  execute_readback name name' key value s set get k c =
      let (s', e, c') = touch-IsConsistent j.answers key s c in
      let k' : Ready j s' = rw e at (touch-Kept key s k) in
      let same : bytes_eq key key ≡ true = ground (arith, bytes_eq_iff key key) in
      let (l, logs, ready) =
        logged-Ready (upper name) (name ∷ key ∷ value ∷ []) (simple (codes "OK"))
          (stored key value s') k' in
      let t : Server h = record (stored key value s') { log = l } in
      (
        t,
        executed name (key ∷ value ∷ []) cmd_set (simple (codes "OK")) s (stored key value s')
              (rw set refl) (rw set refl) k.0 (cmd_set-touched name key value s s' e)
            ∙ logs,
        executed name' (key ∷ []) cmd_get (bulk value) t t (rw get refl) (rw get refl) ready.0 (
              cmd_get-stored name' key value t (find-untrack key s'.expiry c') (
                find-put key key (Db.str value) s'.db
                ∙ ap (λ b. if b then some (Db.str value) else find key s'.db) same))
            ∙ logged_nothing (upper name') (name' ∷ key ∷ []) (bulk value) t (rw get refl) ready,
        expiry_at-untrack key s'.expiry c' key
            ∙ ap (λ b. if b then none else expiry_at key s'.expiry) same,
        untrack-IsConsistent key s'.expiry c',
        ready,
      )

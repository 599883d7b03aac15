-- ===== src/Process/Shards/Refines.antt =====
-- The steps of the threads against their calls one after another: src/core/shard.cpp.
use hermitdb.Prelude.{
  ℕ, zero, suc, ◌≡◌, ◌⊎◌, inl, inr, refl, ap, sym, ◌∙◌, List, [], ◌∷◌, Option, none, some, Bytes,
  Bool, map, get_elem?, Option-cases, if◌then◌else◌,
}
use mathlib.Core.Path.{subst}
use hermitdb.Prelude.Mapped.{map-set, get_elem?-map, map-set-same}
use hermitdb.Core.Fault.{Result, ret, fault}
use hermitdb.Core.Server.{Host, Server}
use hermitdb.Process.Shards.{
  Call, Phase, outside, entered, loaded, stored, Worker, Shards, stop_all, body, over, and_then,
  written, step_in, step_of, step, run_steps, idle, started,
}
use hermitdb.Process.Shards.Serial.{
  done, serve_of, serve, serve_all, settle, settled, settled_result,
}
use hermitdb.Process.Shards.Exclusion.{Fine, Exclusive, free-Fine, held-Fine, standing-Exclusive}

module _ {h : Host} where
  -- What a step does, as it is seen without the calls that are under way: nothing, or the thread's
  -- call as a whole.
  abbrev pub Simulates : ℕ → Shards h → Result (Shards h) → Type 0
  Simulates i sh (ret sh') =
      Exclusive sh' × ((settled sh' ≡ settled sh) ⊎ (serve i (settled sh) ≡ ret (settled sh')))
  Simulates i sh (fault f) = serve i (settled sh) ≡ fault f

  -- the thread's call as a whole, where the thread is known
  served :
      (i : ℕ) (sh : Shards h) (w : Worker h)
      → get_elem? sh.workers i ≡ some w
      → serve i (settled sh) ≡ serve_of i (settled sh) (some (settle w))
  unfolding serve
  served i sh w there = ap (serve_of i (settled sh)) (get_elem?-map settle sh.workers i there)

  module _ (i : ℕ) (sh : Shards h) (fine : Exclusive sh) (c : Call) (calls : List Call)
      (replies : List Bytes) where
    abbrev at : Phase h → Worker h
    at p = record { calls = c ∷ calls; phase = p; replies = replies }

    -- before the lock
    outside-Simulates :
        (lock : Option ℕ)
        → sh.lock ≡ lock
        → get_elem? sh.workers i ≡ some (at outside)
        → Simulates i sh (step_in i (at outside) sh (c ∷ calls) outside lock)
    outside-Simulates none free there = (
      standing-Exclusive sh i (at outside) (at entered) (some i) sh.server sh.stops there refl
          (λ j v other f. free-Fine (some i) sh.server sh.server j v.phase (rw free at f)) fine,
      inl (
          ap (λ ws. record (settled sh) { workers = ws })
            (map-set-same settle sh.workers i (at entered) there refl)),
    )
    outside-Simulates (some j) held there = (fine, inl refl)

    -- behind the lock
    entered-Simulates :
        get_elem? sh.workers i ≡ some (at entered)
        → Simulates i sh (step_in i (at entered) sh (c ∷ calls) entered sh.lock)
    entered-Simulates there = (
      standing-Exclusive sh i (at entered) (at (loaded sh.server)) sh.lock sh.server sh.stops there
          (fine i (at entered) there, refl) (λ j v other f. f) fine,
      inl (
          ap (λ ws. record (settled sh) { workers = ws })
            (map-set-same settle sh.workers i (at (loaded sh.server)) there refl)),
    )

    -- behind the write
    stored-Simulates :
        (reply : List Bytes)
        → get_elem? sh.workers i ≡ some (at (stored reply))
        → Simulates i sh (step_in i (at (stored reply)) sh (c ∷ calls) (stored reply) sh.lock)
    stored-Simulates reply there = (
      standing-Exclusive sh i (at (stored reply)) (over (at outside) calls reply) none sh.server
          sh.stops there tt
          (λ j v other f.
            held-Fine none sh.server sh.server i j v.phase other
              (subst (λ l. Fine l sh.server j v.phase) (fine i (at (stored reply)) there) f))
          fine,
      inl (
          ap (λ ws. record (settled sh) { workers = ws })
            (map-set-same settle sh.workers i (over (at outside) calls reply) there
              (settle-over calls))),
    )
      where
        settle-over :
            (l : List Call) → settle (over (at outside) l reply) ≡ over (at outside) l reply
        settle-over [] = refl
        settle-over (d ∷ l) = refl

    -- the write
    written-Simulates :
        (r : Result ((List Bytes × Bool) × Server h))
        → get_elem? sh.workers i ≡ some (at (loaded sh.server))
        → body c sh.server ≡ r
        → Simulates i sh (written i (at (loaded sh.server)) sh r)
    written-Simulates (fault f) there e =
        served i sh (at (loaded sh.server)) there ∙ ap (done i (at outside) (settled sh) calls) e
    written-Simulates (ret ((reply, stop), s)) there e =
        let has : sh.lock ≡ some i = (fine i (at (loaded sh.server)) there).0 in
        (
          standing-Exclusive sh i (at (loaded sh.server)) (at (stored reply)) sh.lock s
              (if stop then stop_all sh.stops else sh.stops) there has
              (λ j v other f.
                held-Fine sh.lock sh.server s i j v.phase other
                  (subst (λ l. Fine l sh.server j v.phase) has f))
              fine,
          inr (
              served i sh (at (loaded sh.server)) there
              ∙ ap (done i (at outside) (settled sh) calls) e
              ∙ ap
                  (λ ws. ret (record (settled sh) {
                    server = s;
                    stops = if stop then stop_all sh.stops else sh.stops;
                    workers = ws;
                  }))
                  (sym (map-set settle sh.workers i (at (stored reply))))),
        )

    inside-Simulates :
        (p : Phase h)
        → get_elem? sh.workers i ≡ some (at p)
        → Simulates i sh (step_in i (at p) sh (c ∷ calls) p sh.lock)
    inside-Simulates outside there = outside-Simulates sh.lock refl there
    inside-Simulates entered there = entered-Simulates there
    inside-Simulates (stored reply) there = stored-Simulates reply there
    inside-Simulates (loaded s) there =
        subst
          (λ t.
            get_elem? sh.workers i ≡ some (at (loaded t))
            → Simulates i sh (written i (at (loaded t)) sh (body c t)))
          (sym (fine i (at (loaded s)) there).1)
          (λ seen. written-Simulates (body c sh.server) seen refl) there

  pub step-Simulates : (i : ℕ) (sh : Shards h) → Exclusive sh → Simulates i sh (step i sh)
  unfolding step
  step-Simulates i sh fine = elim (Option-cases (get_elem? sh.workers i)) [
    | inl e ↦ subst (λ o. Simulates i sh (step_of i sh o)) (sym e) (fine, inl refl)
    | inr (w, e) ↦
        subst (λ o. Simulates i sh (step_of i sh o)) (sym e) (of_worker w.calls w.phase w.replies e)
  ]
    where
      of_worker :
          (calls : List Call) (p : Phase h) (replies : List Bytes)
          → get_elem? sh.workers i ≡ some (record { calls = calls; phase = p; replies = replies })
          → Simulates i sh (
              step_in i (record { calls = calls; phase = p; replies = replies }) sh calls p sh.lock)
      of_worker [] p replies there = (fine, inl refl)
      of_worker (c ∷ calls) p replies there = inside-Simulates i sh fine c calls replies p there

  -- the steps, from a state in which the threads inside a call have the lock
  run_steps-serves :
      (schedule : List ℕ) (sh : Shards h)
      → Exclusive sh
      → (order : List ℕ) × (serve_all order (settled sh) ≡ settled_result (run_steps schedule sh))
  unfolding run_steps serve_all
  run_steps-serves [] sh fine = ([], refl)
  run_steps-serves (i ∷ schedule) sh fine =
      go (step i sh) (step-Simulates i sh fine) (λ sh' f. run_steps-serves schedule sh' f)
    where
      go :
          (r : Result (Shards h))
          → Simulates i sh r
          → ((sh' : Shards h)
              → Exclusive sh'
              → (order : List ℕ) × (serve_all order (settled sh')
                  ≡ settled_result (run_steps schedule sh')))
          → (order : List ℕ) × (serve_all order (settled sh)
              ≡ settled_result (and_then r (run_steps schedule)))
      go (fault f) e more = (i ∷ [], ap (λ r. and_then r (serve_all [])) e)
      go (ret sh') (f, inl same) more =
          let (order, e) = more sh' f in (order, ap (serve_all order) (sym same) ∙ e)
      go (ret sh') (f, inr serves) more =
          let (order, e) = more sh' f in
          (i ∷ order, ap (λ r. and_then r (serve_all order)) serves ∙ e)

  settled-idle :
      (programs : List (List Call)) → map settle (map (idle {h = h}) programs) ≡ map idle programs
  settled-idle [] = refl
  settled-idle ([] ∷ programs) = ap (λ ws. idle [] ∷ ws) (settled-idle programs)
  settled-idle ((c ∷ calls) ∷ programs) = ap (λ ws. idle (c ∷ calls) ∷ ws) (settled-idle programs)

  pub idle-outside :
      (programs : List (List Call)) (lock : Option ℕ) (s : Server h) (j k : ℕ) (w : Worker h)
      → get_elem? (map idle programs) j ≡ some w
      → Fine lock s k w.phase
  idle-outside [] lock s j k w e = cc
  idle-outside (calls ∷ programs) lock s zero k w e =
      subst (λ o. elim o [ none ↦ Unit | some v ↦ Fine lock s k v.phase ]) e tt
  idle-outside (calls ∷ programs) lock s (suc j) k w e = idle-outside programs lock s j k w e

  -- Whatever the order in which the threads' steps are scheduled, and wherever the schedule ends, the
  -- shared state, the stop flags, and each thread's replies and remaining calls, without the call that
  -- is under way, are what whole calls make, one after another in some order, each by the thread's
  -- program; and if a call faults, then the calls in that order end in the same fault.
  pub run_steps_lem :
      (schedule : List ℕ) (s : Server h) (programs : List (List Call))
      → (order : List ℕ) × (serve_all order (started s programs)
          ≡ settled_result (run_steps schedule (started s programs)))
  run_steps_lem schedule s programs =
      let (order, e) =
        run_steps-serves schedule (started s programs)
          (λ j w there. idle-outside programs none s j j w there) in
      (
        order,
        ap (λ ws. serve_all order (record (started s programs) { workers = ws }))
              (sym (settled-idle programs))
            ∙ e,
      )

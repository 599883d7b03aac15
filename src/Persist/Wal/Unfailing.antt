-- ===== src/Persist/Wal/Unfailing.antt =====
-- Wal::append of src/persist/wal.cpp over system calls that do not fail.
use hermitdb.Prelude.{
  ℕ, zero, suc, ◌≡◌, ◌≢◌, refl, sym, ◌∙◌, ap, [], ◌∷◌, ◌++◌, Option, none, some, Bytes, length,
  take, drop, Bool, true, false, Bool-cases, inl, inr, arith, not, if◌then◌else◌,
}
use mathlib.Core.Path.{subst}
use hermitdb.Protocol.Parser.{Command}
use hermitdb.Persist.Encoding.{encode}
use hermitdb.Persist.Wal.{
  Wal, Kernel, WriteReturn, interrupted, failed, wrote, write_all, write_fuel, append, fsync_now,
  WalStatus, ok, io_error, always, after_write, called,
}
use hermitdb.Persist.Wal.Append.{append_lem, Appended}

-- No write and no fsync fails.
pub record Unfailing (k : Kernel) : Type 0 where
  pub writes : (i len : ℕ) → k.write i len ≢ failed
  pub syncs : (i : ℕ) → k.fsync i ≡ true

module _ (k : Kernel) where
  -- a write that returns has not failed, and the file is open if it was, under the same policy
  abbrev Finished : Wal → Option (Bool × Wal) → Type 0
  Finished w none = Unit
  Finished w (some (done, v)) = (done ≡ true) × (v.is_open ≡ w.is_open) × (v.policy ≡ w.policy)

  write_all-Finished :
      Unfailing k → (fuel : ℕ) (w : Wal) (s : Bytes) → Finished w (write_all k fuel w s)
  unfolding write_all
  write_all-Finished fine zero w s = tt
  write_all-Finished fine (suc fuel) w [] = (refl, refl, refl)
  write_all-Finished fine (suc fuel) w (c ∷ rest) =
      go (k.write w.calls (length (c ∷ rest))) (fine.writes w.calls (length (c ∷ rest)))
        (write_all-Finished fine fuel (called w) (c ∷ rest))
        (λ n.
          write_all-Finished fine fuel (record (called w) { file = w.file ++ take n (c ∷ rest) })
            (drop n (c ∷ rest)))
    where
      go :
          (r : WriteReturn)
          → r ≢ failed
          → Finished w (write_all k fuel (called w) (c ∷ rest))
          → ((n : ℕ)
              → Finished w (
                  write_all k fuel
                    (record (called w) { file = w.file ++ take n (c ∷ rest) })
                    (drop n (c ∷ rest))))
          → Finished w (elim r [
            | interrupted ↦ write_all k fuel (called w) (c ∷ rest)
            | failed ↦ some (false, called w)
            | wrote n ↦
                write_all k fuel
                  (record (called w) { file = w.file ++ take n (c ∷ rest) })
                  (drop n (c ∷ rest))
          ])
      go interrupted calm again more = again
      go failed calm again more = absurd (calm refl)
      go (wrote n) calm again more = more n

  -- the append has put the record into the open file
  abbrev Added : Wal → Option (WalStatus × Wal) → Type 0
  Added w none = Unit
  Added w (some (st, v)) = (st ≡ ok) × (v.is_open ≡ true) × (v.policy ≡ w.policy)

  append-Added :
      Unfailing k → (cmd : Command) (w : Wal) → w.is_open ≡ true → Added w (append k cmd w)
  unfolding append fsync_now
  append-Added fine cmd w opened =
      let written : Option (Bool × Wal) = write_all k (write_fuel k (encode cmd)) w (encode cmd) in
      subst (λ b. Added w (if not b then some (io_error, w) else after_write k written))
        (sym opened)
        (go written (write_all-Finished fine (write_fuel k (encode cmd)) w (encode cmd)))
    where
      go : (o : Option (Bool × Wal)) → Finished w o → Added w (after_write k o)
      go none fin = tt
      go (some (false, v)) fin = cc
      go (some (true, v)) fin = ground (arith, fin.1, fin.2, opened, fine.syncs v.calls)

  -- Over system calls that do not fail, an append to an open log succeeds: the record stands behind
  -- the old contents, and the log is open under the same policy; under `always` the file is durable.
  pub append-ok :
      Unfailing k
      → (cmd : Command) (w : Wal) → w.is_open ≡ true
      → (v : Wal) × (append k cmd w ≡ some (ok, v))
        × (v.file ≡ w.file ++ encode cmd)
        × (v.is_open ≡ true)
        × (v.policy ≡ w.policy)
        × (w.policy ≡ always → v.durable ≡ v.file)
  append-ok fine cmd w opened =
      let (st, v, e, rest) = append_lem k cmd w opened in
      let added : Added w (some (st, v)) = subst (Added w) e (append-Added fine cmd w opened) in
      let whole : Appended w cmd ok v = subst (λ x. Appended w cmd x v) added.0 rest in
      (v, e ∙ ap (λ x. some (x, v)) added.0, whole.0, added.1, added.2, whole.1)

  -- an append returns, to a log that is not open too
  pub append-returns : (cmd : Command) (w : Wal) → append k cmd w ≢ none
  append-returns cmd w e = elim (Bool-cases w.is_open) [
    | inl opened ↦ let (st, v, same, _) = append_lem k cmd w opened in absurd_none (sym same ∙ e)
    | inr closed ↦ absurd_none (sym (refused closed) ∙ e)
  ]
    where
      absurd_none : {A : Type 0} {a : A} → some a ≡ none → ⊥
      absurd_none p = cc

      refused : w.is_open ≡ false → append k cmd w ≡ some (io_error, w)
      refused closed = unfold append in ground (arith, closed)

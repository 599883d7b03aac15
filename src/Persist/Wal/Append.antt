-- ===== src/Persist/Wal/Append.antt =====
-- Appending to the log: it returns, and what it leaves in the file.
use hermitdb.Prelude.{
  ℕ, zero, suc, ◌+◌, ◌*◌, ◌≤◌, ◌<◌, ◌≡◌, ◌≢◌, refl, sym, ◌∙◌, [], ◌∷◌, ◌++◌, Option, none, some,
  Bytes, length, take, drop, Bool, true, false, Bool-cases, ◌⊎◌, inl, inr, arith, length-drop,
  append_assoc, append-nil, ap, take-append-drop,
}
use native.Mathlib.Nat.{add-zero}
use hermitdb.Protocol.Parser.{Command}
use hermitdb.Persist.Encoding.{encode}
use hermitdb.Persist.Wal.{
  Wal, Kernel, WriteReturn, interrupted, failed, wrote, write_all, write_fuel, append, fsync_now,
  WalStatus, ok, io_error, always, is_always, called, after_write,
}

WriteReturn-cases : (r : WriteReturn) → (r ≡ interrupted) ⊎ (r ≡ failed) ⊎ ((n : ℕ) × (r ≡ wrote n))
WriteReturn-cases interrupted = inl refl
WriteReturn-cases failed = inr (inl refl)
WriteReturn-cases (wrote n) = inr (inr (n, refl))

-- the log file's state besides the file
abbrev pub SameSettings : Wal → Wal → Type 0
SameSettings v w =
    (v.policy ≡ w.policy)
    × (v.is_open ≡ w.is_open)
    × (v.durable ≡ w.durable)
    × (v.last_fsync_ms ≡ w.last_fsync_ms)

-- `v` is `w` after the bytes were written: all of them, or, on an error, some of the first.
abbrev pub Written : Wal → Bytes → Bool → Wal → Type 0
Written w bytes done v =
    SameSettings v w
    × (written : Bytes) × (rest : Bytes) × (bytes ≡ written ++ rest)
    × (v.file ≡ w.file ++ written)
    × (done ≡ true → rest ≡ [])

module _ (k : Kernel) (fuel : ℕ) (w : Wal) (c : ℕ) (rest : Bytes) where
  write_all-interrupted :
      k.write w.calls (length (c ∷ rest)) ≡ interrupted
      → write_all k (suc fuel) w (c ∷ rest) ≡ write_all k fuel (called w) (c ∷ rest)
  unfolding write_all
  write_all-interrupted e = rw (e, write_all)

  write_all-failed :
      k.write w.calls (length (c ∷ rest)) ≡ failed
      → write_all k (suc fuel) w (c ∷ rest) ≡ some (false, called w)
  unfolding write_all
  write_all-failed e = rw (e, write_all)

  write_all-wrote :
      (n : ℕ)
      → k.write w.calls (length (c ∷ rest)) ≡ wrote n
      → write_all k (suc fuel) w (c ∷ rest)
        ≡ write_all k fuel
            (record (called w) { file = w.file ++ take n (c ∷ rest) })
            (drop n (c ∷ rest))
  unfolding write_all
  write_all-wrote n e = rw (e, write_all)

some-pair-injective :
    {a b : Bool} {v w : Wal}
    → ◌≡◌ {A = Option (Bool × Wal)} (some (a, v)) (some (b, w))
    → (a ≡ b) × (v ≡ w)
some-pair-injective h = ground arith

write_all-nil : (k : Kernel) (fuel : ℕ) (w : Wal) → write_all k (suc fuel) w [] ≡ some (true, w)
unfolding write_all
write_all-nil k fuel w = refl

write_all-zero : (k : Kernel) (w : Wal) (s : Bytes) → write_all k 0 w s ≡ none
unfolding write_all
write_all-zero k w s = refl

mul-suc-le : (a b p : ℕ) → a < b → (a * suc p) + p + 1 ≤ b * suc p
mul-suc-le a b p h = grind arith

module _ (k : Kernel) where
  abbrev Returns : ℕ → Wal → Bytes → Type 0
  Returns fuel w s = (done : Bool) × (v : Wal) × (write_all k fuel w s ≡ some (done, v))

  Returns-wrote :
      (fuel n : ℕ) (w : Wal) (c : ℕ) (rest : Bytes)
      → k.write w.calls (length (c ∷ rest)) ≡ wrote n
      → suc (length rest) * suc k.patience < fuel
      → ((j : ℕ) (v : Wal) (s : Bytes)
          → k.write (v.calls + j) (length s) ≢ interrupted
          → j + length s * suc k.patience + 1 < fuel
          → Returns fuel v s)
      → Returns (suc fuel) w (c ∷ rest)
  Returns-wrote fuel n w c rest e room rec =
      let (most, enough) = k.progress w.calls (length rest) n e in
      let v = record (called w) { file = w.file ++ take n (c ∷ rest) } in
      let (j, few, calm) = k.settles v.calls (length (drop n (c ∷ rest))) in
      let shorter : length (drop n (c ∷ rest)) < suc (length rest) =
        omega (arith, length-drop n (c ∷ rest)) in
      let fits = mul-suc-le (length (drop n (c ∷ rest))) (suc (length rest)) k.patience shorter in
      rw (write_all-wrote k fuel w c rest n e) (rec j v (drop n (c ∷ rest)) calm (omega arith))

  -- `write_all` returns when its fuel covers the interruptions of every byte.
  Returns-within :
      (fuel j : ℕ) (w : Wal) (s : Bytes)
      → k.write (w.calls + j) (length s) ≢ interrupted
      → j + length s * suc k.patience + 1 < fuel
      → Returns fuel w s
  Returns-within zero j w s h lt = absurd (omega arith)
  Returns-within (suc fuel) j w [] h lt = (true, w, write_all-nil k fuel w)
  Returns-within (suc fuel) zero w (c ∷ rest) h lt =
      elim (WriteReturn-cases (k.write w.calls (length (c ∷ rest)))) [
        | inl e ↦ absurd (h (rw add-zero e))
        | inr (inl e) ↦ (false, called w, write_all-failed k fuel w c rest e)
        | inr (inr (n, e)) ↦ Returns-wrote fuel n w c rest e (omega arith) (Returns-within fuel)
      ]
  Returns-within (suc fuel) (suc j) w (c ∷ rest) h lt =
      elim (WriteReturn-cases (k.write w.calls (length (c ∷ rest)))) [
        | inl e ↦
            let next : w.calls + suc j ≡ suc w.calls + j = omega arith in
            rw (write_all-interrupted k fuel w c rest e)
              (Returns-within fuel j (called w) (c ∷ rest) (rw (← next) h) (omega arith))
        | inr (inl e) ↦ (false, called w, write_all-failed k fuel w c rest e)
        | inr (inr (n, e)) ↦ Returns-wrote fuel n w c rest e (omega arith) (Returns-within fuel)
      ]

  write_all-Returns : (w : Wal) (s : Bytes) → Returns (write_fuel k s) w s
  write_all-Returns w s =
      let (j, few, calm) = k.settles w.calls (length s) in
      let fits = mul-suc-le (length s) (suc (length s)) k.patience (omega arith) in
      Returns-within (write_fuel k s) j w s calm (omega arith)

  write_all-Written :
      (fuel : ℕ) (w : Wal) (s : Bytes) (done : Bool) (v : Wal)
      → write_all k fuel w s ≡ some (done, v)
      → Written w s done v
  write_all-Written zero w s done v h = cc (write_all-zero k w s)
  write_all-Written (suc fuel) w [] done v h =
      let e : some (true, w) ≡ some (done, v) = sym (write_all-nil k fuel w) ∙ h in
      let (_, same) = some-pair-injective e in
      rw (← same) ((refl, refl, refl, refl), [], [], refl, sym (append-nil w.file), λ _. refl)
  write_all-Written (suc fuel) w (c ∷ rest) done v h =
      elim (WriteReturn-cases (k.write w.calls (length (c ∷ rest)))) [
        | inl e ↦
            write_all-Written fuel (called w) (c ∷ rest) done v
              (sym (write_all-interrupted k fuel w c rest e) ∙ h)
        | inr (inl e) ↦
            let (stopped, same) =
              some-pair-injective (sym (write_all-failed k fuel w c rest e) ∙ h) in
            rw (← same)
              ((refl, refl, refl, refl), [], c ∷ rest, refl, sym (append-nil w.file), λ t. cc)
        | inr (inr (n, e)) ↦
            let w' = record (called w) { file = w.file ++ take n (c ∷ rest) } in
            let (same, written, left, cut, file, all) =
              write_all-Written fuel w' (drop n (c ∷ rest)) done v
                (sym (write_all-wrote k fuel w c rest n e) ∙ h) in
            (
              same,
              take n (c ∷ rest) ++ written,
              left,
              sym (take-append-drop n (c ∷ rest))
                  ∙ ap (λ r. take n (c ∷ rest) ++ r) cut
                  ∙ sym (append_assoc (take n (c ∷ rest)) written left),
              file ∙ append_assoc w.file (take n (c ∷ rest)) written,
              all,
            )
      ]

-- What an append leaves, by its status: with `ok` the whole record stands in the file, and under the
-- policy `always` the file is durable; with `io_error` a part of the record may stand there.
abbrev pub Appended : Wal → Command → WalStatus → Wal → Type 0
Appended w cmd ok v = (v.file ≡ w.file ++ encode cmd) × (w.policy ≡ always → v.durable ≡ v.file)
Appended w cmd io_error v =
    (written : Bytes) × (rest : Bytes) × (encode cmd ≡ written ++ rest)
    × (v.file ≡ w.file ++ written)
Appended w cmd _ v = ⊥

module _ (k : Kernel) where
  append-write_all :
      (cmd : Command) (w : Wal) (done : Bool) (v : Wal)
      → w.is_open ≡ true
      → write_all k (write_fuel k (encode cmd)) w (encode cmd) ≡ some (done, v)
      → append k cmd w ≡ after_write k (some (done, v))
  unfolding append
  append-write_all cmd w done v opened e = simp (opened, e)

  fsync-Appended :
      (cmd : Command) (w v : Wal)
      → w.is_open ≡ true
      → Written w (encode cmd) true v
      → (st : WalStatus) × (v' : Wal) × (after_write k (some (true, v)) ≡ some (st, v'))
        × Appended w cmd st v'
  unfolding fsync_now
  fsync-Appended cmd w v opened (same, written, rest, cut, file, all) =
      let whole : v.file ≡ w.file ++ encode cmd = rw (cut, all refl, append-nil written) file in
      let dirtied = record v { dirty = true } in
      elim (Bool-cases (is_always v.policy)) [
        | inl a ↦ elim (Bool-cases (k.fsync v.calls)) [
          | inl f ↦ (
            ok,
            record (called dirtied) { dirty = false; durable = v.file },
            ground (arith, same.1),
            (whole, λ _. refl),
          )
          | inr f ↦ (io_error, called dirtied, ground (arith, same.1), (written, rest, cut, file))
        ]
        | inr a ↦ (ok, dirtied, ground arith, (whole, λ p. cc (ap is_always (same.0 ∙ p))))
      ]

  -- An append to an open log returns. With `ok` the whole record stands behind the old contents, and
  -- under the policy `always` it is durable; the only other status is `io_error`, and then the old
  -- contents stand unchanged before a part of the record.
  pub append_lem :
      (cmd : Command) (w : Wal)
      → w.is_open ≡ true
      → (st : WalStatus) × (v : Wal) × (append k cmd w ≡ some (st, v)) × Appended w cmd st v
  append_lem cmd w opened =
      let (done, v, e) = write_all-Returns k w (encode cmd) in
      rw (append-write_all cmd w done v opened e)
        (after done v (write_all-Written k _ w (encode cmd) done v e))
    where
      after :
          (done : Bool) (v : Wal)
          → Written w (encode cmd) done v
          → (st : WalStatus) × (v' : Wal) × (after_write k (some (done, v)) ≡ some (st, v'))
            × Appended w cmd st v'
      after true v written = fsync-Appended cmd w v opened written
      after false v (same, written, rest, cut, file, all) =
          (io_error, v, refl, (written, rest, cut, file))

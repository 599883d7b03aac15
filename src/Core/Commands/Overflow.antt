-- ===== src/Core/Commands/Overflow.antt =====
-- SET with the option EX: cmd_set of src/core/commands.cpp.
use hermitdb.Prelude.{
  bytes_eq, bytes_eq_iff, Bool, refl, ℕ, suc, ◌*◌, ◌^◌, ◌<◌, ◌≤◌, ◌≡◌, ◌⊎◌, inl, inr, ◌∙◌, ap, [],
  ◌∷◌, Option, none, some, Bytes, codes, true, false, leb, if◌then◌else◌, arith, Bool-cases,
}
use hermitdb.Prelude.Int.{ℤ, pos, negsuc, ◌*ℤ◌, ◌+ℤ◌, checked, in_range, pos_part, neg_part}
use hermitdb.Prelude.Map.{find, find-put}
use hermitdb.Protocol.Writer.{simple}
use hermitdb.Core.Db
use hermitdb.Core.Expiry
use hermitdb.Core.Expiry.{expiry_at}
use hermitdb.Core.Expiry.Consistent.{IsConsistent}
use hermitdb.Core.Expiry.Arming.{expiry_at-set_expiry}
use hermitdb.Core.Server.Touch.{Answers}
use hermitdb.Core.Commands.Readback.{touch-IsConsistent}
use hermitdb.Protocol.Decimal.{parse_i64}
use hermitdb.Core.Fault.{Result, ret, fault, signed_overflow}
use hermitdb.Core.Server.{Host, Server, M, ◌>>=◌, pure, demand, get_expiry, put_expiry}
use hermitdb.Core.Commands.Strings.{
  Options, accepted, SetOptions, no_options, timed, expire_time, set_options, set_parsed, set_value,
  cmd_set, arm_in,
}

-- the options of a SET with EX
abbrev pub seconds_from_now : ℕ → SetOptions
seconds_from_now n = record no_options { have_expire = true; expire_ms = pos (n * 1000) }

apply_if {ℓ κ} :
    {A : Type ℓ} {B : Type κ} (f : A → B) (c : Bool) (x y : A)
    → f (if c then x else y) ≡ (if c then f x else f y)
apply_if f true x y = refl
apply_if f false x y = refl

expire_time-pos :
    (n : ℕ)
    → expire_time true (pos n) ≡ (if leb n 9223372036854775 then some (pos (n * 1000)) else none)
unfolding ◌*ℤ◌
expire_time-pos n = ground arith

timed-pos :
    (n : ℕ)
    → 0 < n
    → timed true no_options (some (pos n)) (λ o. set_options [] o) ≡ (
        if leb n 9223372036854775
        then ret (accepted (seconds_from_now n))
        else fault signed_overflow)
unfolding set_options
timed-pos n h = ground (arith, expire_time-pos n)

set_parsed-timed :
    {h : Host} (name key value v : Bytes) (n : ℕ) (s : Server h)
    → parse_i64 v ≡ some (pos n)
    → 0 < n
    → cmd_set (name ∷ key ∷ value ∷ codes "EX" ∷ v ∷ []) s ≡ (
        if leb n 9223372036854775
        then set_value key value (seconds_from_now n) s
        else fault signed_overflow)
unfolding cmd_set bytes_eq
set_parsed-timed {h} name key value v n s parsed positive =
    let after : Result Options → Result (Bytes × Server h) =
      λ r. set_parsed {h = h} key value r s in
    ap (λ p. after (timed true no_options p (λ o. set_options [] o))) parsed
    ∙ ap after (timed-pos n positive)
    ∙ apply_if after (leb n 9223372036854775) (ret (accepted (seconds_from_now n)))
        (fault signed_overflow)

-- not a value of `int64_t`
abbrev pub OutOfRange : ℤ → Type 0
OutOfRange a = (2 ^ 63 ≤ pos_part a) ⊎ (2 ^ 63 < neg_part a)

checked-cases : (a : ℤ) → (checked a ≡ some a) ⊎ ((checked a ≡ none) × OutOfRange a)
checked-cases a = elim (Bool-cases (in_range a)) [
  | inl e ↦ inl (ground (arith, e))
  | inr e ↦ inr (ground (arith, e), outside a e)
]
  where
    outside : (a : ℤ) → in_range a ≡ false → OutOfRange a
    outside (pos n) e = inl (ground (arith, e))
    outside (negsuc n) e = inr (ground (arith, e))

module _ {h : Host} where
  -- how a SET with a deadline `ms` after the last reading of the clock ends
  abbrev pub Stored : Bytes → Bytes → ℤ → Result (Bytes × Server h) → Type 0
  Stored key value ms r =
      (t : Server h) × (i : ℕ) × (r ≡ ret (simple (codes "OK"), t))
      × (t.readings ≡ suc i)
      × (find key t.db ≡ some (Db.str value))
      × (expiry_at key t.expiry ≡ some (h.wall_ms i +ℤ ms))

  -- the deadline is set, or the sum with the reading overflows
  set_value-Stored :
      Answers h
      → (key value : Bytes) (n : ℕ) (s : Server h) → IsConsistent s.expiry
      → Stored key value (pos (n * 1000)) (set_value key value (seconds_from_now n) s)
        ⊎ ((set_value key value (seconds_from_now n) s ≡ fault signed_overflow)
            × (i : ℕ) × OutOfRange (h.wall_ms i +ℤ pos (n * 1000)))
  unfolding set_value arm_in Db.set
  set_value-Stored answers key value n s c =
      let (s', e, c') = touch-IsConsistent answers key s c in
      let rest : M h Bytes = λ t.
        (arm_in key (pos (n * 1000)) >>= λ _. pure (simple (codes "OK")))
          (record t { db = Db.set key value t.db }) in
      let touched : set_value key value (seconds_from_now n) s ≡ rest s' =
        ap (λ r. ((λ _. r) >>= λ _. rest) s) e in
      let i : ℕ = s'.readings in
      let at : ℤ = h.wall_ms i +ℤ pos (n * 1000) in
      let read : Server h = record s' { db = Db.set key value s'.db; readings = suc i } in
      let finish : Option ℤ → Result (Bytes × Server h) = λ o.
        ((demand signed_overflow o >>= λ at.
        get_expiry >>= λ e. put_expiry (Expiry.set_expiry key at e))
            >>= λ _. pure (simple (codes "OK")))
          read in
      let same : bytes_eq key key ≡ true = ground (arith, bytes_eq_iff key key) in
      elim (checked-cases at) [
        | inl fits ↦ inl (
          record read { expiry = Expiry.set_expiry key at s'.expiry },
          i,
          touched ∙ ap finish fits,
          refl,
          find-put key key (Db.str value) s'.db
              ∙ ap (λ b. if b then some (Db.str value) else find key s'.db) same,
          expiry_at-set_expiry s'.expiry c' key at key
              ∙ ap (λ b. if b then some at else expiry_at key s'.expiry) same,
        )
        | inr (over, out) ↦ inr (touched ∙ ap finish over, i, out)
      ]

  -- On a consistent table of deadlines and a log whose appends return, the handler of SET with EX and a
  -- positive number of seconds replies OK, and then the key holds the value, and its deadline is the
  -- last reading of the clock and that many seconds, and the number is at most 9223372036854775.
  -- Otherwise the command overflows an `int64_t`, and then the number is larger, or the sum with a
  -- reading of the clock is out of range.
  pub cmd_set_lem :
      Answers h
      → (name key value v : Bytes) (n : ℕ) (s : Server h) → IsConsistent s.expiry
      → parse_i64 v ≡ some (pos n)
      → 0 < n
      → (Stored key value (pos (n * 1000)) (cmd_set (name ∷ key ∷ value ∷ codes "EX" ∷ v ∷ []) s)
          × (n ≤ 9223372036854775))
        ⊎ ((cmd_set (name ∷ key ∷ value ∷ codes "EX" ∷ v ∷ []) s ≡ fault signed_overflow)
            × ((9223372036854775 < n) ⊎ ((i : ℕ) × OutOfRange (h.wall_ms i +ℤ pos (n * 1000)))))
  cmd_set_lem answers name key value v n s c parsed positive =
      let run = set_parsed-timed name key value v n s parsed positive in
      elim (Bool-cases (leb n 9223372036854775)) [
        | inl small ↦
            let e =
              run
              ∙ ap
                  (λ b.
                    if b then set_value key value (seconds_from_now n) s else fault signed_overflow)
                  small in
            elim (set_value-Stored answers key value n s c) [
              | inl (t, i, done, reading, held, deadline) ↦
                  inl ((t, i, e ∙ done, reading, held, deadline), ground (arith, small))
              | inr (bad, i, out) ↦ inr (e ∙ bad, inr (i, out))
            ]
        | inr large ↦ inr (
          run
              ∙ ap
                  (λ b.
                    if b then set_value key value (seconds_from_now n) s else fault signed_overflow)
                  large,
          inl (ground (arith, large)),
        )
      ]

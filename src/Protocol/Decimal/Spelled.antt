-- ===== src/Protocol/Decimal/Spelled.antt =====
-- What `parse_i64` accepts, against the positional value of the digits: src/protocol/resp_parser.cpp.
use hermitdb.Prelude.{
  ℕ, suc, zero, ◌+◌, ◌-◌, ◌*◌, ◌^◌, ◌≡◌, ◌≢◌, ◌⊎◌, ◌↔◌, inl, inr, ◌∷◌, [], Option, none, some,
  arith, Bytes, length, refl, ◌==◌, Bool-cases, false, ap, ◌∙◌,
}
use native.Mathlib.Nat.{add-mul, mul_assoc, mul_comm, pow-suc}
use hermitdb.Prelude.Int.{ℤ, pos, negsuc, InRange}
use hermitdb.Protocol.Decimal.{scan, scan_some, at_most_i64_max, negated, parse_i64, AllDigits}

-- the number that the digits denote by their places, the last one the place of the units
unfoldable pub value : Bytes → ℕ
value [] = 0
value (c ∷ s) = (c - b'0') * 10 ^ length s + value s

abbrev pub minus : ℕ → ℤ
minus zero = pos 0
minus (suc n) = negsuc n

-- A string of one or more digits, or of '-' and one or more digits, and the integer it stands for.
abbrev pub Spells : Bytes → ℤ → Type 0
Spells s n =
    ((s ≢ []) × AllDigits s × (n ≡ pos (value s)))
    ⊎ ((d : Bytes) × (s ≡ b'-' ∷ d) × (d ≢ []) × AllDigits d × (n ≡ minus (value d)))

place_by : (a d p v : ℕ) → (a * 10 + d) * p + v ≡ a * (p * 10) + (d * p + v)
place_by a d p v = rw (add-mul (a * 10) d p) (rw (mul_assoc a 10 p, mul_comm p 10) (omega arith))

place : (a d k v : ℕ) → (a * 10 + d) * 10 ^ k + v ≡ a * 10 ^ suc k + (d * 10 ^ k + v)
place a d k v = rw (pow-suc 10 k) (place_by a d (10 ^ k) v)

scan-value : (s : Bytes) (n : ℕ) → AllDigits s → scan s n ≡ some (n * 10 ^ length s + value s)
unfolding scan value
scan-value [] n h = ap some (omega arith)
scan-value (c ∷ s) n h =
    ground (arith, scan-value s (n * 10 + (c - b'0')), place n (c - b'0') (length s) (value s))

scan-AllDigits : (s : Bytes) (n m : ℕ) → scan s n ≡ some m → AllDigits s
unfolding scan
scan-AllDigits [] n m h = tt
scan-AllDigits (c ∷ s) n m h = ground (arith, scan-AllDigits s (n * 10 + (c - b'0')) m)

-- the digits of a string that is read, and its value
scan_some-value :
    (s : Bytes) (m : ℕ) → scan_some s ≡ some m → (s ≢ []) × AllDigits s × (m ≡ value s)
unfolding scan_some
scan_some-value [] m h = cc
scan_some-value (c ∷ s) m h =
    let digits = scan-AllDigits (c ∷ s) 0 m h in
    (cc, digits, grind (arith, scan-value (c ∷ s) 0 digits))

value-scan_some : (s : Bytes) → s ≢ [] → AllDigits s → scan_some s ≡ some (value s)
unfolding scan_some
value-scan_some [] h digits = absurd (h refl)
value-scan_some (c ∷ s) h digits = grind (arith, scan-value (c ∷ s) 0 digits)

at_most_i64_max-some :
    (o : Option ℕ) (n : ℤ)
    → at_most_i64_max o ≡ some n
    → (m : ℕ) × (o ≡ some m) × (n ≡ pos m) × InRange n
unfolding at_most_i64_max
at_most_i64_max-some none n h = cc
at_most_i64_max-some (some m) n h = (m, refl, ground arith, ground arith)

negated-some :
    (o : Option ℕ) (n : ℤ) → negated o ≡ some n → (m : ℕ) × (o ≡ some m) × (n ≡ minus m) × InRange n
unfolding negated
negated-some none n h = cc
negated-some (some zero) n h = (0, refl, ground arith, ground arith)
negated-some (some (suc m)) n h = (suc m, refl, ground arith, ground arith)

some-at_most_i64_max : (m : ℕ) → InRange (pos m) → at_most_i64_max (some m) ≡ some (pos m)
unfolding at_most_i64_max
some-at_most_i64_max m h = ground arith

some-negated : (m : ℕ) → InRange (minus m) → negated (some m) ≡ some (minus m)
unfolding negated
some-negated zero h = refl
some-negated (suc m) h = ground arith

spelled : (s : Bytes) (n : ℤ) → parse_i64 s ≡ some n → Spells s n × InRange n
unfolding parse_i64
spelled [] n h = cc
spelled (c ∷ s) n h = elim (Bool-cases (c == b'-')) [
  | inl e ↦
      let (m, found, same, fits) = negated-some (scan_some s) n (rw e at h) in
      let (filled, digits, worth) = scan_some-value s m found in
      (inr (s, ground arith, filled, digits, same ∙ ap minus worth), fits)
  | inr e ↦
      let (m, found, same, fits) = at_most_i64_max-some (scan_some (c ∷ s)) n (rw e at h) in
      let (filled, digits, worth) = scan_some-value (c ∷ s) m found in
      (inl (filled, digits, same ∙ ap pos worth), fits)
]

read : (s : Bytes) (n : ℤ) → Spells s n → InRange n → parse_i64 s ≡ some n
unfolding parse_i64
read [] n (inl (filled, _, _)) fits = absurd (filled refl)
read (c ∷ s) n (inl (filled, digits, same)) fits =
    let found = value-scan_some (c ∷ s) filled digits in
    let plain : (c == b'-') ≡ false = ground arith in
    rw (plain, found, same) (some-at_most_i64_max (value (c ∷ s)) (rw same at fits))
read s n (inr (d, shape, filled, digits, same)) fits =
    let found = value-scan_some d filled digits in
    rw (shape, found, same) (some-negated (value d) (rw same at fits))

-- A string is read as an integer exactly if it spells it, by one or more digits in their places or by
-- '-' in front of them, and the integer is in the range of `int64_t`.
pub parse_i64_lem : (s : Bytes) (n : ℤ) → (parse_i64 s ≡ some n) ↔ (Spells s n × InRange n)
parse_i64_lem s n = (spelled s n, λ h. read s n h.0 h.1)

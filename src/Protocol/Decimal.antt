-- ===== src/Protocol/Decimal.antt =====
-- Decimal numbers on the wire: `std::to_string`, and `parse_i64` over `std::from_chars`.
use hermitdb.Prelude.{
  ℕ, zero, suc, ◌+◌, ◌-◌, ◌*◌, ◌/◌, ◌%◌, ◌^◌, ◌≤◌, ◌<◌, ◌≡◌, ◌||◌, ◌∷◌, [], Option, none, some,
  arith, dec_lt, Bytes, length, ltb, ◌==◌, if◌then◌else◌,
}
use hermitdb.Prelude.Int.{ℤ, pos, negsuc, InRange}
pub mod Spelled

-- The digits of `n`, the last one first written, before `out`. `n < fuel` is enough fuel.
print_from : ℕ → ℕ → Bytes → Bytes
print_from zero n out = out
print_from (suc f) n out =
    let rest = print_from f (n / 10) ((b'0' + n % 10) ∷ out) in
    if ltb n 10 then (b'0' + n) ∷ out else rest

-- std::to_string of an unsigned number
unfoldable pub to_string : ℕ → Bytes
unfolding print_from
to_string n = print_from (suc n) n []

-- std::to_string of an `int64_t`
unfoldable pub to_string_i64 : ℤ → Bytes
unfolding to_string
to_string_i64 (pos n) = to_string n
to_string_i64 (negsuc n) = b'-' ∷ to_string (suc n)

-- The number that the digits spell behind `n`; `none` at a byte that is not a digit.
unfoldable pub scan : Bytes → ℕ → Option ℕ
scan [] n = some n
scan (c ∷ s) n =
    let rest = scan s (n * 10 + (c - b'0')) in if ltb c b'0' || ltb b'9' c then none else rest

unfoldable pub scan_some : Bytes → Option ℕ
unfolding scan
scan_some [] = none
scan_some (c ∷ s) = scan (c ∷ s) 0

at_most_i64_max : Option ℕ → Option ℤ
at_most_i64_max none = none
at_most_i64_max (some n) = if ltb n (2 ^ 63) then some (pos n) else none

negated : Option ℕ → Option ℤ
negated none = none
negated (some zero) = some (pos 0)
negated (some (suc n)) = if ltb n (2 ^ 63) then some (negsuc n) else none

-- The whole string is a base-10 `int64_t`: an optional '-' and one or more digits, in range.
unfoldable pub parse_i64 : Bytes → Option ℤ
unfolding scan scan_some at_most_i64_max negated
parse_i64 [] = none
parse_i64 (c ∷ s) = if c == b'-' then negated (scan_some s) else at_most_i64_max (scan_some (c ∷ s))

scan-print_from : (f n : ℕ) (out : Bytes) → n < f → scan (print_from f n out) 0 ≡ scan out n
unfolding scan print_from
scan-print_from zero n out h = absurd (omega arith)
scan-print_from (suc f) n out h = ground (arith, scan-print_from f (n / 10) ((b'0' + n % 10) ∷ out))

-- Every byte is a decimal digit.
abbrev pub AllDigits : Bytes → Type 0
AllDigits [] = Unit
AllDigits (c ∷ s) = ((b'0' ≤ c) × (c ≤ b'9')) × AllDigits s

print_from-AllDigits :
    (f n : ℕ) (out : Bytes) → n < f → AllDigits out → AllDigits (print_from f n out)
unfolding print_from
print_from-AllDigits zero n out h d = absurd (omega arith)
print_from-AllDigits (suc f) n out h d =
    ground (arith, print_from-AllDigits f (n / 10) ((b'0' + n % 10) ∷ out))

print_from-cons :
    (f n : ℕ) (out : Bytes) → n < f → (c : ℕ) × (s : Bytes) × (print_from f n out ≡ c ∷ s)
unfolding print_from
print_from-cons zero n out h = absurd (omega arith)
print_from-cons (suc f) n out h = elim (dec_lt n 10) [
  | yes p ↦ (b'0' + n, out, ground arith)
  | no p ↦
      let (c, s, e) = print_from-cons f (n / 10) ((b'0' + n % 10) ∷ out) (omega arith) in
      (c, s, ground arith)
]

length-print_from :
    (f n : ℕ) (out : Bytes) → n < f → length (print_from f n out) ≤ n / 10 + 1 + length out
unfolding print_from
length-print_from zero n out h = absurd (omega arith)
length-print_from (suc f) n out h =
    ground (arith, length-print_from f (n / 10) ((b'0' + n % 10) ∷ out))

pub length-to_string : (n : ℕ) → length (to_string n) ≤ n / 10 + 1
unfolding to_string
length-to_string n = omega (arith, length-print_from (suc n) n [])

-- A printed number is a digit and more digits, and the scanner reads it back.
pub to_string-cons :
    (n : ℕ)
    → (c : ℕ) × (s : Bytes) × (to_string n ≡ c ∷ s)
      × (scan_some (to_string n) ≡ some n)
      × AllDigits (to_string n)
unfolding to_string scan scan_some
to_string-cons n =
    let (c, s, e) = print_from-cons (suc n) n [] (omega arith) in
    let read = scan-print_from (suc n) n [] (omega arith) in
    let digits = print_from-AllDigits (suc n) n [] (omega arith) tt in
    (c, s, e, rw e (rw e at read), digits)

pub parse-to_string : (n : ℕ) → n < 2 ^ 63 → parse_i64 (to_string n) ≡ some (pos n)
unfolding at_most_i64_max
parse-to_string n h =
    let (c, s, e, read, digits) = to_string-cons n in
    let read' : scan_some (c ∷ s) ≡ some n = rw e at read in
    let digits' : AllDigits (c ∷ s) = rw e at digits in rw e (unfold parse_i64 in ground arith)

-- Every `int64_t` is read back from its decimal print.
pub parse_i64-to_string_i64 : (n : ℤ) → InRange n → parse_i64 (to_string_i64 n) ≡ some n
parse_i64-to_string_i64 (pos n) h = unfold to_string_i64 in parse-to_string n h.0
parse_i64-to_string_i64 (negsuc n) h =
    let (_, _, _, read, _) = to_string-cons (suc n) in
    unfold parse_i64 to_string_i64 in ground arith

-- ===== src/Config/Numbers.antt =====
-- `parse_u64` of src/util/config.cpp over strtoull, in base 10 and the C locale.
use hermitdb.Prelude.{
  ℕ, ◌+◌, ◌-◌, ◌*◌, ◌%◌, ◌^◌, ◌<◌, ◌≤◌, ◌≡◌, ap, ◌∙◌, [], ◌∷◌, Option, none, some, Bytes, Bool,
  true, false, ltb, leb, ◌==◌, ◌||◌, ◌&&◌, if◌then◌else◌, arith, Bool-cases, inl, inr,
}
use hermitdb.Protocol.Decimal.{to_string, scan, scan_some, to_string-cons, AllDigits}

abbrev is_digit : ℕ → Bool
is_digit c = leb b'0' c && leb c b'9'

-- std::isspace in the C locale
abbrev is_blank : ℕ → Bool
is_blank c = c == b' ' || leb 9 c && leb c 13

skip_blanks : Bytes → Bytes
skip_blanks [] = []
skip_blanks (c ∷ s) = let rest = skip_blanks s in if is_blank c then rest else c ∷ s

-- the number that the digits in front spell behind `n`, and what follows them
take_digits : Bytes → ℕ → ℕ × Bytes
take_digits [] n = (n, [])
take_digits (c ∷ s) n =
    let rest = take_digits s (n * 10 + (c - b'0')) in if is_digit c then rest else (n, c ∷ s)

-- out of the range of `unsigned long long`: ERANGE
abbrev in_u64 : ℕ × Bytes → Option (ℕ × Bytes)
in_u64 (n, rest) = if ltb n (2 ^ 64) then some (n, rest) else none

-- There is at least one digit.
unsigned_part : Bytes → Option (ℕ × Bytes)
unfolding take_digits
unsigned_part [] = none
unsigned_part (c ∷ s) = if is_digit c then in_u64 (take_digits (c ∷ s) 0) else none

-- a number behind a minus sign, in unsigned arithmetic
abbrev negated : Option (ℕ × Bytes) → Option (ℕ × Bytes)
negated none = none
negated (some (n, rest)) = some ((2 ^ 64 - n) % 2 ^ 64, rest)

signed_part : Bytes → Option (ℕ × Bytes)
unfolding unsigned_part
signed_part [] = none
signed_part (c ∷ s) =
    if c == b'-'
    then negated (unsigned_part s)
    else if c == b'+'
    then unsigned_part s
    else unsigned_part (c ∷ s)

-- The value and the bytes from `end` on; `none` where `errno` is set or there is no number.
unfoldable pub strtoull : Bytes → Option (ℕ × Bytes)
unfolding skip_blanks signed_part
strtoull s = signed_part (skip_blanks s)

-- `*end != '\0'`: the end of the string, or a zero byte in it.
abbrev ended : Option (ℕ × Bytes) → Option ℕ
ended none = none
ended (some (n, [])) = some n
ended (some (n, c ∷ rest)) = if c == 0 then some n else none

unfoldable pub parse_u64 : Bytes → Option ℕ
unfolding strtoull
parse_u64 [] = none
parse_u64 (c ∷ s) = ended (strtoull (c ∷ s))

take_digits-scan :
    (s : Bytes) (n m : ℕ) → AllDigits s → scan s n ≡ some m → take_digits s n ≡ (m, [])
unfolding take_digits scan
take_digits-scan [] n m d h = ground arith
take_digits-scan (c ∷ s) n m d h = ground (arith, take_digits-scan s (n * 10 + (c - b'0')) m d.1)

unsigned_part-to_string : (n : ℕ) → n < 2 ^ 64 → unsigned_part (to_string n) ≡ some (n, [])
unfolding unsigned_part scan_some
unsigned_part-to_string n h =
    let (c, s, e, read, digits) = to_string-cons n in
    let read' : scan (c ∷ s) 0 ≡ some n = rw e at read in
    let digits' : AllDigits (c ∷ s) = rw e at digits in
    rw e (ground (arith, take_digits-scan (c ∷ s) 0 n digits'))

-- Behind a digit there is neither a blank nor a sign.
start :
    (c : ℕ) (s : Bytes)
    → b'0' ≤ c
    → c ≤ b'9'
    → signed_part (skip_blanks (c ∷ s)) ≡ unsigned_part (c ∷ s)
unfolding signed_part skip_blanks
start c s lo hi =
    let blank : is_blank c ≡ false = ground arith in
    let minus : (c == b'-') ≡ false = ground arith in
    let plus : (c == b'+') ≡ false = ground arith in rw (blank, minus, plus)

-- A printed number is read back.
pub parse_u64-to_string : (n : ℕ) → n < 2 ^ 64 → parse_u64 (to_string n) ≡ some n
unfolding parse_u64 skip_blanks signed_part
parse_u64-to_string n h =
    let (c, s, e, read, digits) = to_string-cons n in
    let digits' : AllDigits (c ∷ s) = rw e at digits in
    let number : unsigned_part (c ∷ s) ≡ some (n, []) = rw e at (unsigned_part-to_string n h) in
    let first : signed_part (skip_blanks (c ∷ s)) ≡ some (n, []) =
      start c s digits'.0.0 digits'.0.1 ∙ number in
    rw e (ap ended first)

-- A minus sign in front is accepted, and the number is taken modulo 2 ^ 64.
pub parse_u64-minus :
    (n : ℕ) → n < 2 ^ 64 → parse_u64 (b'-' ∷ to_string n) ≡ some ((2 ^ 64 - n) % 2 ^ 64)
unfolding parse_u64 skip_blanks signed_part
parse_u64-minus n h = ap (λ o. ended (negated o)) (unsigned_part-to_string n h)

-- A value in the range of `unsigned long long`, if there is one.
abbrev Small : Option (ℕ × Bytes) → Type 0
Small none = Unit
Small (some (n, rest)) = n < 2 ^ 64

in_u64-Small : (p : ℕ × Bytes) → Small (in_u64 p)
in_u64-Small (n, rest) = elim (Bool-cases (ltb n (2 ^ 64))) [
  | inl e ↦ rw e (ground arith)
  | inr e ↦ rw e tt
]

unsigned_part-Small : (s : Bytes) → Small (unsigned_part s)
unfolding unsigned_part
unsigned_part-Small [] = tt
unsigned_part-Small (c ∷ s) =
    elim (is_digit c) as (λ b. Small (if b then in_u64 (take_digits (c ∷ s) 0) else none)) [
      | true ↦ in_u64-Small (take_digits (c ∷ s) 0)
      | false ↦ tt
    ]

negated-Small : (o : Option (ℕ × Bytes)) → Small (negated o)
negated-Small none = tt
negated-Small (some (n, rest)) = omega arith

signed_part-Small : (s : Bytes) → Small (signed_part s)
unfolding signed_part
signed_part-Small [] = tt
signed_part-Small (c ∷ s) = elim (Bool-cases (c == b'-')) [
  | inl e ↦ rw e (negated-Small (unsigned_part s))
  | inr e ↦ elim (Bool-cases (c == b'+')) [
    | inl e' ↦ rw (e, e') (unsigned_part-Small s)
    | inr e' ↦ rw (e, e') (unsigned_part-Small (c ∷ s))
  ]
]

ended-lt : (o : Option (ℕ × Bytes)) (n : ℕ) → Small o → ended o ≡ some n → n < 2 ^ 64
ended-lt none n small h = cc
ended-lt (some (m, [])) n small h = ground arith
ended-lt (some (m, c ∷ rest)) n small h = ground arith

pub parse_u64-lt : (s : Bytes) (n : ℕ) → parse_u64 s ≡ some n → n < 2 ^ 64
unfolding parse_u64
parse_u64-lt [] n h = cc
parse_u64-lt (c ∷ s) n h = ended-lt (strtoull (c ∷ s)) n (signed_part-Small (skip_blanks (c ∷ s))) h

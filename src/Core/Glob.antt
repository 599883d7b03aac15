-- ===== src/Core/Glob.antt =====
-- Glob patterns: `match_unit` and `glob_match` of src/core/db.cpp. A position in the pattern or in
-- the string is the list of bytes from there on; `npos` is `none`.
use hermitdb.Prelude.{
  ℕ, zero, suc, ◌+◌, ◌*◌, ◌%◌, [], ◌∷◌, Option, none, some, Bytes, length, Bool, true, false, not,
  ◌&&◌, ◌||◌, leb, ◌==◌, if◌then◌else◌, ◌≡◌, refl, ap, ◌<◌, arith, codes,
}

-- `a <= b` on `char`, which is signed: bytes from 128 on are negative.
abbrev pub char_leb : ℕ → ℕ → Bool
char_leb a b = leb ((a + 128) % 256) ((b + 128) % 256)

-- What one round of the loop over a set does with the bytes behind `lo`: a range, or one byte.
-- The result is the new `matched` and the position after the unit.
set_unit : ℕ → Bool → ℕ → Bytes → Bool × Bytes
set_unit c matched lo (d ∷ hi ∷ rest) =
    if d == b'-' && not (hi == b']')
    then (matched || char_leb lo c && char_leb c hi, rest)
    else (matched || lo == c, d ∷ hi ∷ rest)
set_unit c matched lo rest = (matched || lo == c, rest)

-- `if (lo == '\\' && k + 1 < pat.size()) lo = pat[++k];`
unescaped_unit : ℕ → Bool → ℕ → Bytes → Bool × Bytes
unfolding set_unit
unescaped_unit c matched lo (e ∷ rest) =
    if lo == b'\\' then set_unit c matched e rest else set_unit c matched lo (e ∷ rest)
unescaped_unit c matched lo [] = set_unit c matched lo []

-- The loop over a set from position k on: `matched`, and what stands behind the closing bracket;
-- `none` where there is none. `first` says that k == j, where a ']' is an ordinary byte. A round
-- takes a byte, so the length of the pattern is enough fuel.
scan_set : ℕ → ℕ → Bool → Bool → Bytes → Option (Bool × Bytes)
unfolding unescaped_unit
scan_set zero c first matched pat = none
scan_set (suc fuel) c first matched [] = none
scan_set (suc fuel) c first matched (x ∷ pat) =
    let next =
      scan_set fuel c false (unescaped_unit c matched x pat).0 (unescaped_unit c matched x pat).1 in
    if x == b']' && not first then some (matched, pat) else next

-- what the end of the loop over a set means: `pat` is what stands behind the opening bracket
set_result : ℕ → Bool → Bytes → Option (Bool × Bytes) → Bool × Bytes
set_result c negate pat none = (c == b'[', pat)
set_result c negate pat (some (matched, rest)) = (if negate then not matched else matched, rest)

match_set : ℕ → Bytes → Bool × Bytes
unfolding scan_set set_result
match_set c [] = set_result c false [] none
match_set c (x ∷ pat) =
    if x == b'^'
    then set_result c true (x ∷ pat) (scan_set (length pat) c true false pat)
    else set_result c false (x ∷ pat) (scan_set (length (x ∷ pat)) c true false (x ∷ pat))

-- One unit of the pattern `pc ∷ pat` against `c`: whether it matches, and the position behind it.
unfoldable pub match_unit : ℕ → Bytes → ℕ → Bool × Bytes
unfolding match_set
match_unit pc [] c =
    if pc == b'?' then (true, []) else if pc == b'[' then match_set c [] else (pc == c, [])
match_unit pc (x ∷ pat) c =
    if pc == b'?'
    then (true, x ∷ pat)
    else if pc == b'\\'
    then (x == c, pat)
    else if pc == b'['
    then match_set c (x ∷ pat)
    else (pc == c, x ∷ pat)

-- the last loop: `while (pi < pat.size() && pat[pi] == '*') ++pi; return pi == pat.size();`
unfoldable pub only_stars : Bytes → Bool
only_stars [] = true
only_stars (x ∷ pat) = if x == b'*' then only_stars pat else false

-- One round of the loop of `glob_match` over a string that has not ended.
pub data GlobRound : Type 0 where
  next : Bytes → Bytes → Option (Bytes × Bytes) → GlobRound
  mismatch : GlobRound

-- back to the last star, which takes one byte more
backtrack : Option (Bytes × Bytes) → GlobRound
backtrack none = mismatch
backtrack (some (star_pat, [])) = mismatch
backtrack (some (star_pat, c ∷ star_str)) = next star_pat star_str (some (star_pat, star_str))

glob_unit : Bool × Bytes → Bytes → Option (Bytes × Bytes) → GlobRound
unfolding backtrack
glob_unit (true, rest) str star = next rest str star
glob_unit (false, rest) str star = backtrack star

pub glob_round : Bytes → ℕ → Bytes → Option (Bytes × Bytes) → GlobRound
unfolding glob_unit backtrack
glob_round [] c str star = backtrack star
glob_round (pc ∷ pat) c str star =
    if pc == b'*'
    then next pat (c ∷ str) (some (pat, c ∷ str))
    else glob_unit (match_unit pc pat c) str star

-- The loop; `none` where the fuel runs out.
pub glob_loop : ℕ → Bytes → Bytes → Option (Bytes × Bytes) → Option Bool
glob_loop zero pat str star = none
glob_loop (suc fuel) pat [] star = some (only_stars pat)
glob_loop (suc fuel) pat (c ∷ str) star = elim (glob_round pat c str star) [
  | next pat' str' star' ↦ glob_loop fuel pat' str' star'
  | mismatch ↦ some false
]

abbrev pub glob_fuel : Bytes → Bytes → ℕ
glob_fuel pat str = suc (suc (length str) * suc (length pat) + length pat)

or_false : Option Bool → Bool
or_false none = false
or_false (some b) = b

unfoldable pub glob_match : Bytes → Bytes → Bool
unfolding glob_loop glob_round match_unit only_stars or_false
glob_match pat str = or_false (glob_loop (glob_fuel pat str) pat str none)

-- A star that is the last of the pattern takes the rest of the string.
glob_loop-star :
    (n : ℕ) (str : Bytes) → length str < n → glob_loop n [] str (some ([], str)) ≡ some true
unfolding glob_loop glob_round backtrack only_stars
glob_loop-star zero str h = absurd (omega (arith, h))
glob_loop-star (suc n) [] h = refl
glob_loop-star (suc n) (c ∷ str) h = glob_loop-star n str (omega (arith, h))

-- The pattern `*` matches every string.
pub glob_match-star : (str : Bytes) → glob_match (codes "*") str ≡ true
unfolding glob_match glob_loop glob_round only_stars or_false
glob_match-star [] = refl
glob_match-star (c ∷ str) =
    ap or_false (glob_loop-star (suc (suc (length str)) * 2 + 1) (c ∷ str) (omega arith))

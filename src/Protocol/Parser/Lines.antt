-- ===== src/Protocol/Parser/Lines.antt =====
-- `take_line` and `split_inline` of src/protocol/resp_parser.cpp.
use hermitdb.Prelude.{
  ℕ, zero, suc, ◌+◌, ◌<◌, length, ◌≡◌, ◌||◌, Option-cases, inl, inr, arith, List, [], ◌∷◌, ◌++◌,
  Option, none, some, Bytes, cr, lf, ◌==◌, if◌then◌else◌, Bool,
}

abbrev onto_line : ℕ → Option (Bytes × Bytes) → Option (Bytes × Bytes)
onto_line c none = none
onto_line c (some (l, rest)) = some (c ∷ l, rest)

-- The bytes before the first '\n', and those behind it: `buf_.find('\n', cursor_)`.
unfoldable pub cut_line : Bytes → Option (Bytes × Bytes)
cut_line [] = none
cut_line (c ∷ s) = let rest = onto_line c (cut_line s) in if c == lf then some ([], s) else rest

-- A '\r' at the end of a line is dropped: `if (end > cursor_ && buf_[end - 1] == '\r') --end;`.
unfoldable pub strip_cr : Bytes → Bytes
strip_cr [] = []
strip_cr (c ∷ []) = if c == cr then [] else c ∷ []
strip_cr (c ∷ d ∷ s) = c ∷ strip_cr (d ∷ s)

abbrev pub stripped : Option (Bytes × Bytes) → Option (Bytes × Bytes)
stripped none = none
stripped (some (l, rest)) = some (strip_cr l, rest)

-- A line and the bytes behind it; `none` when no complete line is buffered.
unfoldable pub take_line : Bytes → Option (Bytes × Bytes)
take_line s = stripped (cut_line s)

unfoldable pub is_space : ℕ → Bool
is_space c = c == b' ' || c == 9

-- `while (i < line.size() && is_space(line[i])) ++i;`
skip_spaces : Bytes → Bytes
unfolding is_space
skip_spaces [] = []
skip_spaces (c ∷ s) = let rest = skip_spaces s in if is_space c then rest else c ∷ s

abbrev onto_word : ℕ → Bytes × Bytes → Bytes × Bytes
onto_word c (w, rest) = (c ∷ w, rest)

-- `while (i < line.size() && !is_space(line[i])) ++i;`: the word from `start`, and what follows
take_word : Bytes → Bytes × Bytes
unfolding is_space
take_word [] = ([], [])
take_word (c ∷ s) = let more = onto_word c (take_word s) in if is_space c then ([], c ∷ s) else more

-- The outer loop of `split_inline`. Every round takes a byte, so the length of the line is enough
-- fuel.
split_words : ℕ → Bytes → List Bytes
unfolding skip_spaces take_word
split_words zero s = []
split_words (suc fuel) s = elim (skip_spaces s) [
  | [] ↦ []
  | c ∷ t ↦ (take_word (c ∷ t)).0 ∷ split_words fuel (take_word (c ∷ t)).1
]

unfoldable pub split_inline : Bytes → List Bytes
unfolding split_words
split_inline s = split_words (length s) s

module _ (b : Bytes) where
  cut_line-append :
      (s : Bytes) {l rest : Bytes}
      → cut_line s ≡ some (l, rest)
      → cut_line (s ++ b) ≡ some (l, rest ++ b)
  unfolding cut_line
  cut_line-append [] h = cc
  cut_line-append (c ∷ s) {l} {rest} h = elim (Option-cases (cut_line s)) [
    | inl e ↦ ground arith
    | inr ((l', rest'), e) ↦ ground (arith, cut_line-append s e)
  ]

  -- A line that is complete stays the same when more bytes arrive.
  pub take_line-append :
      (s : Bytes) {l rest : Bytes}
      → take_line s ≡ some (l, rest)
      → take_line (s ++ b) ≡ some (l, rest ++ b)
  unfolding take_line
  take_line-append s h = elim (Option-cases (cut_line s)) [
    | inl e ↦ cc
    | inr ((l', rest'), e) ↦ ground (arith, cut_line-append s e)
  ]

length-cut_line :
    (s : Bytes) {l rest : Bytes} → cut_line s ≡ some (l, rest) → length l + length rest < length s
unfolding cut_line
length-cut_line [] h = cc
length-cut_line (c ∷ s) {l} {rest} h = elim (Option-cases (cut_line s)) [
  | inl e ↦ ground arith
  | inr ((l', rest'), e) ↦ ground (arith, length-cut_line s e)
]

pub length-take_line :
    (s : Bytes) {l rest : Bytes} → take_line s ≡ some (l, rest) → length rest < length s
unfolding take_line
length-take_line s h = elim (Option-cases (cut_line s)) [
  | inl e ↦ cc
  | inr ((l', rest'), e) ↦ ground (arith, length-cut_line s e)
]

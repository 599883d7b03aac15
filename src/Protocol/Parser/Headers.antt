-- ===== src/Protocol/Parser/Headers.antt =====
-- A header line of a record, whole and cut off.
use hermitdb.Prelude.{ℕ, ◌≡◌, ◌≢◌, refl, [], ◌∷◌, ◌++◌, none, some, Bytes, cr, lf, crlf, arith, ap}
use hermitdb.Protocol.Decimal.{to_string, to_string-cons, AllDigits}
use hermitdb.Protocol.Parser.Lines.{take_line, cut_line, strip_cr}

-- No byte is '\n'.
abbrev pub NoLf : Bytes → Type 0
NoLf [] = Unit
NoLf (c ∷ s) = (c ≢ lf) × NoLf s

AllDigits-NoLf : (s : Bytes) → AllDigits s → NoLf s
AllDigits-NoLf [] d = tt
AllDigits-NoLf (c ∷ s) d = (omega arith, AllDigits-NoLf s d.1)

-- A header has no '\n' before its end.
pub header-NoLf : (c n : ℕ) → c ≢ lf → NoLf (c ∷ to_string n)
header-NoLf c n h = let (_, _, _, _, digits) = to_string-cons n in (h, AllDigits-NoLf _ digits)

cut_line-crlf : (s rest : Bytes) → NoLf s → cut_line (s ++ crlf ++ rest) ≡ some (s ++ cr ∷ [], rest)
unfolding cut_line
cut_line-crlf [] rest h = refl
cut_line-crlf (c ∷ s) rest h = ground (arith, cut_line-crlf s rest h.1)

strip_cr-append : (s : Bytes) → strip_cr (s ++ cr ∷ []) ≡ s
unfolding strip_cr
strip_cr-append [] = refl
strip_cr-append (c ∷ []) = refl
strip_cr-append (c ∷ d ∷ s) = ap (λ r. c ∷ r) (strip_cr-append (d ∷ s))

-- A line that ends in CRLF is taken without it.
pub take_line-crlf : (s rest : Bytes) → NoLf s → take_line (s ++ crlf ++ rest) ≡ some (s, rest)
unfolding take_line
take_line-crlf s rest h = rw (cut_line-crlf s rest h, strip_cr-append s)

cut_line_torn : (s t u : Bytes) → NoLf s → t ++ u ≡ s ++ crlf → u ≢ [] → cut_line t ≡ none
unfolding cut_line
cut_line_torn s [] u h e ne = refl
cut_line_torn [] (c ∷ []) u h e ne = ground arith
cut_line_torn [] (c ∷ d ∷ []) u h e ne = absurd (ne (ground arith))
cut_line_torn [] (c ∷ d ∷ x ∷ t) u h e ne = ground arith
cut_line_torn (d ∷ s) (c ∷ t) u h e ne = ground (arith, cut_line_torn s t u h.1)

-- A line that is cut off before its '\n' is not taken.
pub take_line_torn : (s t u : Bytes) → NoLf s → t ++ u ≡ s ++ crlf → u ≢ [] → take_line t ≡ none
unfolding take_line
take_line_torn s t u h e ne = rw (cut_line_torn s t u h e ne)

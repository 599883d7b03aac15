-- ===== src/Core/Db/Ranges.antt =====
-- The index arithmetic of LRANGE: Db::lrange of src/core/db.cpp.
use hermitdb.Prelude.{
  ℕ, zero, suc, ◌+◌, ◌-◌, ◌≤◌, ◌<◌, ◌≡◌, refl, ◌∙◌, sym, ap, List, [], ◌∷◌, Bytes, length, take,
  drop, get_elem?, true, false, if◌then◌else◌, arith, Bool-cases, inl, inr, leb, ltb, ◌||◌, ◌⊎◌,
  ◌==◌,
}
use hermitdb.Prelude.Int.{ℤ, pos, negsuc, ◌+ℤ◌, ◌-ℤ◌, ltb_ℤ, leb_ℤ, pos_part}
use hermitdb.Core.Db.{slice, onto, range_of, list_range, from_tail, clamp_start, clamp_stop}

-- The position of an index from the left, and from the right.
abbrev pub first : ℕ → ℤ → ℕ
first n (pos a) = a
first n (negsuc a) = n - suc a

-- One behind the position of an index.
abbrev pub behind : ℕ → ℤ → ℕ
behind n (pos b) = suc b
behind n (negsuc b) = n - b

slice-nil : (k i : ℕ) → slice k i [] ≡ []
unfolding slice
slice-nil zero i = refl
slice-nil (suc k) i = slice-nil k (suc i)

slice-suc : (k i : ℕ) (x : Bytes) (l : List Bytes) → slice k (suc i) (x ∷ l) ≡ slice k i l
unfolding slice
slice-suc zero i x l = refl
slice-suc (suc k) i x l = ap (onto (get_elem? l i)) (slice-suc k (suc i) x l)

slice-take : (k : ℕ) (l : List Bytes) → slice k 0 l ≡ take k l
unfolding slice
slice-take zero [] = refl
slice-take (suc k) [] = slice-nil k 1
slice-take zero (x ∷ l) = refl
slice-take (suc k) (x ∷ l) = ap (λ r. x ∷ r) (slice-suc k 0 x l ∙ slice-take k l)

-- A slice from `i` on, in place of the loop.
slice-drop : (k i : ℕ) (l : List Bytes) → slice k i l ≡ drop i (take (i + k) l)
slice-drop k zero l =
    let same : 0 + k ≡ k = omega arith in slice-take k l ∙ ap (λ m. take m l) (sym same)
slice-drop k (suc i) [] =
    let same : suc i + k ≡ suc (i + k) = omega arith in
    slice-nil k (suc i) ∙ ap (λ m. drop (suc i) (take m [])) (sym same)
slice-drop k (suc i) (x ∷ l) =
    let same : suc i + k ≡ suc (i + k) = omega arith in
    slice-suc k i x l ∙ slice-drop k i l ∙ ap (λ m. drop (suc i) (take m (x ∷ l))) (sym same)

drop-take-nil : (a b : ℕ) (l : List Bytes) → b ≤ a → drop a (take b l) ≡ []
drop-take-nil zero zero [] h = refl
drop-take-nil zero zero (x ∷ l) h = refl
drop-take-nil (suc a) zero [] h = refl
drop-take-nil (suc a) zero (x ∷ l) h = refl
drop-take-nil zero (suc b) l h = absurd (omega arith)
drop-take-nil (suc a) (suc b) [] h = refl
drop-take-nil (suc a) (suc b) (x ∷ l) h = drop-take-nil a b l (omega arith)

take-all : (b : ℕ) (l : List Bytes) → length l ≤ b → take b l ≡ l
take-all zero [] h = refl
take-all (suc b) [] h = refl
take-all zero (x ∷ l) h = absurd (omega arith)
take-all (suc b) (x ∷ l) h = ap (λ r. x ∷ r) (take-all b l (omega arith))

drop-all : (a : ℕ) (l : List Bytes) → length l ≤ a → drop a l ≡ []
drop-all zero [] h = refl
drop-all (suc a) [] h = refl
drop-all zero (x ∷ l) h = absurd (omega arith)
drop-all (suc a) (x ∷ l) h = drop-all a l (omega arith)

drop-nil : (a m : ℕ) → drop a (take {A = Bytes} m []) ≡ []
drop-nil zero zero = refl
drop-nil zero (suc m) = refl
drop-nil (suc a) zero = refl
drop-nil (suc a) (suc m) = refl

difference : (a b : ℕ) → a ≤ b → pos b -ℤ pos a ≡ pos (b - a)
unfolding ◌-ℤ◌
difference a b h = ground arith

-- `range_of` between two positions
range_of-some :
    (a b : ℕ) (l : List Bytes)
    → a < length l
    → a ≤ b
    → range_of (pos (length l)) (pos a) (pos b) l ≡ drop a (take (suc b) l)
unfolding range_of
range_of-some a b l inside h =
    let started : ltb_ℤ (pos b) (pos a) ≡ false = ground arith in
    let within : leb_ℤ (pos (length l)) (pos a) ≡ false = ground arith in
    let k : a + suc (b - a) ≡ suc b = omega arith in
    ap
      (λ c.
        if c || leb_ℤ (pos (length l)) (pos a)
        then []
        else slice (suc (pos_part (pos b -ℤ pos a))) a l)
      started
    ∙ ap (λ c. if c then [] else slice (suc (pos_part (pos b -ℤ pos a))) a l) within
    ∙ ap (λ d. slice (suc (pos_part d)) a l) (difference a b h)
    ∙ slice-drop (suc (b - a)) a l
    ∙ ap (λ m. drop a (take m l)) k

range_of-none :
    (n s e : ℤ) (l : List Bytes) → (ltb_ℤ e s || leb_ℤ n s) ≡ true → range_of n s e l ≡ []
unfolding range_of
range_of-none n s e l h =
    ap (λ c. if c then [] else slice (suc (pos_part (e -ℤ s))) (pos_part s) l) h

-- the clamped start is a position
start-first : (n : ℕ) (s : ℤ) → clamp_start (from_tail (pos n) s) ≡ pos (first n s)
unfolding ◌+ℤ◌
start-first n (pos a) = ground arith
start-first n (negsuc a) = ground arith

-- The clamped stop is a position in the list, or negative.
abbrev StopsAt : ℕ → ℤ → ℤ → ℕ → Type 0
StopsAt n e stop b =
    (stop ≡ pos b) × (b < n) × ((suc b ≡ behind n e) ⊎ ((suc b ≡ n) × (n ≤ behind n e)))

abbrev StopsBefore : ℕ → ℤ → ℤ → Type 0
StopsBefore n e stop = (ltb_ℤ stop (pos 0) ≡ true) × ((behind n e ≡ 0) ⊎ (n ≡ 0))

stop-behind :
    (n : ℕ) (e : ℤ)
    → ((b : ℕ) × StopsAt n e (clamp_stop (pos n) (from_tail (pos n) e)) b)
      ⊎ StopsBefore n e (clamp_stop (pos n) (from_tail (pos n) e))
unfolding ◌+ℤ◌ ◌-ℤ◌
stop-behind n (pos b) = elim (Bool-cases (ltb b n)) [
  | inl h ↦ inl (b, (ground arith, ground arith, inl refl))
  | inr h ↦ elim (Bool-cases (n == 0)) [
    | inl z ↦ inr (ground arith, inr (ground arith))
    | inr z ↦ inl (n - 1, (ground arith, ground arith, inr (ground arith, ground arith)))
  ]
]
stop-behind n (negsuc b) = elim (Bool-cases (ltb b n)) [
  | inl h ↦ inl (n - suc b, (ground arith, ground arith, inl (ground arith)))
  | inr h ↦ inr (ground arith, inl (ground arith))
]

take-behind :
    (b : ℕ) (m : ℕ) (l : List Bytes)
    → (suc b ≡ m) ⊎ ((suc b ≡ length l) × (length l ≤ m))
    → take (suc b) l ≡ take m l
take-behind b m l (inl e) = ap (λ k. take k l) e
take-behind b m l (inr (e, h)) = take-all (suc b) l (omega arith) ∙ sym (take-all m l h)

range_of-before :
    (a m : ℕ) (stop : ℤ) (l : List Bytes)
    → ltb_ℤ stop (pos 0) ≡ true
    → (m ≡ 0) ⊎ (length l ≡ 0)
    → range_of (pos (length l)) (pos a) stop l ≡ drop a (take m l)
range_of-before a m stop l early (inl z) =
    range_of-none (pos (length l)) (pos a) stop l (ground arith)
    ∙ sym (drop-take-nil a m l (omega arith))
range_of-before a m stop [] early (inr z) =
    range_of-none (pos 0) (pos a) stop [] (ground arith) ∙ sym (drop-nil a m)
range_of-before a m stop (x ∷ l) early (inr z) = absurd (omega arith)

range_of-take :
    (a b m : ℕ) (l : List Bytes)
    → b < length l
    → (suc b ≡ m) ⊎ ((suc b ≡ length l) × (length l ≤ m))
    → range_of (pos (length l)) (pos a) (pos b) l ≡ drop a (take m l)
range_of-take a b m l inside h = elim (Bool-cases (leb a b)) [
  | inl e ↦ range_of-some a b l (ground arith) (ground arith) ∙ ap (drop a) (take-behind b m l h)
  | inr e ↦
      range_of-none (pos (length l)) (pos a) (pos b) l (ground arith)
      ∙ sym (drop-take-nil a (suc b) l (ground arith))
      ∙ ap (drop a) (take-behind b m l h)
]

-- LRANGE returns the elements of the list from the position of the first index up to and including
-- that of the second, where a negative index counts from the end: for all indices, also out of range.
pub list_range_lem :
    (start stop : ℤ) (l : List Bytes)
    → list_range start stop l ≡ drop (first (length l) start) (take (behind (length l) stop) l)
unfolding list_range
list_range_lem start stop l =
    let n = length l in
    let a = first n start in
    let m = behind n stop in
    ap (λ s. range_of (pos n) s (clamp_stop (pos n) (from_tail (pos n) stop)) l)
      (start-first n start)
    ∙ elim (stop-behind n stop) [
      | inl (b, (at, inside, same)) ↦
          ap (λ e. range_of (pos n) (pos a) e l) at ∙ range_of-take a b m l inside same
      | inr (early, none_there) ↦
          range_of-before a m (clamp_stop (pos n) (from_tail (pos n) stop)) l early none_there
    ]

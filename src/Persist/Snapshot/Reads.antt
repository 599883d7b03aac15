-- ===== src/Persist/Snapshot/Reads.antt =====
-- What it means that a reader reads a text, and the rules for the readers of a snapshot.
use hermitdb.Prelude.{
  ℕ, ◌%◌, ◌^◌, ◌<◌, ◌≤◌, ◌≡◌, ◌≢◌, refl, ap, ◌∙◌, [], ◌∷◌, ◌++◌, none, some, Bytes, length,
  length-append, take-length-append, drop-length-append, append-split, append_assoc, arith, inl,
  inr, ltb, if◌then◌else◌, Bool, true, false,
}
use hermitdb.Persist.Snapshot.{
  Reader, then_read, ◌>>=◌, pure, fail, get_raw, get_uint, uint_of, put_uint, put_u32, put_bytes,
  get_bytes, get_bytes_of,
}
use hermitdb.Persist.Snapshot.Numbers.{span, length-put_uint, uint_of-put_uint}

-- `r` reads `b` as `a`: it takes these bytes off a stream, whatever follows, and fails on a stream that
-- ends inside them.
pub record Reads {A : Type 0} (r : Reader A) (b : Bytes) (a : A) : Type 0 where
  pub whole : (rest : Bytes) → r (b ++ rest) ≡ some (a, rest)
  pub torn : (t u : Bytes) → t ++ u ≡ b → u ≢ [] → r t ≡ none

not-cons : (t u : Bytes) → t ++ u ≡ [] → u ≢ [] → ⊥
not-cons [] u e ne = ne e
not-cons (x ∷ t) u e ne = cc

pub pure-Reads : {A : Type 0} (a : A) → Reads (pure a) [] a
pure-Reads a = record { whole = λ rest. refl; torn = λ t u e ne. absurd (not-cons t u e ne) }

module _ {A B : Type 0} (r : Reader A) (f : A → Reader B) (b c : Bytes) (a : A) (v : B) where
  pub bind-Reads : Reads r b a → Reads (f a) c v → Reads (r >>= f) (b ++ c) v
  bind-Reads h k = record {
    whole = λ rest.
        ap (λ s. then_read (r s) f) (append_assoc b c rest)
        ∙ ap (λ o. then_read o f) (h.whole (c ++ rest))
        ∙ k.whole rest;
    torn = λ t u e ne. elim (append-split t u b c e) [
      | inl (w, same, more) ↦ ap (λ o. then_read o f) (h.torn t w same more)
      | inr (w, same, rest) ↦
          ap (λ s. then_read (r s) f) same
          ∙ ap (λ o. then_read o f) (h.whole w)
          ∙ k.torn w u rest ne
    ];
  }

torn-lt : (t u b : Bytes) → t ++ u ≡ b → u ≢ [] → length t < length b
torn-lt t [] b e ne = absurd (ne refl)
torn-lt t (x ∷ u) b e ne = omega (arith, length-append t (x ∷ u), ap (λ s. length s) e)

pub get_raw-Reads : (b : Bytes) → Reads (get_raw (length b)) b b
unfolding get_raw
get_raw-Reads b = record {
  whole = λ rest.
      ground (arith, length-append b rest, take-length-append b rest, drop-length-append b rest);
  torn = λ t u e ne. ground (arith, torn-lt t u b e ne);
}

pub map-Reads :
    {A B : Type 0} (r : Reader A) (g : A → B) (b : Bytes) (a : A)
    → Reads r b a
    → Reads (r >>= λ x. pure (g x)) b (g a)
map-Reads r g b a h = record {
  whole = λ rest. ap (λ o. then_read o (λ x. pure (g x))) (h.whole rest);
  torn = λ t u e ne. ap (λ o. then_read o (λ x. pure (g x))) (h.torn t u e ne);
}

pub get_uint-Reads : (w v : ℕ) → v < span w → Reads (get_uint w) (put_uint w v) v
unfolding get_uint
get_uint-Reads w v h =
    let raw : Reads (get_raw w) (put_uint w v) (put_uint w v) =
      rw (length-put_uint w v) at (get_raw-Reads (put_uint w v)) in
    rw (uint_of-put_uint w v h) at (map-Reads (get_raw w) uint_of (put_uint w v) (put_uint w v) raw)

pub get_u32-Reads : (n : ℕ) → n < 2 ^ 32 → Reads (get_uint 4) (put_u32 n) n
get_u32-Reads n h =
    let same : n % 2 ^ 32 ≡ n = omega arith in rw same (get_uint-Reads 4 n (omega arith))

abbrev behind_length : ℕ → ℕ → Reader Bytes
behind_length remaining len = if ltb remaining len then fail else get_raw len

module _ (s : Bytes) (h : length s < 2 ^ 32) (remaining : ℕ) where
  get_bytes_of-torn :
      (t u : Bytes) → t ++ u ≡ put_bytes s → u ≢ [] → get_bytes_of remaining t ≡ none
  unfolding get_bytes_of
  get_bytes_of-torn t u e ne = elim (append-split t u (put_u32 (length s)) s e) [
    | inl (w, same, more) ↦
        ap (λ o. then_read o (behind_length remaining))
          ((get_u32-Reads (length s) h).torn t w same more)
    | inr (w, same, rest) ↦
        ap (λ i. then_read (get_uint 4 i) (behind_length remaining)) same
        ∙ ap (λ o. then_read o (behind_length remaining)) ((get_u32-Reads (length s) h).whole w)
        ∙ short w u rest ne (ltb remaining (length s))
  ]
    where
      short :
          (w u : Bytes)
          → w ++ u ≡ s
          → u ≢ []
          → (c : Bool) → (if c then fail else get_raw (length s)) w ≡ none
      short w u e ne true = refl
      short w u e ne false = (get_raw-Reads s).torn w u e ne

  get_bytes_of-whole :
      length s ≤ remaining
      → (rest : Bytes) → get_bytes_of remaining (put_bytes s ++ rest) ≡ some (s, rest)
  unfolding get_bytes_of
  get_bytes_of-whole enough rest =
      let open_guard : ltb remaining (length s) ≡ false = ground arith in
      ap (λ i. then_read (get_uint 4 i) (behind_length remaining))
        (append_assoc (put_u32 (length s)) s rest)
      ∙ ap (λ o. then_read o (behind_length remaining))
          ((get_u32-Reads (length s) h).whole (s ++ rest))
      ∙ ap (λ c. (if c then fail else get_raw (length s)) (s ++ rest)) open_guard
      ∙ (get_raw-Reads s).whole rest

-- A string is read back, if its length fits 32 bits.
pub get_bytes-Reads : (s : Bytes) → length s < 2 ^ 32 → Reads get_bytes (put_bytes s) s
unfolding get_bytes
get_bytes-Reads s h = record {
  whole = λ rest.
      get_bytes_of-whole s h (length (put_bytes s ++ rest))
        (omega (arith, length-append (put_u32 (length s)) s, length-append (put_bytes s) rest))
        rest;
  torn = λ t u e ne. get_bytes_of-torn s h (length t) t u e ne;
}

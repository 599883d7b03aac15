-- ===== src/Persist/Snapshot/Numbers.antt =====
-- The numbers of a snapshot, written and read: src/persist/snapshot.cpp.
use hermitdb.Prelude.{ℕ, zero, suc, ◌*◌, ◌/◌, ◌^◌, ◌<◌, ◌≡◌, refl, length, arith}
use hermitdb.Prelude.Int.{ℤ, pos, negsuc, InRange}
use hermitdb.Persist.Snapshot.{put_uint, uint_of, to_word, of_word}

-- 256 to the power of `w`
abbrev pub span : ℕ → ℕ
span zero = 1
span (suc w) = 256 * span w

pub length-put_uint : (w v : ℕ) → length (put_uint w v) ≡ w
unfolding put_uint
length-put_uint zero v = refl
length-put_uint (suc w) v = omega (arith, length-put_uint w (v / 256))

pub uint_of-put_uint : (w v : ℕ) → v < span w → uint_of (put_uint w v) ≡ v
unfolding put_uint uint_of
uint_of-put_uint zero v h = omega arith
uint_of-put_uint (suc w) v h = omega (arith, uint_of-put_uint w (v / 256) (omega arith))

pub of_word-to_word : (v : ℤ) → InRange v → of_word (to_word v) ≡ v
of_word-to_word (pos n) h = ground arith
of_word-to_word (negsuc n) h = ground arith

pub to_word-lt : (v : ℤ) → InRange v → to_word v < 2 ^ 64
to_word-lt (pos n) h = omega arith
to_word-lt (negsuc n) h = omega arith

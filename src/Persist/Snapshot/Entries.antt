-- ===== src/Persist/Snapshot/Entries.antt =====
-- The entries of a snapshot, written and read: src/persist/snapshot.cpp.
use hermitdb.Prelude.{
  ℕ, ◌^◌, ◌<◌, ◌≤◌, false, ◌≡◌, refl, sym, List, [], ◌∷◌, ◌++◌, Option, none, some, Bytes, length,
  ltb, if◌then◌else◌, append-nil, append_assoc, arith,
}
use hermitdb.Prelude.Int.{ℤ, InRange}
use hermitdb.Core.Db.{Entry, str, list}
use hermitdb.Persist.Snapshot.{
  Reader, ◌>>=◌, pure, fail, get_uint, put_u32, put_u8, put_bytes, get_bytes, get_u8, get_u32,
  get_i64, put_i64, put_elements, get_elements, put_value, get_value, put_deadline, get_deadline,
  type_tag, Record, put_record, get_record, get_named, get_body, of_word, to_word,
}
use hermitdb.Persist.Snapshot.Numbers.{of_word-to_word, to_word-lt}
use hermitdb.Persist.Snapshot.Reads.{
  Reads, pure-Reads, bind-Reads, map-Reads, get_uint-Reads, get_u32-Reads, get_bytes-Reads,
}

-- The lengths fit 32 bits.
abbrev pub ElementsFit : List Bytes → Type 0
ElementsFit [] = Unit
ElementsFit (x ∷ l) = (length x < 2 ^ 32) × ElementsFit l

abbrev pub EntryFits : Entry → Type 0
EntryFits (str s) = length s < 2 ^ 32
EntryFits (list l) = (length l < 2 ^ 32) × ElementsFit l

abbrev pub DeadlineFits : Option ℤ → Type 0
DeadlineFits none = Unit
DeadlineFits (some at) = InRange at

pub record RecordFits (r : Record) : Type 0 where
  pub key_fits : length r.key < 2 ^ 32
  pub at_fits : DeadlineFits r.at_ms
  pub entry_fits : EntryFits r.entry

get_i64-Reads : (v : ℤ) → InRange v → Reads get_i64 (put_i64 v) v
get_i64-Reads v h = rw (of_word-to_word v h) at (
    map-Reads (get_uint 8) of_word (put_i64 v) (to_word v)
      (get_uint-Reads 8 (to_word v) (to_word-lt v h)))

get_elements-Reads :
    (l : List Bytes) → ElementsFit l → Reads (get_elements (length l)) (put_elements l) l
unfolding get_elements put_elements
get_elements-Reads [] h = pure-Reads []
get_elements-Reads (x ∷ l) h =
    bind-Reads get_bytes (λ y. get_elements (length l) >>= λ m. pure (y ∷ m)) (put_bytes x)
      (put_elements l) x (x ∷ l) (get_bytes-Reads x h.0)
      (map-Reads (get_elements (length l)) (λ m. x ∷ m) (put_elements l) l
        (get_elements-Reads l h.1))

get_value-Reads : (e : Entry) → EntryFits e → Reads (get_value (type_tag e)) (put_value e) e
unfolding get_value
get_value-Reads (str s) h = map-Reads get_bytes (λ s. str s) (put_bytes s) s (get_bytes-Reads s h)
get_value-Reads (list l) h =
    bind-Reads get_u32 (λ n. get_elements n >>= λ l. pure (list l)) (put_u32 (length l))
      (put_elements l) (length l) (list l) (get_u32-Reads (length l) h.0)
      (map-Reads (get_elements (length l)) (λ m. list m) (put_elements l) l
        (get_elements-Reads l h.1))

-- whether there is a deadline, as a number
abbrev flag : Option ℤ → ℕ
flag none = 0
flag (some _) = 1

-- what stands behind that number
abbrev flagged : Option ℤ → Bytes
flagged none = []
flagged (some at) = put_i64 at

get_deadline-Reads :
    (at : Option ℤ) → DeadlineFits at → Reads (get_deadline (flag at)) (flagged at) at
unfolding get_deadline
get_deadline-Reads none h = pure-Reads none
get_deadline-Reads (some at) h =
    map-Reads get_i64 (λ v. some v) (put_i64 at) at (get_i64-Reads at h)

put_deadline-flag : (at : Option ℤ) → put_deadline at ≡ put_u8 (flag at) ++ flagged at
put_deadline-flag none = sym (append-nil (put_u8 0))
put_deadline-flag (some at) = refl

flag-le : (at : Option ℤ) → flag at ≤ 1
flag-le none = omega arith
flag-le (some at) = omega arith

type_tag-le : (e : Entry) → type_tag e ≤ 1
type_tag-le (str s) = omega arith
type_tag-le (list l) = omega arith

-- a number that must not be above 1, and then `k`
abbrev guarded : {A : Type 0} → (ℕ → Reader A) → ℕ → Reader A
guarded k n = if ltb 1 n then fail else k n

tagged-Reads :
    {A : Type 0} (k : ℕ → Reader A) (tag : ℕ) (v : Bytes) (a : A)
    → tag ≤ 1
    → Reads (k tag) v a
    → Reads (get_u8 >>= guarded k) (put_u8 tag ++ v) a
tagged-Reads k tag v a small h =
    let passes : ltb 1 tag ≡ false = ground arith in
    let guard : Reads (guarded k tag) v a = rw passes h in
    bind-Reads get_u8 (guarded k) (put_u8 tag) v tag a (get_uint-Reads 1 tag (omega arith)) guard

module _ (r : Record) (h : RecordFits r) where
  get_body-Reads :
      Reads
        (get_body (type_tag r.entry) r.key (flag r.at_ms))
        (flagged r.at_ms ++ put_value r.entry)
        r
  unfolding get_body
  get_body-Reads =
      bind-Reads (get_deadline (flag r.at_ms))
        (λ at. get_value (type_tag r.entry) >>= λ entry.
          pure (record { key = r.key; at_ms = at; entry = entry }))
        (flagged r.at_ms) (put_value r.entry) r.at_ms r (get_deadline-Reads r.at_ms h.at_fits)
        (map-Reads (get_value (type_tag r.entry))
          (λ entry. record { key = r.key; at_ms = r.at_ms; entry = entry }) (put_value r.entry)
          r.entry (get_value-Reads r.entry h.entry_fits))

  get_named-Reads :
      Reads
        (get_named (type_tag r.entry))
        (put_bytes r.key ++ (put_deadline r.at_ms ++ put_value r.entry))
        r
  unfolding get_named
  get_named-Reads =
      rw
        (
          put_deadline-flag r.at_ms,
          append_assoc (put_u8 (flag r.at_ms)) (flagged r.at_ms) (put_value r.entry),
        )
        (bind-Reads get_bytes (λ key. get_u8 >>= guarded (get_body (type_tag r.entry) key))
          (put_bytes r.key) (put_u8 (flag r.at_ms) ++ (flagged r.at_ms ++ put_value r.entry)) r.key
          r (get_bytes-Reads r.key h.key_fits)
          (tagged-Reads (get_body (type_tag r.entry) r.key) (flag r.at_ms)
            (flagged r.at_ms ++ put_value r.entry) r (flag-le r.at_ms) get_body-Reads))

  -- An entry is read back.
  pub get_record-Reads : Reads get_record (put_record r) r
  unfolding get_record put_record
  get_record-Reads =
      tagged-Reads get_named (type_tag r.entry)
        (put_bytes r.key ++ (put_deadline r.at_ms ++ put_value r.entry)) r (type_tag-le r.entry)
        get_named-Reads

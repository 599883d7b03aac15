-- ===== src/Persist/Snapshot.antt =====
-- Snapshots of the keyspace: src/persist/snapshot.cpp. The file's integers have the byte order of the
-- host, which is little-endian here. A stream to read is the list of bytes that are left in it.
pub mod Numbers
pub mod Reads
pub mod Entries
pub mod RoundTrip
pub mod Whole
pub mod Restart
use hermitdb.Prelude.{
  ℕ, zero, suc, ◌+◌, ◌-◌, ◌*◌, ◌/◌, ◌%◌, ◌^◌, List, [], ◌∷◌, ◌++◌, Option, none, some, Bytes, codes,
  length, take, drop, Bool, true, false, ltb, leb, ◌==◌, bytes_eq, if◌then◌else◌, ◌||◌,
}
use hermitdb.Prelude.Int.{ℤ, pos, negsuc}
use hermitdb.Protocol.Decimal.{to_string}
use hermitdb.Core.Db.{Db, Entry, str, list, restore_entry}
use hermitdb.Core.Expiry
use hermitdb.Core.Expiry.{Expiry}

-- kMagic
abbrev pub magic : Bytes
magic = codes "HDB1"

-- the `w` bytes of an unsigned number, the lowest first
unfoldable pub put_uint : ℕ → ℕ → Bytes
put_uint zero v = []
put_uint (suc w) v = (v % 256) ∷ put_uint w (v / 256)

-- `int64_t` in two's complement
abbrev pub to_word : ℤ → ℕ
to_word (pos n) = n
to_word (negsuc n) = 2 ^ 64 - 1 - n

abbrev pub of_word : ℕ → ℤ
of_word v = if ltb v (2 ^ 63) then pos v else negsuc (2 ^ 64 - 1 - v)

abbrev pub put_u8 : ℕ → Bytes
put_u8 v = put_uint 1 v

abbrev pub put_u32 : ℕ → Bytes
put_u32 v = put_uint 4 (v % 2 ^ 32)

abbrev pub put_u64 : ℕ → Bytes
put_u64 v = put_uint 8 v

abbrev pub put_i64 : ℤ → Bytes
put_i64 v = put_uint 8 (to_word v)

abbrev pub put_bytes : Bytes → Bytes
put_bytes s = put_u32 (length s) ++ s

-- What a read returns with what it leaves, or nothing where the stream fails.
abbrev pub Reader : Type 0 → Type 0
Reader A = Bytes → Option (A × Bytes)

abbrev pub then_read : {A B : Type 0} → Option (A × Bytes) → (A → Reader B) → Option (B × Bytes)
then_read none f = none
then_read (some (a, rest)) f = f a rest

infixl 5 ◌>>=◌
abbrev pub ◌>>=◌ : {A B : Type 0} → Reader A → (A → Reader B) → Reader B
◌>>=◌ r f s = then_read (r s) f

abbrev pub pure : {A : Type 0} → A → Reader A
pure a s = some (a, s)

abbrev pub fail : {A : Type 0} → Reader A
fail s = none

-- `f.read(..., n)`
unfoldable pub get_raw : ℕ → Reader Bytes
get_raw n s = if leb n (length s) then some (take n s, drop n s) else none

-- the number whose bytes these are, the lowest first
unfoldable pub uint_of : Bytes → ℕ
uint_of [] = 0
uint_of (b ∷ s) = b + 256 * uint_of s

unfoldable pub get_uint : ℕ → Reader ℕ
unfolding get_raw uint_of
get_uint w = get_raw w >>= λ s. pure (uint_of s)

abbrev pub get_u8 : Reader ℕ
get_u8 = get_uint 1

abbrev pub get_u32 : Reader ℕ
get_u32 = get_uint 4

abbrev pub get_u64 : Reader ℕ
get_u64 = get_uint 8

abbrev pub get_i64 : Reader ℤ
get_i64 = get_uint 8 >>= λ v. pure (of_word v)

-- The length is checked against `remaining`.
unfoldable pub get_bytes_of : ℕ → Reader Bytes
unfolding get_uint
get_bytes_of remaining = do len ← get_u32; if ltb remaining len then fail else get_raw len

-- `remaining` is what is left before the length is read: `bytes_left(f, total)`.
unfoldable pub get_bytes : Reader Bytes
unfolding get_bytes_of
get_bytes s = get_bytes_of (length s) s

-- One entry of the file.
pub record Record : Type 0 where
  pub key : Bytes
  pub at_ms : Option ℤ
  pub entry : Entry

abbrev pub put_deadline : Option ℤ → Bytes
put_deadline none = put_u8 0
put_deadline (some at) = put_u8 1 ++ put_i64 at

unfoldable pub put_elements : List Bytes → Bytes
put_elements [] = []
put_elements (x ∷ l) = put_bytes x ++ put_elements l

abbrev pub put_value : Entry → Bytes
put_value (str s) = put_bytes s
put_value (list l) = put_u32 (length l) ++ put_elements l

abbrev pub type_tag : Entry → ℕ
type_tag (str _) = 0
type_tag (list _) = 1

-- one round of the loop in `save_snapshot`
unfoldable pub put_record : Record → Bytes
unfolding put_elements
put_record r =
    put_u8 (type_tag r.entry) ++ (put_bytes r.key ++ (put_deadline r.at_ms ++ put_value r.entry))

unfoldable pub put_records : List Record → Bytes
unfolding put_record
put_records [] = []
put_records (r ∷ rs) = put_record r ++ put_records rs

-- what `save_snapshot` writes of each entry of the keyspace
unfoldable pub records_of : Db → Expiry → List Record
records_of [] e = []
records_of ((key, entry) ∷ db) e =
    record { key = key; at_ms = Expiry.expiry_at key e; entry = entry } ∷ records_of db e

unfoldable pub snapshot_of : Db → Expiry → Bytes
unfolding put_records records_of
snapshot_of db e = magic ++ (put_u64 (length db) ++ put_records (records_of db e))

-- How the writing of a file goes: the file is not opened, or the stream fails when these bytes have
-- reached the file, or all bytes reach it.
pub data Writing : Type 0 where
  refused : Writing
  fails_at : ℕ → Writing
  done : Writing

-- The error, if any, and the file.
unfoldable pub save_snapshot :
    Writing → Bytes → Db → Expiry → Option Bytes → Option Bytes × Option Bytes
unfolding snapshot_of
save_snapshot refused path db e file =
    (some (codes "cannot open '" ++ path ++ codes "' for writing"), file)
save_snapshot (fails_at n) path db e file =
    (some (codes "write failed for '" ++ path ++ codes "'"), some (take n (snapshot_of db e)))
save_snapshot done path db e file = (none, some (snapshot_of db e))

unfoldable pub get_deadline : ℕ → Reader (Option ℤ)
unfolding get_uint
get_deadline zero = pure none
get_deadline (suc n) = get_i64 >>= λ at. pure (some at)

-- the `for` loop over the elements of a list, with the rounds that are left
unfoldable pub get_elements : ℕ → Reader (List Bytes)
unfolding get_bytes
get_elements zero = pure []
get_elements (suc n) = do x ← get_bytes; l ← get_elements n; pure (x ∷ l)

unfoldable pub get_value : ℕ → Reader Entry
unfolding get_bytes get_elements get_uint
get_value zero = get_bytes >>= λ s. pure (str s)
get_value (suc tag) = do n ← get_u32; l ← get_elements n; pure (list l)

-- an entry behind its `has_ttl`
unfoldable pub get_body : ℕ → Bytes → ℕ → Reader Record
unfolding get_deadline get_value
get_body tag key has_ttl = do
  at ← get_deadline has_ttl
  entry ← get_value tag
  pure (record { key = key; at_ms = at; entry = entry })

-- an entry behind its type
unfoldable pub get_named : ℕ → Reader Record
unfolding get_uint get_bytes get_body
get_named tag = do
  key ← get_bytes
  has_ttl ← get_u8
  if ltb 1 has_ttl then fail else get_body tag key has_ttl

-- what one round of the loop in `load_snapshot` reads
unfoldable pub get_record : Reader Record
unfolding get_uint get_named
get_record = do tag ← get_u8; if ltb 1 tag then fail else get_named tag

-- `if (has_ttl) expiry.set_expiry(key, at_ms);`
abbrev pub set_deadline : Bytes → Option ℤ → Expiry → Expiry
set_deadline key none e = e
set_deadline key (some at) e = Expiry.set_expiry key at e

-- The error, if any, the keyspace and the deadlines. An error leaves what was restored before it.
pub record Loaded : Type 0 where
  pub error : Option Bytes
  pub db : Db
  pub expiry : Expiry

-- the loop over the entries, with the rounds that are left and the number of the entry
unfoldable pub load_records : ℕ → ℕ → Bytes → Db → Expiry → Loaded
unfolding get_record
load_records zero i s db e = record { error = none; db = db; expiry = e }
load_records (suc n) i s db e = elim (get_record s) [
  | none ↦ record {
    error = some (codes "corrupt snapshot entry " ++ to_string i);
    db = db;
    expiry = e;
  }
  | some (r, rest) ↦
      load_records n (suc i) rest (restore_entry r.key r.entry db) (set_deadline r.key r.at_ms e)
]

abbrev pub load_counted : Option (ℕ × Bytes) → Db → Expiry → Loaded
load_counted none db e = record {
  error = some (codes "truncated snapshot header");
  db = db;
  expiry = e;
}
load_counted (some (count, rest)) db e = load_records count 0 rest db e

abbrev pub bad_magic : Bytes → Db → Expiry → Loaded
bad_magic path db e = record {
  error = some (codes "bad snapshot magic in '" ++ path ++ codes "'");
  db = db;
  expiry = e;
}

abbrev pub load_opened : Bytes → Option (Bytes × Bytes) → Db → Expiry → Loaded
load_opened path none db e = bad_magic path db e
load_opened path (some (head, rest)) db e =
    if bytes_eq head magic then load_counted (get_u64 rest) db e else bad_magic path db e

-- `none` is a file that cannot be opened.
unfoldable pub load_snapshot : Bytes → Option Bytes → Db → Expiry → Loaded
unfolding get_raw get_uint load_records
load_snapshot path none db e = record {
  error = some (codes "cannot open '" ++ path ++ codes "'");
  db = db;
  expiry = e;
}
load_snapshot path (some file) db e = load_opened path (get_raw 4 file) db e

-- ===== src/Persist/Wal/Paths.antt =====
-- Where the snapshot stands beside the log: Wal::dir and Wal::snapshot_path of src/persist/wal.cpp.
use hermitdb.Prelude.{ℕ, [], ◌∷◌, ◌++◌, Option, none, some, Bytes, codes, ◌==◌, if◌then◌else◌}

abbrev pub behind : ℕ → Option Bytes → Option Bytes
behind c (some front) = some (c ∷ front)
behind c none = if c == b'/' then some [] else none

-- what stands in front of the last '/': `find_last_of` and `substr`
unfoldable pub before_slash : Bytes → Option Bytes
before_slash [] = none
before_slash (c ∷ path) = behind c (before_slash path)

abbrev pub dir_of : Option Bytes → Bytes
dir_of none = codes "."
dir_of (some []) = codes "/"
dir_of (some (c ∷ front)) = c ∷ front

-- Wal::dir, from the log's path
unfoldable pub dir : Bytes → Bytes
unfolding before_slash
dir path = dir_of (before_slash path)

-- Wal::snapshot_path
unfoldable pub snapshot_beside : Bytes → Bytes
unfolding dir
snapshot_beside path = dir path ++ codes "/snapshot.hdb"

-- ===== src/Config.antt =====
-- Command-line flags: src/util/config.h and config.cpp.
pub mod Numbers
pub mod Accepted
pub mod Printed
mod Tests
use hermitdb.Prelude.{
  ℕ, zero, suc, ◌+◌, ◌*◌, ◌^◌, List, [], ◌∷◌, ◌++◌, Option, none, some, Bytes, codes, Bool, true,
  false, not, ltb, ◌==◌, ◌||◌, ◌&&◌, bytes_eq, if◌then◌else◌,
}
use hermitdb.Persist.Wal.{FsyncPolicy, always, every_sec, no_fsync}
use Numbers.{parse_u64}

pub data Level : Type 0 where
  debug info warn error : Level

pub record Config : Type 0 where
  pub port : ℕ
  pub nthreads : ℕ
  pub data_dir : Bytes
  pub wal_enabled : Bool
  pub fsync : Option FsyncPolicy
  pub max_frame_bytes : ℕ
  pub max_clients : ℕ
  pub log_level : Level

abbrev pub defaults : Config
defaults = record {
  port = 6380;
  nthreads = 1;
  data_dir = codes "./data";
  wal_enabled = false;
  fsync = none;
  max_frame_bytes = 64 * 2 ^ 20;
  max_clients = 10000;
  log_level = info;
}

abbrev pub wal_path : Config → Bytes
wal_path cfg = cfg.data_dir ++ codes "/wal.resp"

abbrev pub snapshot_path : Config → Bytes
snapshot_path cfg = cfg.data_dir ++ codes "/snapshot.hdb"

-- the three bytes of a dash in UTF-8
abbrev long_dash : Bytes
long_dash = 226 ∷ 128 ∷ 148 ∷ []

abbrev line : Bytes → Bytes
line s = s ++ 10 ∷ []

-- kUsage
abbrev usage : Bytes
usage =
    line (codes "hermitdb " ++ long_dash ++ codes " RESP2-compatible in-memory KV store")
    ++ line []
    ++ line (codes "  --port=N            listen port (default 6380)")
    ++ line (codes "  --threads=N         worker threads; >1 requires CP5 (default 1)")
    ++ line (codes "  --data-dir=PATH     WAL + snapshot directory (default ./data)")
    ++ line (codes "  --wal               enable write-ahead logging (requires --fsync)")
    ++ line (codes "  --fsync=POLICY      always | everysec | no  (no default: DECISION-2)")
    ++ line (codes "  --max-frame-bytes=N reject RESP frames larger than N (default 64MiB)")
    ++ line (codes "  --max-clients=N     concurrent connection cap (default 10000)")
    ++ line (codes "  --log-level=LEVEL   debug | info | warn | error (default info)")
    ++ line (codes "  --help              this text")

-- What the parser of the flags returns: the error text, or the configuration.
pub data Parsed : Type 0 where
  refused : Bytes → Parsed
  accepted : Config → Parsed

-- the bytes before the first '=', and those behind it, which may be none
unfoldable pub cut_equals : Bytes → Bytes × Bytes
cut_equals [] = ([], [])
cut_equals (c ∷ s) =
    let (key, value) = cut_equals s in if c == b'=' then ([], s) else (c ∷ key, value)

-- `none` where the argument does not start with two dashes
unfoldable pub split_flag : Bytes → Option (Bytes × Bytes)
unfolding cut_equals
split_flag (c ∷ d ∷ s) = if c == b'-' && d == b'-' then some (cut_equals s) else none
split_flag _ = none

abbrev port_flag : Config → Option ℕ → Parsed
port_flag cfg none = refused (codes "--port must be 1..65535")
port_flag cfg (some n) =
    if n == 0 || ltb 65535 n
    then refused (codes "--port must be 1..65535")
    else accepted (record cfg { port = n })

abbrev threads_flag : Config → Option ℕ → Parsed
threads_flag cfg none = refused (codes "--threads must be 1..256")
threads_flag cfg (some n) =
    if n == 0 || ltb 256 n
    then refused (codes "--threads must be 1..256")
    else accepted (record cfg { nthreads = n })

abbrev data_dir_flag : Config → Bytes → Parsed
data_dir_flag cfg [] = refused (codes "--data-dir needs a path")
data_dir_flag cfg (c ∷ s) = accepted (record cfg { data_dir = c ∷ s })

abbrev fsync_flag : Config → Bytes → Parsed
fsync_flag cfg value =
    if bytes_eq value (codes "always")
    then accepted (record cfg { fsync = some always })
    else if bytes_eq value (codes "everysec")
    then accepted (record cfg { fsync = some every_sec })
    else if bytes_eq value (codes "no")
    then accepted (record cfg { fsync = some no_fsync })
    else refused (codes "--fsync must be always|everysec|no")

abbrev frame_flag : Config → Option ℕ → Parsed
frame_flag cfg none = refused (codes "--max-frame-bytes must be >= 1024")
frame_flag cfg (some n) =
    if ltb n 1024
    then refused (codes "--max-frame-bytes must be >= 1024")
    else accepted (record cfg { max_frame_bytes = n })

abbrev clients_flag : Config → Option ℕ → Parsed
clients_flag cfg none = refused (codes "--max-clients must be 1..1000000")
clients_flag cfg (some n) =
    if n == 0 || ltb 1000000 n
    then refused (codes "--max-clients must be 1..1000000")
    else accepted (record cfg { max_clients = n })

abbrev level_flag : Config → Bytes → Parsed
level_flag cfg value =
    if bytes_eq value (codes "debug")
    then accepted (record cfg { log_level = debug })
    else if bytes_eq value (codes "info")
    then accepted (record cfg { log_level = info })
    else if bytes_eq value (codes "warn")
    then accepted (record cfg { log_level = warn })
    else if bytes_eq value (codes "error")
    then accepted (record cfg { log_level = error })
    else refused (codes "--log-level must be debug|info|warn|error")

-- the body of the loop over the arguments, behind `split_flag`
unfoldable pub set_flag : Config → Bytes → Bytes → Parsed
set_flag cfg key value =
    if bytes_eq key (codes "help")
    then refused usage
    else if bytes_eq key (codes "port")
    then port_flag cfg (parse_u64 value)
    else if bytes_eq key (codes "threads")
    then threads_flag cfg (parse_u64 value)
    else if bytes_eq key (codes "data-dir")
    then data_dir_flag cfg value
    else if bytes_eq key (codes "wal")
    then accepted (record cfg { wal_enabled = true })
    else if bytes_eq key (codes "fsync")
    then fsync_flag cfg value
    else if bytes_eq key (codes "max-frame-bytes")
    then frame_flag cfg (parse_u64 value)
    else if bytes_eq key (codes "max-clients")
    then clients_flag cfg (parse_u64 value)
    else if bytes_eq key (codes "log-level")
    then level_flag cfg value
    else refused (codes "unknown flag '--" ++ key ++ codes "'" ++ 10 ∷ 10 ∷ [] ++ usage)

unfoldable pub read_flag : Config → Bytes → Option (Bytes × Bytes) → Parsed
unfolding set_flag
read_flag cfg arg none =
    refused (codes "unexpected argument '" ++ arg ++ codes "'" ++ 10 ∷ 10 ∷ [] ++ usage)
read_flag cfg arg (some (key, value)) = set_flag cfg key value

-- what follows a flag that was accepted
abbrev pub and_then : Parsed → (Config → Parsed) → Parsed
and_then (refused e) f = refused e
and_then (accepted cfg) f = f cfg

abbrev pub is_given : Option FsyncPolicy → Bool
is_given none = false
is_given (some p) = true

-- what stands behind the loop
unfoldable pub checked_wal : Config → Parsed
checked_wal cfg =
    if cfg.wal_enabled && not (is_given cfg.fsync)
    then refused
        (codes "--wal requires an explicit --fsync=always|everysec|no (DECISION-2 is unresolved)")
    else accepted cfg

unfoldable pub parse_args : List Bytes → Config → Parsed
unfolding split_flag read_flag checked_wal
parse_args [] cfg = checked_wal cfg
parse_args (arg ∷ args) cfg =
    and_then (read_flag cfg arg (split_flag arg)) (λ cfg'. parse_args args cfg')

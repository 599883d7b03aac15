-- ===== src/Config/Printed.antt =====
-- Flags that spell a configuration: src/util/config.cpp.
use hermitdb.Prelude.{
  ℕ, ◌^◌, ◌<◌, ◌≤◌, ◌≡◌, ◌≢◌, refl, List, [], ◌∷◌, ◌++◌, Option, none, some, Bytes, codes, Bool,
  true, false, bytes_eq, arith, ap, ◌∙◌,
}
use hermitdb.Protocol.Decimal.{to_string}
use hermitdb.Persist.Wal.{FsyncPolicy, always, every_sec, no_fsync}
use hermitdb.Config.{
  Config, defaults, Level, debug, info, warn, error, Parsed, accepted, read_flag, split_flag,
  and_then, is_given, parse_args, port_flag, threads_flag, frame_flag, clients_flag,
}
use hermitdb.Config.Numbers.{parse_u64-to_string}
use hermitdb.Config.Accepted.{IsValid}

-- "--key=value"
abbrev pub flag : Bytes → Bytes → Bytes
flag key value = codes "--" ++ (key ++ b'=' ∷ value)

abbrev level_name : Level → Bytes
level_name debug = codes "debug"
level_name info = codes "info"
level_name warn = codes "warn"
level_name error = codes "error"

abbrev fsync_flags : Option FsyncPolicy → List Bytes
fsync_flags none = []
fsync_flags (some always) = flag (codes "fsync") (codes "always") ∷ []
fsync_flags (some every_sec) = flag (codes "fsync") (codes "everysec") ∷ []
fsync_flags (some no_fsync) = flag (codes "fsync") (codes "no") ∷ []

abbrev wal_flags : Bool → List Bytes
wal_flags true = codes "--wal" ∷ []
wal_flags false = []

-- The flags that spell a configuration.
unfoldable pub flags_of : Config → List Bytes
flags_of cfg =
    flag (codes "port") (to_string cfg.port)
    ∷ flag (codes "threads") (to_string cfg.nthreads)
    ∷ flag (codes "data-dir") cfg.data_dir
    ∷ flag (codes "max-frame-bytes") (to_string cfg.max_frame_bytes)
    ∷ flag (codes "max-clients") (to_string cfg.max_clients)
    ∷ flag (codes "log-level") (level_name cfg.log_level)
    ∷ (fsync_flags cfg.fsync ++ wal_flags cfg.wal_enabled)

-- one flag
abbrev flag_step : Config → Bytes → Parsed
flag_step cfg arg = read_flag cfg arg (split_flag arg)

module _ (cfg : Config) where
  step-port :
      (n : ℕ)
      → 0 < n
      → n ≤ 65535
      → flag_step cfg (flag (codes "port") (to_string n)) ≡ accepted (record cfg { port = n })
  unfolding read_flag split_flag bytes_eq
  step-port n lo hi = ap (port_flag cfg) (parse_u64-to_string n (omega arith)) ∙ ground arith

  step-threads :
      (n : ℕ)
      → 0 < n
      → n ≤ 256
      → flag_step cfg (flag (codes "threads") (to_string n))
        ≡ accepted (record cfg { nthreads = n })
  unfolding read_flag split_flag bytes_eq
  step-threads n lo hi = ap (threads_flag cfg) (parse_u64-to_string n (omega arith)) ∙ ground arith

  step-data_dir :
      (s : Bytes)
      → s ≢ []
      → flag_step cfg (flag (codes "data-dir") s) ≡ accepted (record cfg { data_dir = s })
  unfolding read_flag split_flag bytes_eq
  step-data_dir [] ne = absurd (ne refl)
  step-data_dir (c ∷ s) ne = refl

  step-frame :
      (n : ℕ)
      → 1024 ≤ n
      → n < 2 ^ 64
      → flag_step cfg (flag (codes "max-frame-bytes") (to_string n))
        ≡ accepted (record cfg { max_frame_bytes = n })
  unfolding read_flag split_flag bytes_eq
  step-frame n lo hi = ap (frame_flag cfg) (parse_u64-to_string n hi) ∙ ground arith

  step-clients :
      (n : ℕ)
      → 0 < n
      → n ≤ 1000000
      → flag_step cfg (flag (codes "max-clients") (to_string n))
        ≡ accepted (record cfg { max_clients = n })
  unfolding read_flag split_flag bytes_eq
  step-clients n lo hi = ap (clients_flag cfg) (parse_u64-to_string n (omega arith)) ∙ ground arith

  step-level :
      (l : Level)
      → flag_step cfg (flag (codes "log-level") (level_name l))
        ≡ accepted (record cfg { log_level = l })
  unfolding read_flag split_flag bytes_eq
  step-level debug = refl
  step-level info = refl
  step-level warn = refl
  step-level error = refl

  -- the flags of the log, which come last
  parse_args-wal :
      (p : Option FsyncPolicy) (w : Bool)
      → (w ≡ true → is_given p ≡ true)
      → parse_args (fsync_flags p ++ wal_flags w) (record cfg { fsync = none; wal_enabled = false })
        ≡ accepted (record cfg { fsync = p; wal_enabled = w })
  unfolding parse_args bytes_eq
  parse_args-wal none true need = cc (need refl)
  parse_args-wal none false need = refl
  parse_args-wal (some always) true need = refl
  parse_args-wal (some every_sec) true need = refl
  parse_args-wal (some no_fsync) true need = refl
  parse_args-wal (some always) false need = refl
  parse_args-wal (some every_sec) false need = refl
  parse_args-wal (some no_fsync) false need = refl

  parse_args-next :
      (arg : Bytes) (args : List Bytes) (cfg' : Config) (r : Parsed)
      → flag_step cfg arg ≡ accepted cfg'
      → parse_args args cfg' ≡ r
      → parse_args (arg ∷ args) cfg ≡ r
  unfolding parse_args
  parse_args-next arg args cfg' r h k = ap (λ p. and_then p (λ c. parse_args args c)) h ∙ k

-- The flags that spell a configuration with valid values, in which logging is enabled only with a
-- policy for fsync, are parsed from the defaults as that configuration.
pub parse_args-flags_of :
    (cfg : Config)
    → IsValid cfg
    → (cfg.wal_enabled ≡ true → is_given cfg.fsync ≡ true)
    → parse_args (flags_of cfg) defaults ≡ accepted cfg
unfolding flags_of
parse_args-flags_of cfg v need =
    parse_args-next _ _ _ _ _ (step-port defaults cfg.port v.port_pos v.port_max) (
      parse_args-next _ _ _ _ _ (step-threads _ cfg.nthreads v.threads_pos v.threads_max) (
        parse_args-next _ _ _ _ _ (step-data_dir _ cfg.data_dir v.has_dir) (
          parse_args-next _ _ _ _ _ (step-frame _ cfg.max_frame_bytes v.frame_min v.frame_max) (
            parse_args-next _ _ _ _ _ (step-clients _ cfg.max_clients v.clients_pos v.clients_max) (
              parse_args-next _ _ _ _ _ (step-level _ cfg.log_level)
                (parse_args-wal cfg cfg.fsync cfg.wal_enabled need))))))

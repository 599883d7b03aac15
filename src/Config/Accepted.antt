-- ===== src/Config/Accepted.antt =====
-- What holds of a configuration that was accepted.
use hermitdb.Prelude.{
  ℕ, ◌^◌, ◌<◌, ◌≤◌, ◌≡◌, ◌≢◌, refl, List, [], ◌∷◌, Option, none, some, Bytes, codes, Bool, true,
  false, bytes_eq, if◌then◌else◌, arith,
}
use hermitdb.Config.{
  Config, defaults, Parsed, refused, accepted, port_flag, threads_flag, data_dir_flag, fsync_flag,
  frame_flag, clients_flag, level_flag, set_flag, read_flag, split_flag, and_then, is_given,
  parse_args,
}
use hermitdb.Config.Numbers.{parse_u64, parse_u64-lt}

-- The values are in the ranges that the usage text and the error texts name, and fit their types.
pub record IsValid (cfg : Config) : Type 0 where
  pub port_pos : 0 < cfg.port
  pub port_max : cfg.port ≤ 65535
  pub threads_pos : 0 < cfg.nthreads
  pub threads_max : cfg.nthreads ≤ 256
  pub has_dir : cfg.data_dir ≢ []
  pub frame_min : 1024 ≤ cfg.max_frame_bytes
  pub frame_max : cfg.max_frame_bytes < 2 ^ 64
  pub clients_pos : 0 < cfg.max_clients
  pub clients_max : cfg.max_clients ≤ 1000000

pub defaults-IsValid : IsValid defaults
defaults-IsValid = record {
  port_pos = omega arith;
  port_max = omega arith;
  threads_pos = omega arith;
  threads_max = omega arith;
  has_dir = λ h. cc;
  frame_min = omega arith;
  frame_max = omega arith;
  clients_pos = omega arith;
  clients_max = omega arith;
}

module _ (cfg cfg' : Config) (v : IsValid cfg) where
  port-IsValid : (o : Option ℕ) → port_flag cfg o ≡ accepted cfg' → IsValid cfg'
  port-IsValid none h = cc
  port-IsValid (some n) h = ground arith

  threads-IsValid : (o : Option ℕ) → threads_flag cfg o ≡ accepted cfg' → IsValid cfg'
  threads-IsValid none h = cc
  threads-IsValid (some n) h = ground arith

  data_dir-IsValid : (s : Bytes) → data_dir_flag cfg s ≡ accepted cfg' → IsValid cfg'
  data_dir-IsValid [] h = cc
  data_dir-IsValid (c ∷ s) h = ground arith

  wal-IsValid : accepted (record cfg { wal_enabled = true }) ≡ accepted cfg' → IsValid cfg'
  wal-IsValid h = ground arith

  fsync-IsValid : (s : Bytes) → fsync_flag cfg s ≡ accepted cfg' → IsValid cfg'
  fsync-IsValid s h = ground arith

  frame-IsValid :
      (o : Option ℕ)
      → ((n : ℕ) → o ≡ some n → n < 2 ^ 64)
      → frame_flag cfg o ≡ accepted cfg'
      → IsValid cfg'
  frame-IsValid none small h = cc
  frame-IsValid (some n) small h = ground (arith, small n refl)

  clients-IsValid : (o : Option ℕ) → clients_flag cfg o ≡ accepted cfg' → IsValid cfg'
  clients-IsValid none h = cc
  clients-IsValid (some n) h = ground arith

  level-IsValid : (s : Bytes) → level_flag cfg s ≡ accepted cfg' → IsValid cfg'
  level-IsValid s h = ground arith

  -- whichever branch was taken
  branch :
      (c : Bool) {a b : Parsed}
      → (if c then a else b) ≡ accepted cfg'
      → (a ≡ accepted cfg' → IsValid cfg')
      → (b ≡ accepted cfg' → IsValid cfg')
      → IsValid cfg'
  branch true h f g = f h
  branch false h f g = g h

  set_flag-IsValid : (key value : Bytes) → set_flag cfg key value ≡ accepted cfg' → IsValid cfg'
  unfolding set_flag
  set_flag-IsValid key value h =
      let is : Bytes → Bool = λ name. bytes_eq key name in
      branch (is (codes "help")) h (λ e. cc)
        (λ h₁. branch (is (codes "port")) h₁ (port-IsValid (parse_u64 value)) (λ h₂.
          branch (is (codes "threads")) h₂ (threads-IsValid (parse_u64 value)) (λ h₃.
            branch (is (codes "data-dir")) h₃ (data_dir-IsValid value) (λ h₄.
              branch (is (codes "wal")) h₄ wal-IsValid (λ h₅.
                branch (is (codes "fsync")) h₅ (fsync-IsValid value) (λ h₆.
                  branch (is (codes "max-frame-bytes")) h₆
                    (frame-IsValid (parse_u64 value) (λ n. parse_u64-lt value n))
                    (λ h₇.
                      branch (is (codes "max-clients")) h₇ (clients-IsValid (parse_u64 value))
                        (λ h₈.
                          branch (is (codes "log-level")) h₈ (level-IsValid value) (λ e. cc)))))))))

  read_flag-IsValid :
      (arg : Bytes) (o : Option (Bytes × Bytes))
      → read_flag cfg arg o ≡ accepted cfg'
      → IsValid cfg'
  unfolding read_flag
  read_flag-IsValid arg none h = cc
  read_flag-IsValid arg (some (key, value)) h = set_flag-IsValid key value h

and_then-accepted :
    (p : Parsed) (f : Config → Parsed) (cfg' : Config)
    → and_then p f ≡ accepted cfg'
    → (cfg : Config) × (p ≡ accepted cfg) × (f cfg ≡ accepted cfg')
and_then-accepted (refused e) f cfg' h = cc
and_then-accepted (accepted cfg) f cfg' h = (cfg, refl, h)

-- From a configuration with valid values, arguments that are accepted give one with valid values, in
-- which logging is enabled only with a policy for fsync.
pub parse_args-IsValid :
    (args : List Bytes) (cfg cfg' : Config)
    → IsValid cfg
    → parse_args args cfg ≡ accepted cfg'
    → IsValid cfg' × (cfg'.wal_enabled ≡ true → is_given cfg'.fsync ≡ true)
unfolding parse_args
parse_args-IsValid [] cfg cfg' v h = (ground arith, ground arith)
parse_args-IsValid (arg ∷ args) cfg cfg' v h =
    let (mid, first, rest) =
      and_then-accepted (read_flag cfg arg (split_flag arg)) (λ c. parse_args args c) cfg' h in
    parse_args-IsValid args mid cfg' (read_flag-IsValid cfg mid v arg (split_flag arg) first) rest

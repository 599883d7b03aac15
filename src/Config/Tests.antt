-- ===== src/Config/Tests.antt =====
-- Flags at concrete input.
use hermitdb.Prelude.{
  ◌^◌, ◌-◌, ◌%◌, ◌≡◌, refl, List, [], ◌∷◌, Bytes, codes, some, true, arith, bytes_eq,
}
use hermitdb.Protocol.Decimal.{to_string}
use hermitdb.Persist.Wal.{always}
use hermitdb.Config.{
  Config, defaults, accepted, is_given, parse_args, split_flag, cut_equals, read_flag, set_flag,
  checked_wal,
}
use hermitdb.Config.Numbers.{parse_u64, parse_u64-minus}
use hermitdb.Config.Accepted.{IsValid, defaults-IsValid, parse_args-IsValid}
use hermitdb.Config.Printed.{flags_of, parse_args-flags_of}

abbrev logging : Config
logging = record defaults { wal_enabled = true; fsync = some always }

abbrev logging_flags : List Bytes
logging_flags = codes "--wal" ∷ codes "--fsync=always" ∷ []

parse-logging : parse_args logging_flags defaults ≡ accepted logging
unfolding parse_args split_flag cut_equals read_flag set_flag checked_wal bytes_eq
parse-logging = refl

parse_args-IsValid_example :
    IsValid logging × (logging.wal_enabled ≡ true → is_given logging.fsync ≡ true)
parse_args-IsValid_example =
    parse_args-IsValid logging_flags defaults logging defaults-IsValid parse-logging

logging-IsValid : IsValid logging
logging-IsValid =
    (parse_args-IsValid logging_flags defaults logging defaults-IsValid parse-logging).0

parse_args-flags_of_example : parse_args (flags_of logging) defaults ≡ accepted logging
parse_args-flags_of_example = parse_args-flags_of logging logging-IsValid (λ h. refl)

-- `--port=-18446744073709551615` is port 1.
parse_u64-minus_example :
    parse_u64 (b'-' ∷ to_string 18446744073709551615)
    ≡ some ((2 ^ 64 - 18446744073709551615) % 2 ^ 64)
parse_u64-minus_example = parse_u64-minus 18446744073709551615 (omega arith)

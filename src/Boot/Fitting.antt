-- ===== src/Boot/Fitting.antt =====
-- The sizes of the log's records: log_mutation of src/core/commands.cpp and the limits of the parser
-- that replays them.
use hermitdb.Prelude.{
  ℕ, ◌≤◌, ◌+◌, List, [], ◌∷◌, ◌++◌, none, Bytes, codes, crlf, Bool, true, false, arith, bytes_eq,
  if◌then◌else◌, length,
}
use hermitdb.Protocol.Parser.{Command}
use hermitdb.Persist.Encoding.{Fits, AllFit, ArgsFit}
use hermitdb.Core.Dispatch.{
  LogRule, log_set, log_expire, log_persist, log_del, log_counted, log_popped, log_flushed,
  log_nothing, records_of, is_error, is_integer,
}
use hermitdb.Core.Logged.{logged_records}

module _ {n : ℕ} (room : 9 ≤ n) where
  choose-AllFit :
      (b : Bool) (rs qs : List Command)
      → AllFit n rs
      → AllFit n qs
      → AllFit n (if b then rs else qs)
  choose-AllFit true rs qs p q = p
  choose-AllFit false rs qs p q = q

  Fits-set :
      (key value : Bytes) → ArgsFit n (key ∷ value ∷ []) → Fits n (codes "SET" ∷ key ∷ value ∷ [])
  Fits-set key value (k, v) = record {
    present = omega arith;
    few = omega arith;
    framed = omega arith;
    args_fit = (omega arith, (k, v));
  }

  Fits-named :
      (name key : Bytes) → length name + 2 ≤ n → length key + 2 ≤ n → Fits n (name ∷ key ∷ [])
  Fits-named name key p k = record {
    present = omega arith;
    few = omega arith;
    framed = omega arith;
    args_fit = (p, (k, tt));
  }

  records_of-AllFit :
      (rule : LogRule) (cmd : Command) (reply : Bytes)
      → Fits n cmd
      → AllFit n (records_of rule cmd reply none)
  unfolding records_of
  records_of-AllFit log_set [] reply fits = tt
  records_of-AllFit log_set (c ∷ []) reply fits = tt
  records_of-AllFit log_set (c ∷ key ∷ []) reply fits = tt
  records_of-AllFit log_set (c ∷ key ∷ value ∷ options) reply fits =
      let (_, (k, (v, _))) = fits.args_fit in
      choose-AllFit (bytes_eq reply (codes "+OK" ++ crlf)) _ []
        (Fits-set key value (k, (v, tt)), tt) tt
  records_of-AllFit log_expire [] reply fits = tt
  records_of-AllFit log_expire (c ∷ []) reply fits = tt
  records_of-AllFit log_expire (c ∷ key ∷ args) reply fits =
      choose-AllFit (bytes_eq reply (codes ":1" ++ crlf)) _ []
        (Fits-named (codes "DEL") key (omega arith) fits.args_fit.1.0, tt) tt
  records_of-AllFit log_persist [] reply fits = tt
  records_of-AllFit log_persist (c ∷ []) reply fits = tt
  records_of-AllFit log_persist (c ∷ key ∷ args) reply fits =
      choose-AllFit (bytes_eq reply (codes ":1" ++ crlf)) _ []
        (Fits-named (codes "PERSIST") key (omega arith) fits.args_fit.1.0, tt) tt
  records_of-AllFit log_del cmd reply fits =
      choose-AllFit (bytes_eq reply (codes ":0" ++ crlf)) [] _ tt (fits, tt)
  records_of-AllFit log_counted cmd reply fits = choose-AllFit (is_integer reply) _ [] (fits, tt) tt
  records_of-AllFit log_popped cmd reply fits =
      choose-AllFit (bytes_eq reply (codes "$-1" ++ crlf)) [] _ tt (fits, tt)
  records_of-AllFit log_flushed cmd reply fits =
      choose-AllFit (bytes_eq reply (codes "+OK" ++ crlf)) _ [] (fits, tt) tt
  records_of-AllFit log_nothing cmd reply fits = tt

  -- the records of a command that fits
  pub logged_records-AllFit :
      (rule : LogRule) (cmd : Command) (reply : Bytes)
      → Fits n cmd
      → AllFit n (logged_records rule cmd reply)
  unfolding logged_records
  logged_records-AllFit rule cmd reply fits =
      choose-AllFit (is_error reply) [] _ tt (records_of-AllFit rule cmd reply fits)

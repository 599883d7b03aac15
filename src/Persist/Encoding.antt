-- ===== src/Persist/Encoding.antt =====
-- The encoding of a log record: Wal::encode of src/persist/wal.cpp.
pub mod Whole
pub mod Torn
use hermitdb.Prelude.{
  ℕ, ◌+◌, ◌≤◌, ◌<◌, List, [], ◌∷◌, ◌++◌, ◌≡◌, ◌≢◌, Bytes, crlf, length, refl, append_assoc,
}
use hermitdb.Protocol.Decimal.{to_string}
use hermitdb.Protocol.Parser.{Command, max_args}

-- `out += "$" + std::to_string(arg.size()) + "\r\n"; out += arg; out += "\r\n";`
abbrev pub encode_arg : Bytes → Bytes
encode_arg arg = (b'$' ∷ to_string (length arg)) ++ crlf ++ arg ++ crlf

unfoldable pub encode_args : List Bytes → Bytes
encode_args [] = []
encode_args (arg ∷ args) = encode_arg arg ++ encode_args args

abbrev pub argc_line : Command → Bytes
argc_line cmd = (b'*' ∷ to_string (length cmd)) ++ crlf

unfoldable pub encode : Command → Bytes
unfolding encode_args
encode cmd = argc_line cmd ++ encode_args cmd

-- a log that holds these records
unfoldable pub encode_all : List Command → Bytes
encode_all [] = []
encode_all (c ∷ cs) = encode c ++ encode_all cs

-- Every argument fits the frame limit with its CRLF, as the parser demands.
abbrev pub ArgsFit : ℕ → List Bytes → Type 0
ArgsFit max_frame [] = Unit
ArgsFit max_frame (a ∷ rest) = (length a + 2 ≤ max_frame) × ArgsFit max_frame rest

-- A command that the parser accepts under this frame limit.
pub record Fits (max_frame : ℕ) (cmd : Command) : Type 0 where
  pub present : 0 < length cmd
  pub few : length cmd ≤ max_args
  pub framed : length cmd ≤ max_frame
  pub args_fit : ArgsFit max_frame cmd

abbrev pub AllFit : ℕ → List Command → Type 0
AllFit max_frame [] = Unit
AllFit max_frame (c ∷ cs) = Fits max_frame c × AllFit max_frame cs

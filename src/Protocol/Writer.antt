-- ===== src/Protocol/Writer.antt =====
-- Reply serialisation: src/protocol/resp_writer.cpp. Each function returns the framed bytes.
use hermitdb.Prelude.{List, [], ◌∷◌, ◌++◌, Bytes, crlf, length}
use hermitdb.Prelude.Int.{ℤ}
use hermitdb.Protocol.Decimal.{to_string, to_string_i64}

unfoldable pub simple : Bytes → Bytes
simple s = b'+' ∷ s ++ crlf

unfoldable pub error : Bytes → Bytes
error msg = b'-' ∷ msg ++ crlf

unfoldable pub integer : ℤ → Bytes
integer n = b':' ∷ to_string_i64 n ++ crlf

unfoldable pub bulk : Bytes → Bytes
bulk payload = b'$' ∷ to_string (length payload) ++ crlf ++ payload ++ crlf

unfoldable pub null_bulk : Bytes
null_bulk = b'$' ∷ b'-' ∷ b'1' ∷ crlf

-- `for (const auto& e : encoded_elements) out += e;`
unfoldable pub concat : List Bytes → Bytes
concat [] = []
concat (e ∷ es) = e ++ concat es

unfoldable pub array : List Bytes → Bytes
array encoded = b'*' ∷ to_string (length encoded) ++ crlf ++ concat encoded

unfoldable pub null_array : Bytes
null_array = b'*' ∷ b'-' ∷ b'1' ∷ crlf

unfoldable pub empty_array : Bytes
empty_array = b'*' ∷ b'0' ∷ crlf

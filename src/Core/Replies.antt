-- ===== src/Core/Replies.antt =====
-- Replies that several commands share, and the case of ASCII letters: src/core/commands.cpp.
use hermitdb.Prelude.{ℕ, ◌+◌, ◌-◌, ◌++◌, map, Bytes, codes, ◌&&◌, leb, if◌then◌else◌}
use hermitdb.Protocol.Writer.{error}

-- std::tolower and std::toupper in the C locale
abbrev pub to_lower : ℕ → ℕ
to_lower c = if leb b'A' c && leb c b'Z' then c + 32 else c

abbrev pub to_upper : ℕ → ℕ
to_upper c = if leb b'a' c && leb c b'z' then c - 32 else c

unfoldable pub lower : Bytes → Bytes
lower s = map to_lower s

unfoldable pub upper : Bytes → Bytes
upper s = map to_upper s

unfoldable pub wrong_arity : Bytes → Bytes
unfolding error
wrong_arity name = error (codes "ERR wrong number of arguments for '" ++ name ++ codes "' command")

unfoldable pub wrongtype : Bytes
unfolding error
wrongtype = error (codes "WRONGTYPE Operation against a key holding the wrong kind of value")

unfoldable pub not_an_integer : Bytes
unfolding error
not_an_integer = error (codes "ERR value is not an integer or out of range")

unfoldable pub misconf : Bytes
unfolding error
misconf = error (codes "MISCONF persistence failed; restart required")

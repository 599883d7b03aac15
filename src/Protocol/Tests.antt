-- ===== src/Protocol/Tests.antt =====
-- Runs of the parser and the writer, and the theorems at concrete input.
use hermitdb.Prelude.{
  ◌≡◌, ◌≢◌, ◌↔◌, refl, List, [], ◌∷◌, ◌++◌, Bytes, codes, crlf, some, none, arith,
}
use hermitdb.Prelude.Int.{negsuc, InRange}
use hermitdb.Protocol.Decimal.{to_string, to_string_i64, parse_i64, parse_i64-to_string_i64}
use hermitdb.Protocol.Decimal.Spelled.{Spells, parse_i64_lem}
use hermitdb.Protocol.Writer.{bulk}
use hermitdb.Protocol.Parser.{
  Command, Parser, line, initial, ready, failed, out_of_fuel, feed, run, round,
}
use hermitdb.Protocol.Parser.Lines.{take_line, cut_line, strip_cr, split_inline}
use hermitdb.Protocol.Parser.Chunks.{feed_all, feed_all-feed, feed-ne-out_of_fuel, joined}

smallest_is_read : parse_i64 (codes "-9223372036854775808") ≡ some (negsuc 9223372036854775807)
unfolding parse_i64
smallest_is_read = refl

one_more_is_refused : parse_i64 (codes "9223372036854775808") ≡ none
unfolding parse_i64
one_more_is_refused = refl

bulk_of_three : bulk (codes "a1c") ≡ codes "$3" ++ crlf ++ codes "a1c" ++ crlf
unfolding bulk to_string
bulk_of_three = refl

-- a SET in three chunks, cut inside a header, inside the payload and behind the '\r'
abbrev part_one : Bytes
part_one = codes "*2" ++ crlf ++ codes "$3" ++ crlf ++ codes "GET" ++ crlf ++ codes "$"

abbrev part_two : Bytes
part_two = codes "3" ++ crlf ++ codes "k1"

abbrev part_three : Bytes
part_three = codes "2" ++ crlf ++ codes "PING" ++ crlf

abbrev two_commands : List Command
two_commands = (codes "GET" ∷ codes "k12" ∷ []) ∷ (codes "PING" ∷ []) ∷ []

abbrev at_rest : Parser
at_rest = record { unread = []; state = line; pending_argc = 2; bulk_len = 3; args = [] }

in_three_chunks :
    feed_all 1024 initial (part_one ∷ part_two ∷ part_three ∷ []) ≡ ready at_rest two_commands
unfolding feed_all feed run round take_line cut_line strip_cr split_inline parse_i64
in_three_chunks = refl

feed_all-feed_example :
    feed 1024 initial (joined part_one (part_two ∷ part_three ∷ [])) ≡ ready at_rest two_commands
feed_all-feed_example =
    feed_all-feed 1024 initial part_one (part_two ∷ part_three ∷ []) in_three_chunks

feed-ne-out_of_fuel_example : feed 1024 initial (codes "*1000000000") ≢ out_of_fuel
feed-ne-out_of_fuel_example = feed-ne-out_of_fuel 1024 initial (codes "*1000000000")

too_many_arguments :
    feed 1024 initial (codes "*1000000000" ++ crlf)
    ≡ failed (codes "ERR Protocol error: invalid multibulk length")
unfolding feed run round take_line cut_line strip_cr parse_i64
too_many_arguments = refl

parse_i64-to_string_i64_example : parse_i64 (to_string_i64 (negsuc 122)) ≡ some (negsuc 122)
parse_i64-to_string_i64_example = parse_i64-to_string_i64 (negsuc 122) (omega arith)

parse_i64_lem_example :
    (parse_i64 (codes "-9223372036854775808") ≡ some (negsuc 9223372036854775807)) ↔ (
      Spells (codes "-9223372036854775808") (negsuc 9223372036854775807)
      × InRange (negsuc 9223372036854775807))
parse_i64_lem_example = parse_i64_lem (codes "-9223372036854775808") (negsuc 9223372036854775807)

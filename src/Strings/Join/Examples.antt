-- ===== src/Strings/Join/Examples.antt =====
-- A buffer of four bytes and the two that are checked, fed with two lines.
use ervan.Base.{false, refl, Bytes, replicate, codes, [], ◌∷◌, arith}
use ervan.Strings.Join.{LineBuffer, crlf, join}
use ervan.Strings.Join.Lines.{first_line, ends_cr}
use ervan.Strings.Join.Refines.{Holds, Joins, join-Joins}
use ervan.Strings.Join.Drains.{drain, Drains, drain-Drains}

abbrev fresh : LineBuffer
fresh = record { target = replicate 4 0; check = 0 ∷ 0 ∷ [] }

abbrev piece : Bytes
piece = codes "ab\r\nabcde\r\nc"

fresh-Holds : Holds 4 fresh 0 []
fresh-Holds = record { sized = refl; offset_is = refl; stored = refl; window = (0, 0, refl, refl) }

join-Joins_example :
    Joins 4 [] piece (first_line (ends_cr false []) piece) (join fresh piece 0 crlf)
join-Joins_example = join-Joins 4 fresh 0 [] piece fresh-Holds (omega arith)

drain-Drains_example : Drains 4 [] piece (drain 13 fresh 0 piece)
drain-Drains_example = drain-Drains 4 13 fresh 0 [] piece fresh-Holds (omega arith) (omega arith)

-- ===== src/Chess/Fen/Examples.antt =====
-- A position in text that the theorems of the FEN reader are applied to.
use novachess.Prelude.{false}
use novachess.Prelude.Text.{codes}
use novachess.Chess.Position.Examples.{keys, magics}
use novachess.Chess.Fen.{fields, parse_fen}
use novachess.Chess.Fen.Board.{Comes}
use novachess.Chess.Fen.Parsed.{Readable, NamesBackRank, parse_fen-Readable}

parse_fen-Readable_example :
    Comes
      (Readable keys magics)
      (NamesBackRank (fields (codes "4k3/8/8/8/8/8/4P3/4K2R w K - 0 1")))
      (parse_fen keys magics false (codes "4k3/8/8/8/8/8/4P3/4K2R w K - 0 1"))
parse_fen-Readable_example =
    parse_fen-Readable keys magics false (codes "4k3/8/8/8/8/8/4P3/4K2R w K - 0 1")

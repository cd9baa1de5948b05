-- ===== src/Chess/Movegen/Examples.antt =====
-- A concrete position that the theorems of the move generator are applied to.
use native.Mathlib.Omega.{arith}
use novachess.Prelude.{false, refl}
use novachess.Chess.Types.{make_piece, white, no_square}
use novachess.Chess.Position.Examples.{unhashed, unhashed-Consistent, magics}
use novachess.Chess.Movegen.{generate}
use novachess.Chess.Movegen.Origins.{Starts}
use novachess.Chess.Movegen.Generated.{generate-Starts}

-- Kings on e1 and e8, a white pawn on e2, White to move.
generate-Starts_example :
    Starts (unhashed no_square).board white (generate magics (unhashed no_square) false)
unfolding make_piece
generate-Starts_example =
    generate-Starts magics (unhashed no_square) false 4 (unhashed-Consistent no_square)
      (omega arith) (omega arith) refl

-- The king's way from e1 to g1, over f1.

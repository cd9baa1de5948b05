-- ===== src/Chess/Examples.antt =====
-- Concrete sets and moves that the theorems of the chess package are applied to.
use native.Mathlib.Omega.{arith}
use novachess.Prelude.{◌≡◌}
use novachess.Chess.Bitboard.{has, count, squares}
use novachess.Chess.Bitboard.Loop.{Rises, elem, length, squares_visits_members}

squares_visits_members_example :
    (elem 3 (squares 40) ≡ has 40 3) × (length (squares 40) ≡ count 40) × Rises 0 (squares 40)
squares_visits_members_example = squares_visits_members 40 3 (omega arith) (omega arith)

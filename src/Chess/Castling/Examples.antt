-- ===== src/Chess/Castling/Examples.antt =====
-- A concrete castling right, recorded for the king on e1 and a rook on h1.
use native.Mathlib.Omega.{arith}
use novachess.Prelude.{true, false, some, ◌≡◌, inl, refl, sym}
use novachess.Prelude.Bits.{test_bit}
use novachess.Chess.Types.{no_square, type_of, color_of}
use novachess.Chess.Bitboard.{bb, shl, first, trailing_zeros}
use novachess.Chess.Castling.{castling_color_of}
use novachess.Chess.Castling.Setup.{set_castling_right, set_castling_right-revokes}
use novachess.Chess.Position.{Position, king_square}
use novachess.Chess.Position.Examples.{unhashed}
use novachess.Chess.Position.Turn.{rights_after}

e1_king : king_square (unhashed no_square) (castling_color_of 0) ≡ 4
unfolding king_square castling_color_of first trailing_zeros bb shl type_of color_of
e1_king = refl

set_castling_right-revokes_example :
    (q : Position) × (set_castling_right (unhashed no_square) 0 7 ≡ some q)
    × (test_bit q.castling 0 ≡ true)
    × (test_bit (rights_after q 4 20) 0 ≡ false)
    × (test_bit (rights_after q 20 4) 0 ≡ false)
set_castling_right-revokes_example =
    set_castling_right-revokes (unhashed no_square) 0 7 4 20 (omega arith) (omega (arith, e1_king))
      (omega arith) (inl (sym e1_king))

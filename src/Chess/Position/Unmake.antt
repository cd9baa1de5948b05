-- ===== src/Chess/Position/Unmake.antt =====
-- `UnmakeMove` and `UnmakeNullMove` of internal/chess/position.go. `none` is a panic, also the two
-- that the code raises itself.
use novachess.Prelude.{ℕ, Option, none, some, List, [], ◌∷◌, ◌==◌, if◌then◌else◌, ◌>>=◌}
use novachess.Prelude.Int.{pos, ◌-ℤ◌}
use novachess.Chess.Types.{black, pawn, rook, king, no_piece, opposite, make_piece}
use novachess.Chess.Move.{
  kind_promotion, kind_en_passant, kind_castling, from_of, to_of, kind_of, is_none,
}
use novachess.Chess.Castling.{
  castling_index, castling_king_to, castling_rook_to, is_king_side_castling,
}
use novachess.Chess.Zobrist.{Keys}
use novachess.Chess.Position.{Position, Undo, put_piece, remove_piece, move_piece}
use novachess.Chess.Position.EnPassant.{behind}

-- The cases of the `switch`, where the side is again the one that made the move.
unfoldable pub unmake_castling : Keys → Position → ℕ → Option Position
unmake_castling z p m =
    let us = p.side in
    let idx = castling_index us (is_king_side_castling m) in
    do
      q ← remove_piece z p (castling_king_to idx)
      r ← remove_piece z q (castling_rook_to idx)
      t ← put_piece z r (make_piece us king) (from_of m)
      put_piece z t (make_piece us rook) (to_of m)

unfoldable pub unmake_en_passant : Keys → Position → ℕ → Option Position
unmake_en_passant z p m = do
  q ← move_piece z p (to_of m) (from_of m)
  put_piece z q (make_piece (opposite p.side) pawn) (behind (to_of m) p.side)

unfoldable pub put_back : Keys → Position → ℕ → ℕ → Option Position
put_back z p captured to = if captured == no_piece then some p else put_piece z p captured to

unfoldable pub unmake_promotion : Keys → Position → ℕ → ℕ → Option Position
unmake_promotion z p m captured = do
  q ← remove_piece z p (to_of m)
  r ← put_piece z q (make_piece p.side pawn) (from_of m)
  put_back z r captured (to_of m)

unfoldable pub unmake_normal : Keys → Position → ℕ → ℕ → Option Position
unmake_normal z p m captured = do
  q ← move_piece z p (to_of m) (from_of m)
  put_back z q captured (to_of m)

unfoldable pub unmake_by_kind : Keys → Position → ℕ → ℕ → Option Position
unmake_by_kind z p m captured =
    if kind_of m == kind_castling
    then unmake_castling z p m
    else if kind_of m == kind_en_passant
    then unmake_en_passant z p m
    else if kind_of m == kind_promotion
    then unmake_promotion z p m captured
    else unmake_normal z p m captured

-- The saved fields come back, and the move number that Black's move had raised.
unfoldable pub restore : Position → Undo → Position
restore p u = record p {
  fullmove = if p.side == black then p.fullmove -ℤ pos 1 else p.fullmove;
  castling = u.castling;
  ep_square = u.ep_square;
  halfmove = u.halfmove;
  key = u.key;
}

unfoldable pub step_back : Position → List Undo → Position
step_back p rest = record p { history = rest; side = opposite p.side }

unfoldable pub undo_last : Keys → Position → List Undo → Option Position
undo_last z p [] = none
undo_last z p (u ∷ rest) = do
  q ← unmake_by_kind z (step_back p rest) u.move u.captured
  some (restore q u)

unfoldable pub unmake_move : Keys → Position → Option Position
unfolding undo_last
unmake_move z p = undo_last z p p.history

unfoldable pub undo_null : Position → List Undo → Option Position
undo_null p [] = none
undo_null p (u ∷ rest) = if is_none u.move then some (restore (step_back p rest) u) else none

unfoldable pub unmake_null_move : Position → Option Position
unfolding undo_null
unmake_null_move p = undo_null p p.history

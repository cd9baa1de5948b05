-- ===== src/Chess/Position/Make.antt =====
-- `MakeMove` and `MakeNullMove` of internal/chess/position.go.
use novachess.Prelude.{
  ℕ, ◌+◌, bit_and, bit_xor, Bool, ◌||◌, Option, none, some, ◌∷◌, ltb, ◌==◌, if◌then◌else◌, ◌>>=◌,
}
use novachess.Prelude.Int.{pos, ◌+ℤ◌}
use novachess.Chess.Types.{
  black, pawn, rook, king, no_piece, no_square, no_castling, opposite, make_piece, type_of, file_of,
}
use novachess.Chess.Move.{
  move_none, kind_promotion, kind_en_passant, kind_castling, from_of, to_of, kind_of, promotion_of,
}
use novachess.Chess.Attacks.{Magics}
use novachess.Chess.Castling.{
  castling_index, castling_king_to, castling_rook_to, is_king_side_castling,
}
use novachess.Chess.Zobrist.{Keys}
use novachess.Chess.Position.{Position, Undo, put_piece, remove_piece, move_piece}
use novachess.Chess.Position.EnPassant.{behind, ahead, ep_capture_available}

unfoldable pub captured_by : Position → ℕ → ℕ
captured_by p m =
    if kind_of m == kind_en_passant
    then make_piece (opposite p.side) pawn
    else if kind_of m == kind_castling
    then no_piece
    else p.board (to_of m)

-- The entry that undoes a move which captures `pc`.
abbrev pub undo_entry : Position → ℕ → ℕ → Undo
undo_entry p m pc = record {
  move = m;
  captured = pc;
  castling = p.castling;
  ep_square = p.ep_square;
  halfmove = p.halfmove;
  key = p.key;
}

unfoldable pub clear_ep : Keys → Position → Position
clear_ep z p =
    if p.ep_square == no_square
    then p
    else record p { key = bit_xor p.key (z.ep_file (file_of p.ep_square)); ep_square = no_square }

abbrev pub reset_halfmove : Position → Position
reset_halfmove p = record p { halfmove = pos 0 }

-- The cases of the `switch`, on the position whose history and clock are advanced.
unfoldable pub make_castling : Keys → Position → ℕ → Option Position
make_castling z p m =
    let us = p.side in
    let idx = castling_index us (is_king_side_castling m) in
    do
      q ← remove_piece z p (from_of m)
      r ← remove_piece z q (to_of m)
      t ← put_piece z r (make_piece us king) (castling_king_to idx)
      put_piece z t (make_piece us rook) (castling_rook_to idx)

unfoldable pub make_en_passant : Keys → Position → ℕ → Option Position
make_en_passant z p m = do
  q ← remove_piece z p (behind (to_of m) p.side)
  r ← move_piece z q (from_of m) (to_of m)
  some (reset_halfmove r)

-- A captured piece is lifted from the destination.
unfoldable pub lift_captured : Keys → Position → ℕ → ℕ → Option Position
lift_captured z p captured to = if captured == no_piece then some p else remove_piece z p to

unfoldable pub make_promotion : Keys → Position → ℕ → ℕ → Option Position
make_promotion z p m captured = do
  q ← lift_captured z p captured (to_of m)
  r ← remove_piece z q (from_of m)
  t ← put_piece z r (make_piece p.side (promotion_of m)) (to_of m)
  some (reset_halfmove t)

-- A double push records the square behind the pawn, if an enemy pawn can capture there.
unfoldable pub record_ep : Keys → Magics → Position → ℕ → Option Position
record_ep z g p m =
    let ep_sq = ahead (from_of m) p.side in
    ep_capture_available g p ep_sq (opposite p.side) >>= λ available. some (
      if available
      then record p { ep_square = ep_sq; key = bit_xor p.key (z.ep_file (file_of ep_sq)) }
      else p)

abbrev pub is_double_push : ℕ → Bool
is_double_push m = (from_of m + 16 == to_of m) || (to_of m + 16 == from_of m)

unfoldable pub after_pawn : Keys → Magics → Position → ℕ → Option Position
after_pawn z g p m =
    if is_double_push m then record_ep z g (reset_halfmove p) m else some (reset_halfmove p)

unfoldable pub make_normal : Keys → Magics → Position → ℕ → ℕ → Option Position
make_normal z g p m captured =
    let moved = p.board (from_of m) in
    do
      q ← lift_captured z p captured (to_of m)
      r ← move_piece z (if captured == no_piece then q else reset_halfmove q) (from_of m) (to_of m)
      if type_of moved == pawn then after_pawn z g r m else some r

unfoldable pub make_by_kind : Keys → Magics → Position → ℕ → ℕ → Option Position
make_by_kind z g p m captured =
    if kind_of m == kind_castling
    then make_castling z p m
    else if kind_of m == kind_en_passant
    then make_en_passant z p m
    else if kind_of m == kind_promotion
    then make_promotion z p m captured
    else make_normal z g p m captured

-- `zobristCastling` has sixteen entries.
unfoldable pub revoke_rights : Keys → Position → ℕ → Option Position
revoke_rights z p m =
    let rights = bit_and (bit_and p.castling (p.cr_mask (from_of m))) (p.cr_mask (to_of m)) in
    if p.castling == no_castling || rights == p.castling
    then some p
    else if ltb p.castling 16
    then some (record p {
      key = bit_xor p.key (bit_xor (z.castling p.castling) (z.castling rights));
      castling = rights;
    })
    else none

-- The turn passes to the other side.
unfoldable pub pass_turn : Keys → Position → Position
pass_turn z p = record p {
  fullmove = if p.side == black then p.fullmove +ℤ pos 1 else p.fullmove;
  side = opposite p.side;
  key = bit_xor p.key z.side;
}

-- What precedes the `switch`: the history entry, the en passant square and the clock.
unfoldable pub begin_move : Keys → Position → ℕ → Position
begin_move z p m =
    let q = clear_ep z (record p { history = undo_entry p m (captured_by p m) ∷ p.history }) in
    record q { halfmove = q.halfmove +ℤ pos 1 }

unfoldable pub make_move : Keys → Magics → Position → ℕ → Option Position
make_move z g p m = do
  q ← make_by_kind z g (begin_move z p m) m (captured_by p m)
  r ← revoke_rights z q m
  some (pass_turn z r)

unfoldable pub make_null_move : Keys → Position → Position
make_null_move z p =
    let entry = undo_entry p move_none no_piece in
    pass_turn z (reset_halfmove (clear_ep z (record p { history = entry ∷ p.history })))

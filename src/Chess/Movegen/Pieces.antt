-- ===== src/Chess/Movegen/Pieces.antt =====
-- The moves of knights, bishops, rooks and queens in internal/chess/movegen.go.
use novachess.Prelude.{ℕ, bit_and, List, [], ◌∷◌, ◌++◌, if◌then◌else◌}
use novachess.Chess.Types.{knight, bishop, rook, queen}
use novachess.Chess.Move.{new_move}
use novachess.Chess.Bitboard.{has, squares}
use novachess.Chess.Attacks.{Magics, attacks_from, line}
use novachess.Chess.Position.{Position, pieces_of}

-- The moves from one square to each of a list.
unfoldable pub moves_to : ℕ → List ℕ → List ℕ
moves_to from [] = []
moves_to from (to ∷ tos) = new_move from to ∷ moves_to from tos

-- The loop over the pieces of one type.
unfoldable pub pieces_moves : Magics → ℕ → ℕ → ℕ → ℕ → ℕ → ℕ → List ℕ → List ℕ
unfolding moves_to
pieces_moves g pt us targets pinned ksq occ [] = []
pieces_moves g pt us targets pinned ksq occ (from ∷ froms) =
    let attacks = bit_and (attacks_from g pt us from occ) targets in
    let free = if has pinned from then bit_and attacks (line ksq from) else attacks in
    moves_to from (squares free) ++ pieces_moves g pt us targets pinned ksq occ froms

unfoldable pub gen_piece_moves : Magics → Position → ℕ → ℕ → ℕ → ℕ → ℕ → List ℕ
unfolding pieces_moves
gen_piece_moves g p us targets pinned ksq occ =
    of_type knight ++ of_type bishop ++ of_type rook ++ of_type queen
  where
    of_type : ℕ → List ℕ
    of_type pt = pieces_moves g pt us targets pinned ksq occ (squares (pieces_of p us pt))

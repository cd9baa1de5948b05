-- ===== src/Chess/Movegen/King.antt =====
-- The king's moves of internal/chess/movegen.go, castling among them. A part of the generator
-- returns the moves that it adds to the list, in its order.
use novachess.Prelude.{
  ℕ, zero, suc, bit_and, bit_or, bit_xor, Bool, true, false, not, Option, none, some, List, [], ◌∷◌,
  ◌++◌, ltb, leb, ◌==◌, if◌then◌else◌, ◌>>=◌,
}
use novachess.Prelude.Int.{ℤ, pos, negsuc, ◌+ℤ◌}
use novachess.Chess.Types.{rook, queen, square_count, u8_of_int, opposite, make_piece, has_right}
use novachess.Chess.Move.{new_move, new_castling}
use novachess.Chess.Bitboard.{bb, and_not, squares}
use novachess.Chess.Attacks.{Magics, king_attacks, rook_attacks}
use novachess.Chess.Castling.{right_at, castling_index, castling_king_to}
use novachess.Chess.Position.{Position, king_square}
use novachess.Chess.Movegen.Attackers.{attackers_to, is_attacked}

-- The loop over the squares that the king attacks.
unfoldable pub king_moves : Magics → Position → ℕ → ℕ → ℕ → List ℕ → Option (List ℕ)
king_moves g p ksq them occ [] = some []
king_moves g p ksq them occ (to ∷ tos) =
    let rest = king_moves g p ksq them occ tos in
    attackers_to g p to occ >>= λ attackers. rest >>= λ moves.
    some (if bit_and attackers (p.by_color them) == 0 then new_move ksq to ∷ moves else moves)

unfoldable pub gen_king_moves : Magics → Position → ℕ → ℕ → ℕ → ℕ → Option (List ℕ)
unfolding king_moves
gen_king_moves g p ksq them occ targets =
    king_moves g p ksq them (and_not occ (bb ksq)) (squares (bit_and (king_attacks ksq) targets))

-- The loop steps towards `to`, so that it ends after at most 63 steps.
unfoldable pub path_from : Magics → Position → ℕ → ℕ → ℕ → ℤ → ℕ → Option Bool
path_from g p zero sq to step by = none
path_from g p (suc fuel) sq to step by =
    let rest = path_from g p fuel (u8_of_int (pos sq +ℤ step)) to step by in
    is_attacked g p sq by >>= λ attacked.
    if attacked then some true else if sq == to then some false else rest

unfoldable pub king_path_attacked : Magics → Position → ℕ → ℕ → ℕ → Option Bool
unfolding path_from
king_path_attacked g p from to by =
    path_from g p 64 from to (if ltb to from then negsuc 0 else pos 1) by

-- One round of the loop over the two sides. `castlingRook` may hold `NoSquare`.
unfoldable pub castling_moves : Magics → Position → ℕ → ℕ → Bool → Option (List ℕ)
castling_moves g p us occ king_side =
    let them = opposite us in
    let king_from = king_square p us in
    let idx = castling_index us king_side in
    let rook_from = p.castling_rook idx in
    let king_to = castling_king_to idx in
    let sliders =
      bit_and (rook_attacks g king_to (bit_xor occ (bb rook_from)))
        (bit_or (p.by_type rook) (p.by_type queen)) in
    if not (has_right p.castling (right_at idx))
    then some []
    else if not (bit_and occ (p.castling_path idx) == 0)
    then some []
    else if leb square_count rook_from
    then none
    else if not (p.board rook_from == make_piece us rook)
    then some []
    else (king_path_attacked g p king_from king_to them >>= λ attacked. some (
        if attacked
        then []
        else if not (bit_and sliders (p.by_color them) == 0)
        then []
        else new_castling king_from rook_from ∷ []))

unfoldable pub gen_castling : Magics → Position → ℕ → ℕ → Option (List ℕ)
unfolding castling_moves
gen_castling g p us occ = castling_moves g p us occ true >>= λ short.
    castling_moves g p us occ false >>= λ long. some (short ++ long)

-- ===== src/Chess/Rules/OutcomeExamples.antt =====
-- A concrete position that `Outcome` is applied to, and the set-up of a castling right.
use novachess.Prelude.{ℕ, false, some, List, [], ◌∷◌, ◌≡◌, ◌≢◌, ◌↔◌, refl}
use novachess.Chess.Types.{no_square, file_of, rank_of, opposite, has_right, type_of, color_of}
use novachess.Chess.Move.{new_move}
use novachess.Chess.Bitboard.{
  bb, shl, and_not, has, dec, trailing_zeros, first, pop_first, squares, more_than_one,
}
use novachess.Chess.Castling.{right_at, castling_index}
use novachess.Chess.Attacks.{
  knight_attacks, king_attacks, pawn_attacks, rook_attacks, bishop_attacks, attacks_from,
}
use novachess.Chess.Position.{Position, occupied, pieces_of, king_square}
use novachess.Chess.Position.EnPassant.{ahead}
use novachess.Chess.Position.Examples.{unhashed, magics}
use novachess.Chess.Movegen.{generate_legal_moves, other_moves}
use novachess.Chess.Movegen.Attackers.{attackers_to, blockers_for_king, add_blockers}
use novachess.Chess.Movegen.King.{gen_king_moves, gen_castling}
use novachess.Chess.Movegen.Pawns.{gen_pawn_moves}
use novachess.Chess.Movegen.Pieces.{gen_piece_moves}
use novachess.Chess.Rules.{is_draw}
use novachess.Chess.Rules.Outcome.{ongoing, not_terminated, outcome, outcome-ongoing}

-- Kings on e1 and e8 and a white pawn on e2, with no castling rights.
abbrev pub no_rights : Position
no_rights = record (unhashed no_square) { castling = 0 }

-- The king to d1, f1, d2 and f2, the pawn to e3 and e4.
abbrev pub six_moves : List ℕ
six_moves = 196 ∷ 324 ∷ 708 ∷ 836 ∷ 1292 ∷ 1804 ∷ []

pub no_rights_moves : generate_legal_moves magics no_rights ≡ some six_moves
unfolding generate_legal_moves other_moves attackers_to blockers_for_king add_blockers
    gen_king_moves gen_castling gen_pawn_moves gen_piece_moves occupied pieces_of king_square ahead
    knight_attacks king_attacks pawn_attacks rook_attacks bishop_attacks attacks_from right_at
    castling_index bb shl and_not has dec trailing_zeros first pop_first squares more_than_one
    new_move file_of rank_of opposite has_right type_of color_of
no_rights_moves = refl

outcome-ongoing_example :
    (outcome magics no_rights ≡ some (ongoing, not_terminated))
    ↔ ((six_moves ≢ []) × (is_draw no_rights ≡ some false))
outcome-ongoing_example = outcome-ongoing magics no_rights six_moves no_rights_moves

-- ===== src/Chess/Movegen.antt =====
-- internal/chess/movegen.go: the move generator, from the parts that the children model.
pub mod Attackers
pub mod King
pub mod Pieces
pub mod Pawns
pub mod Path
pub mod Origins
pub mod Own
pub mod Generated
pub mod Examples
use novachess.Prelude.{
  ℕ, zero, suc, ◌+◌, ◌-◌, ◌*◌, bit_and, bit_or, bit_xor, Bool, true, false, not, ◌||◌, ◌&&◌, Option,
  none, some, List, [], ◌∷◌, ◌++◌, ltb, leb, ◌==◌, if◌then◌else◌, ◌>>=◌,
}
use novachess.Prelude.Int.{ℤ, pos, negsuc, ◌+ℤ◌}
use novachess.Chess.Types.{
  white, black, pawn, knight, bishop, rook, queen, king, no_square, square_count, u8_of_int,
  opposite, make_piece, rank_of, has_right,
}
use novachess.Chess.Move.{new_move, new_promotion, new_en_passant, new_castling}
use novachess.Chess.Bitboard.{bb, and_not, has, squares, first, more_than_one, max_u64}
use novachess.Chess.Attacks.{
  Magics, knight_attacks, king_attacks, pawn_attacks, rook_attacks, bishop_attacks, attacks_from,
  between, line,
}
use novachess.Chess.Castling.{right_at, castling_index, castling_king_to}
use novachess.Chess.Position.{Position, occupied, pieces_of, king_square}
use novachess.Chess.Position.EnPassant.{ahead, en_passant_legal}
use novachess.Chess.Movegen.Attackers.{attackers_to, blockers_for_king}
use novachess.Chess.Movegen.King.{gen_king_moves, gen_castling}
use novachess.Chess.Movegen.Pieces.{gen_piece_moves}
use novachess.Chess.Movegen.Pawns.{gen_pawn_moves}

abbrev pub max_moves : ℕ
max_moves = 256

-- The array of a move list has no room for more.
unfoldable pub in_capacity : List ℕ → Option (List ℕ)
in_capacity moves = if leb (length moves) max_moves then some moves else none
  where
    length : List ℕ → ℕ
    length [] = 0
    length (m ∷ ms) = suc (length ms)

-- The pawns' and the pieces' moves, after the castling moves.
unfoldable pub men_moves : Magics → Position → ℕ → ℕ → List ℕ → Option (List ℕ)
men_moves g p targets quiet_targets castling =
    let us = p.side in
    let ksq = king_square p us in
    let occ = occupied p in
    blockers_for_king g p us >>= λ blockers.
    gen_pawn_moves g p us targets quiet_targets (bit_and blockers (p.by_color us)) ksq occ
    >>= λ pawns. some (
        castling
        ++ pawns
        ++ gen_piece_moves g p us targets (bit_and blockers (p.by_color us)) ksq occ)

-- `RankBB[0] | RankBB[7]`.
abbrev pub promotion_ranks : ℕ
promotion_ranks = 0xff000000000000ff

-- What follows the king's moves, when at most one piece gives check.
unfoldable pub other_moves : Magics → Position → Bool → ℕ → Option (List ℕ)
unfolding men_moves
other_moves g p captures_only found =
    let us = p.side in
    let checker = first found in
    let targets : ℕ =
      if not (found == 0)
      then bit_or (between (king_square p us) checker) (bb checker)
      else if captures_only
      then p.by_color (opposite us)
      else and_not max_u64 (p.by_color us) in
    let castles = not (not (found == 0) || captures_only) in
    let quiet_targets : ℕ = if captures_only then promotion_ranks else targets in
    (if castles then gen_castling g p us (occupied p) else some [])
    >>= men_moves g p targets quiet_targets

-- When two pieces give check, only the king may move.
unfoldable pub after_king : Magics → Position → Bool → ℕ → List ℕ → Option (List ℕ)
unfolding in_capacity other_moves
after_king g p captures_only found king =
    if more_than_one found
    then in_capacity king
    else (other_moves g p captures_only found >>= λ others. in_capacity (king ++ others))

-- In check, captures alone are not enough.
unfoldable pub generate : Magics → Position → Bool → Option (List ℕ)
unfolding after_king
generate g p captures_only =
    let us = p.side in
    let ksq = king_square p us in
    let theirs = p.by_color (opposite us) in
    attackers_to g p ksq (occupied p) >>= λ attackers.
    let found = bit_and attackers theirs in
    let captures_only' = found == 0 && captures_only in
    let king_targets : ℕ = if captures_only' then theirs else and_not max_u64 (p.by_color us) in
    gen_king_moves g p ksq (opposite us) (occupied p) king_targets
    >>= after_king g p captures_only' found

unfoldable pub generate_legal_moves : Magics → Position → Option (List ℕ)
unfolding generate
generate_legal_moves g p = generate g p false

unfoldable pub generate_captures : Magics → Position → Option (List ℕ)
unfolding generate
generate_captures g p = generate g p true

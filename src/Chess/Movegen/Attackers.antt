-- ===== src/Chess/Movegen/Attackers.antt =====
-- `AttackersTo`, `IsAttacked`, `Checkers` and `InCheck` of internal/chess/position.go, and
-- `blockersForKing` of internal/chess/movegen.go.
use novachess.Prelude.{
  ℕ, bit_and, bit_or, Bool, not, ◌&&◌, Option, none, some, List, [], ◌∷◌, leb, ◌==◌, if◌then◌else◌,
  ◌>>=◌,
}
use novachess.Chess.Types.{
  white, black, pawn, knight, bishop, rook, queen, king, square_count, opposite,
}
use novachess.Chess.Bitboard.{and_not, squares, more_than_one}
use novachess.Chess.Attacks.{
  Magics, knight_attacks, king_attacks, pawn_attacks, rook_attacks, bishop_attacks, between,
}
use novachess.Chess.Position.{Position, occupied, king_square}

-- The tables have no entry for a square past h8.
unfoldable pub attackers_to : Magics → Position → ℕ → ℕ → Option ℕ
attackers_to g p s occ =
    let rooks_queens = bit_or (p.by_type rook) (p.by_type queen) in
    let bishops_queens = bit_or (p.by_type bishop) (p.by_type queen) in
    let white_pawns =
      bit_and (bit_and (pawn_attacks black s) (p.by_color white)) (p.by_type pawn) in
    let black_pawns =
      bit_and (bit_and (pawn_attacks white s) (p.by_color black)) (p.by_type pawn) in
    let knights = bit_and (knight_attacks s) (p.by_type knight) in
    let kings = bit_and (king_attacks s) (p.by_type king) in
    let rooks = bit_and (rook_attacks g s occ) rooks_queens in
    let bishops = bit_and (bishop_attacks g s occ) bishops_queens in
    if leb square_count s
    then none
    else some (
        bit_or (bit_or (bit_or (bit_or (bit_or white_pawns black_pawns) knights) kings) rooks)
          bishops)

unfoldable pub is_attacked : Magics → Position → ℕ → ℕ → Option Bool
is_attacked g p s by = attackers_to g p s (occupied p) >>= λ attackers.
    some (not (bit_and attackers (p.by_color by) == 0))

unfoldable pub checkers : Magics → Position → Option ℕ
checkers g p = attackers_to g p (king_square p p.side) (occupied p) >>= λ attackers.
    some (bit_and attackers (p.by_color (opposite p.side)))

unfoldable pub in_check : Magics → Position → Option Bool
in_check g p = checkers g p >>= λ found. some (not (found == 0))

-- The loop over the snipers.
unfoldable pub add_blockers : ℕ → ℕ → List ℕ → ℕ → ℕ
add_blockers ksq occupancy [] blockers = blockers
add_blockers ksq occupancy (s ∷ ss) blockers =
    let crossed = bit_and (between ksq s) occupancy in
    add_blockers ksq occupancy ss (
      if not (crossed == 0) && not (more_than_one crossed)
      then bit_or blockers crossed
      else blockers)

unfoldable pub blockers_for_king : Magics → Position → ℕ → Option ℕ
blockers_for_king g p c =
    let ksq = king_square p c in
    let rooks = bit_and (rook_attacks g ksq 0) (bit_or (p.by_type rook) (p.by_type queen)) in
    let bishops = bit_and (bishop_attacks g ksq 0) (bit_or (p.by_type bishop) (p.by_type queen)) in
    let snipers = bit_and (bit_or rooks bishops) (p.by_color (opposite c)) in
    if leb square_count ksq
    then none
    else some (add_blockers ksq (and_not (occupied p) snipers) (squares snipers) 0)

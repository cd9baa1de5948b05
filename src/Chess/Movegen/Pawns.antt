-- ===== src/Chess/Movegen/Pawns.antt =====
-- The pawns' moves of internal/chess/movegen.go.
use novachess.Prelude.{
  ℕ, bit_and, not, ◌&&◌, Option, some, List, [], ◌∷◌, ◌++◌, ◌==◌, if◌then◌else◌, ◌>>=◌,
}
use novachess.Chess.Types.{black, pawn, knight, bishop, rook, queen, no_square, opposite, rank_of}
use novachess.Chess.Move.{new_move, new_promotion, new_en_passant}
use novachess.Chess.Bitboard.{has, squares, max_u64}
use novachess.Chess.Attacks.{Magics, pawn_attacks, line}
use novachess.Chess.Position.{Position, pieces_of}
use novachess.Chess.Position.EnPassant.{ahead, en_passant_legal}

unfoldable pub add_pawn_move : ℕ → ℕ → ℕ → List ℕ
add_pawn_move from to promo_rank =
    if rank_of to == promo_rank
    then new_promotion from to queen
      ∷ new_promotion from to rook
      ∷ new_promotion from to bishop
      ∷ new_promotion from to knight
      ∷ []
    else new_move from to ∷ []

unfoldable pub pawn_captures : ℕ → ℕ → List ℕ → List ℕ
unfolding add_pawn_move
pawn_captures from promo_rank [] = []
pawn_captures from promo_rank (to ∷ tos) =
    add_pawn_move from to promo_rank ++ pawn_captures from promo_rank tos

unfoldable pub pawn_pushes : ℕ → ℕ → ℕ → ℕ → ℕ → List ℕ
unfolding add_pawn_move
pawn_pushes us from quiet_targets pin_mask occ =
    let promo_rank : ℕ = if us == black then 0 else 7 in
    let start_rank : ℕ = if us == black then 6 else 1 in
    let to = ahead from us in
    let to2 = ahead to us in
    if has occ to
    then []
    else (if has quiet_targets to && has pin_mask to then add_pawn_move from to promo_rank else [])
      ++ (if rank_of from == start_rank
            && not (has occ to2)
            && has quiet_targets to2
            && has pin_mask to2
          then new_move from to2 ∷ []
          else [])

unfoldable pub pawn_en_passant : Magics → Position → ℕ → ℕ → ℕ → ℕ → Option (List ℕ)
pawn_en_passant g p us from ksq occ =
    if not (p.ep_square == no_square) && has (pawn_attacks us from) p.ep_square
    then (en_passant_legal g p from p.ep_square us ksq occ >>= λ legal.
        some (if legal then new_en_passant from p.ep_square ∷ [] else []))
    else some []

-- The loop over the pawns.
unfoldable pub pawns_moves : Magics → Position → ℕ → ℕ → ℕ → ℕ → ℕ → ℕ → List ℕ → Option (List ℕ)
unfolding pawn_captures pawn_pushes pawn_en_passant
pawns_moves g p us targets quiet_targets pinned ksq occ [] = some []
pawns_moves g p us targets quiet_targets pinned ksq occ (from ∷ froms) =
    let promo_rank : ℕ = if us == black then 0 else 7 in
    let pin_mask = if has pinned from then line ksq from else max_u64 in
    let caps =
      bit_and (bit_and (bit_and (pawn_attacks us from) (p.by_color (opposite us))) targets)
        pin_mask in
    let rest = pawns_moves g p us targets quiet_targets pinned ksq occ froms in
    pawn_en_passant g p us from ksq occ >>= λ en_passant. rest >>= λ moves. some (
      pawn_pushes us from quiet_targets pin_mask occ
      ++ pawn_captures from promo_rank (squares caps)
      ++ en_passant
      ++ moves)

unfoldable pub gen_pawn_moves : Magics → Position → ℕ → ℕ → ℕ → ℕ → ℕ → ℕ → Option (List ℕ)
unfolding pawns_moves
gen_pawn_moves g p us targets quiet_targets pinned ksq occ =
    pawns_moves g p us targets quiet_targets pinned ksq occ (squares (pieces_of p us pawn))

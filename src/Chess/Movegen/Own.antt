-- ===== src/Chess/Movegen/Own.antt =====
-- Every move that the generator returns starts from a piece of the side to move.
use novachess.Prelude.{ℕ, ◌<◌, true, List, [], ◌∷◌, ◌==◌, ◌≡◌}
use novachess.Prelude.Bits.{test_bit}
use novachess.Chess.Types.{pawn, knight, bishop, rook, queen, rank_of}
use novachess.Chess.Move.{from_of, new_move, new_promotion, new_en_passant}
use novachess.Chess.Bitboard.{squares}
use novachess.Chess.Attacks.{Magics}
use novachess.Chess.Position.{Position, pieces_of}
use novachess.Chess.Position.EnPassant.{ahead}
use novachess.Chess.Position.Consistent.{Consistent}
use novachess.Chess.Movegen.King.{king_moves}
use novachess.Chess.Movegen.Pieces.{moves_to, pieces_moves, gen_piece_moves}
use novachess.Chess.Movegen.Pawns.{
  add_pawn_move, pawn_captures, pawn_pushes, pawn_en_passant, pawns_moves,
}
use novachess.Chess.Movegen.Origins.{
  from_of-new_move, from_of-new_promotion, from_of-new_en_passant, Members, StartsFrom, AllStart,
  no_more, more, Starts, returns, AllStart-append, AllStart-if, Starts-if, Starts-after,
  Starts-bind, own_square, pieces_of-Members, own_of,
}

module _ (g : Magics) (p : Position) (us : ℕ) (c : Consistent p) where
  -- From one square of the side.
  module _ (from : ℕ) (h : from < 64) (own : test_bit (p.by_color us) from ≡ true) where
    starts : (m : ℕ) → from_of m ≡ from → StartsFrom p.board us m
    starts m e = own_square p us m from c h own e

    pub single : (m : ℕ) → from_of m ≡ from → AllStart p.board us (m ∷ [])
    single m e = more m [] (starts m e) no_more

    moves_to-AllStart : (tos : List ℕ) → AllStart p.board us (moves_to from tos)
    unfolding moves_to
    moves_to-AllStart [] = no_more
    moves_to-AllStart (to ∷ tos) =
        more _ _ (starts _ (from_of-new_move from to h)) (moves_to-AllStart tos)

    pub king_moves-Starts :
        (them occ : ℕ) (tos : List ℕ) → Starts p.board us (king_moves g p from them occ tos)
    unfolding king_moves
    king_moves-Starts them occ [] = returns [] no_more
    king_moves-Starts them occ (to ∷ tos) = Starts-after p.board us _ _ λ attackers.
        Starts-bind p.board us _ _ (king_moves-Starts them occ tos) λ ms ok. returns _ (
          AllStart-if p.board us _ (new_move from to ∷ ms) ms
            (more _ ms (starts _ (from_of-new_move from to h)) ok) ok)

    promotions :
        (to : ℕ)
        → AllStart p.board us (
            new_promotion from to queen
            ∷ new_promotion from to rook
            ∷ new_promotion from to bishop
            ∷ new_promotion from to knight
            ∷ [])
    promotions to =
        let promoted : (pt : ℕ) → StartsFrom p.board us (new_promotion from to pt) =
          λ pt. starts _ (from_of-new_promotion from to pt h) in
        more _ _ (promoted queen) (
          more _ _ (promoted rook)
            (more _ _ (promoted bishop) (more _ _ (promoted knight) no_more)))

    add_pawn_move-AllStart : (to rank : ℕ) → AllStart p.board us (add_pawn_move from to rank)
    unfolding add_pawn_move
    add_pawn_move-AllStart to rank =
        AllStart-if p.board us (rank_of to == rank)
          (new_promotion from to queen
            ∷ new_promotion from to rook
            ∷ new_promotion from to bishop
            ∷ new_promotion from to knight
            ∷ [])
          (new_move from to ∷ []) (promotions to) (single _ (from_of-new_move from to h))

    pawn_captures-AllStart :
        (rank : ℕ) (tos : List ℕ) → AllStart p.board us (pawn_captures from rank tos)
    unfolding pawn_captures
    pawn_captures-AllStart rank [] = no_more
    pawn_captures-AllStart rank (to ∷ tos) =
        AllStart-append p.board us _ _ (add_pawn_move-AllStart to rank)
          (pawn_captures-AllStart rank tos)

    pawn_pushes-AllStart :
        (quiet mask occ : ℕ) → AllStart p.board us (pawn_pushes us from quiet mask occ)
    unfolding pawn_pushes
    pawn_pushes-AllStart quiet mask occ = AllStart-if p.board us _ [] _ no_more (
        AllStart-append p.board us _ _
          (AllStart-if p.board us _ _ [] (add_pawn_move-AllStart (ahead from us) _) no_more)
          (AllStart-if p.board us _ (new_move from (ahead (ahead from us) us) ∷ []) []
            (single _ (from_of-new_move from _ h)) no_more))

    pawn_en_passant-Starts : (ksq occ : ℕ) → Starts p.board us (pawn_en_passant g p us from ksq occ)
    unfolding pawn_en_passant
    pawn_en_passant-Starts ksq occ =
        Starts-if p.board us _ _ _
          (Starts-after p.board us _ _ λ legal. returns _ (
            AllStart-if p.board us legal (new_en_passant from p.ep_square ∷ []) []
              (single _ (from_of-new_en_passant from p.ep_square h)) no_more))
          (returns [] no_more)

  pieces_moves-AllStart :
      (pt targets pinned ksq occ : ℕ) (froms : List ℕ)
      → Members (pieces_of p us pt) froms
      → AllStart p.board us (pieces_moves g pt us targets pinned ksq occ froms)
  unfolding pieces_moves
  pieces_moves-AllStart pt targets pinned ksq occ [] members = no_more
  pieces_moves-AllStart pt targets pinned ksq occ (from ∷ froms) (h, member, members) =
      AllStart-append p.board us _ _ (moves_to-AllStart from h (own_of p us pt from member) _)
        (pieces_moves-AllStart pt targets pinned ksq occ froms members)

  pub gen_piece_moves-AllStart :
      (targets pinned ksq occ : ℕ)
      → AllStart p.board us (gen_piece_moves g p us targets pinned ksq occ)
  unfolding gen_piece_moves
  gen_piece_moves-AllStart targets pinned ksq occ =
      let of_type : (pt : ℕ)
          → AllStart p.board us
              (pieces_moves g pt us targets pinned ksq occ (squares (pieces_of p us pt))) =
        λ pt. pieces_moves-AllStart pt targets pinned ksq occ _ (pieces_of-Members p us pt c) in
      AllStart-append p.board us _ _
        (AllStart-append p.board us _ _
          (AllStart-append p.board us _ _ (of_type knight) (of_type bishop)) (of_type rook))
        (of_type queen)

  pub pawns_moves-Starts :
      (targets quiet pinned ksq occ : ℕ) (froms : List ℕ)
      → Members (pieces_of p us pawn) froms
      → Starts p.board us (pawns_moves g p us targets quiet pinned ksq occ froms)
  unfolding pawns_moves
  pawns_moves-Starts targets quiet pinned ksq occ [] members = returns [] no_more
  pawns_moves-Starts targets quiet pinned ksq occ (from ∷ froms) (h, member, members) =
      let own = own_of p us pawn from member in
      Starts-bind p.board us _ _ (pawn_en_passant-Starts from h own ksq occ) λ ep ep_ok.
        Starts-bind p.board us _ _ (pawns_moves-Starts targets quiet pinned ksq occ froms members)
          λ ms ok. returns _ (
            AllStart-append p.board us _ _
              (AllStart-append p.board us _ _
                (AllStart-append p.board us _ _ (pawn_pushes-AllStart from h own quiet _ occ)
                  (pawn_captures-AllStart from h own _ _))
                ep_ok)
              ok)

-- ===== src/Chess/Position/Playable.antt =====
-- What the position must show for a move to be played on it, as part of what makes it legal: it
-- starts from a piece of the mover, captures no king, and the special kinds find the pawn, the
-- rook and the empty squares that they need.
pub mod Boards
use novachess.Prelude.{ℕ, ◌<◌, Bool, true, ◌≡◌, ◌≢◌, ◌⊎◌, update}
use novachess.Chess.Types.{
  pawn, knight, queen, rook, king, no_piece, opposite, make_piece, color_of, type_of,
}
use novachess.Chess.Move.{
  kind_normal, kind_promotion, kind_en_passant, kind_castling, from_of, to_of, kind_of,
  promotion_of, promotion_of,
}
use novachess.Chess.Castling.{
  castling_index, castling_king_to, castling_rook_to, is_king_side_castling,
}
use novachess.Chess.Position.{Position}
use novachess.Chess.Position.EnPassant.{behind, ahead}
use Boards.{after_normal, after_en_passant, after_castling}
use novachess.Chess.Position.Make.{is_double_push}

pub record PlaysNormal (b : ℕ → ℕ) (us m : ℕ) : Type 0 where
  pub kind : kind_of m ≡ kind_normal
  pub real : b (from_of m) < no_piece
  pub own : color_of (b (from_of m)) ≡ us
  pub apart : from_of m ≢ to_of m
  pub spares_king : b (to_of m) ≢ make_piece (opposite us) king
  pub forward :
      type_of (b (from_of m)) ≡ pawn
      → is_double_push m ≡ true
      → ahead (ahead (from_of m) us) us ≡ to_of m

pub record Promotes (b : ℕ → ℕ) (us m : ℕ) : Type 0 where
  pub kind : kind_of m ≡ kind_promotion
  pub mover : b (from_of m) ≡ make_piece us pawn
  pub apart : from_of m ≢ to_of m

pub record CapturesEnPassant (b : ℕ → ℕ) (us m : ℕ) : Type 0 where
  pub kind : kind_of m ≡ kind_en_passant
  pub mover : b (from_of m) ≡ make_piece us pawn
  pub empty : b (to_of m) ≡ no_piece
  pub on_board : behind (to_of m) us < 64
  pub victim : b (behind (to_of m) us) ≡ make_piece (opposite us) pawn

-- Where king and rook finish.
abbrev pub king_goal : ℕ → ℕ → ℕ
king_goal us m = castling_king_to (castling_index us (is_king_side_castling m))

abbrev pub rook_goal : ℕ → ℕ → ℕ
rook_goal us m = castling_rook_to (castling_index us (is_king_side_castling m))

-- A goal is empty, but for the king and the rook that castle.
pub record Castles (b : ℕ → ℕ) (us m : ℕ) : Type 0 where
  pub kind : kind_of m ≡ kind_castling
  pub mover : b (from_of m) ≡ make_piece us king
  pub partner : b (to_of m) ≡ make_piece us rook
  pub king_free :
      (b (king_goal us m) ≡ no_piece) ⊎ (king_goal us m ≡ from_of m) ⊎ (king_goal us m ≡ to_of m)
  pub rook_free :
      (b (rook_goal us m) ≡ no_piece) ⊎ (rook_goal us m ≡ from_of m) ⊎ (rook_goal us m ≡ to_of m)

pub data PlayableOn (b : ℕ → ℕ) (us m : ℕ) : Type 0 where
  normal : PlaysNormal b us m → PlayableOn b us m
  promotion : Promotes b us m → PlayableOn b us m
  en_passant : CapturesEnPassant b us m → PlayableOn b us m
  castling : Castles b us m → PlayableOn b us m

-- The board that such a move leads to.
abbrev pub board_after : {b : ℕ → ℕ} {us m : ℕ} → PlayableOn b us m → ℕ → ℕ
board_after {b} {us} {m} (normal h) = after_normal b (from_of m) (to_of m) (b (from_of m))
board_after {b} {us} {m} (promotion h) =
    after_normal b (from_of m) (to_of m) (make_piece us (promotion_of m))
board_after {b} {us} {m} (en_passant h) =
    after_en_passant b (from_of m) (to_of m) (behind (to_of m) us)
board_after {b} {us} {m} (castling h) =
    after_castling b (from_of m) (to_of m) (king_goal us m) (rook_goal us m) (make_piece us king)
      (make_piece us rook)

abbrev pub Playable : Position → ℕ → Type 0
Playable p m = PlayableOn p.board p.side m

-- The enemy king stands somewhere on the board.
abbrev pub HasEnemyKing : (ℕ → ℕ) → ℕ → Type 0
HasEnemyKing b us = (k : ℕ) × (k < 64) × (b k ≡ make_piece (opposite us) king)

-- ===== src/Chess/Position.antt =====
-- internal/chess/position.go: the position, and the primitive updates that every move is made of.
-- `none` is a panic: an index out of range. The children hold the moves and what is proved.
pub mod EnPassant
pub mod Make
pub mod Unmake
pub mod Consistent
pub mod Primitives
pub mod Available
pub mod Playable
pub mod MakeParts
pub mod MakeReturns
pub mod Turn
pub mod Examples
pub mod NullMove
pub mod Line
pub mod RoundTrip
pub mod UnmakeParts
pub mod MakeMove
use novachess.Prelude.{
  ℕ, bit_and, bit_or, bit_xor, Bool, ◌&&◌, Option, none, some, List, ltb, ◌==◌, if◌then◌else◌,
  update,
}
use novachess.Prelude.Int.{ℤ}
use novachess.Chess.Types.{
  white, black, king, no_piece, no_square, square_count, color_of, type_of, file_of,
}
use novachess.Chess.Bitboard.{bb, shl, and_not, first}
use novachess.Chess.Zobrist.{Keys, board_key}

pub record Undo : Type 0 where
  pub move : ℕ
  pub captured : ℕ
  pub castling : ℕ
  pub ep_square : ℕ
  pub halfmove : ℤ
  pub key : ℕ

-- The fixed arrays are functions of their index. The newest entry of the history comes first.
pub record Position : Type 0 where
  pub by_type : ℕ → ℕ
  pub by_color : ℕ → ℕ
  pub board : ℕ → ℕ
  pub side : ℕ
  pub castling : ℕ
  pub ep_square : ℕ
  pub halfmove : ℤ
  pub fullmove : ℤ
  pub key : ℕ
  pub chess960 : Bool
  pub castling_rook : ℕ → ℕ
  pub castling_path : ℕ → ℕ
  pub cr_mask : ℕ → ℕ
  pub history : List Undo

unfoldable pub occupied : Position → ℕ
occupied p = bit_or (p.by_color white) (p.by_color black)

unfoldable pub pieces_of : Position → ℕ → ℕ → ℕ
pieces_of p c pt = bit_and (p.by_color c) (p.by_type pt)

unfoldable pub king_square : Position → ℕ → ℕ
king_square p c = first (bit_and (p.by_color c) (p.by_type king))

-- A piece past the last has no row in the tables, and a square past h8 no entry on the board.
abbrev pub in_range : ℕ → ℕ → Bool
in_range pc s = ltb pc no_piece && ltb s square_count

unfoldable pub put_piece : Keys → Position → ℕ → ℕ → Option Position
put_piece z p pc s =
    if in_range pc s
    then some (record p {
      board = update p.board s pc;
      by_type = update p.by_type (type_of pc) (bit_or (p.by_type (type_of pc)) (bb s));
      by_color = update p.by_color (color_of pc) (bit_or (p.by_color (color_of pc)) (bb s));
      key = bit_xor p.key (z.pieces pc s);
    })
    else none

unfoldable pub remove_piece : Keys → Position → ℕ → Option Position
remove_piece z p s =
    let pc = p.board s in
    if in_range pc s
    then some (record p {
      board = update p.board s no_piece;
      by_type = update p.by_type (type_of pc) (and_not (p.by_type (type_of pc)) (bb s));
      by_color = update p.by_color (color_of pc) (and_not (p.by_color (color_of pc)) (bb s));
      key = bit_xor p.key (z.pieces pc s);
    })
    else none

unfoldable pub move_piece : Keys → Position → ℕ → ℕ → Option Position
move_piece z p from to =
    let pc = p.board from in
    let delta = bit_or (bb from) (bb to) in
    if in_range pc from && ltb to square_count
    then some (record p {
      board = update (update p.board from no_piece) to pc;
      by_type = update p.by_type (type_of pc) (bit_xor (p.by_type (type_of pc)) delta);
      by_color = update p.by_color (color_of pc) (bit_xor (p.by_color (color_of pc)) delta);
      key = bit_xor p.key (bit_xor (z.pieces pc from) (z.pieces pc to));
    })
    else none

-- The key from scratch.
unfoldable pub compute_key : Keys → Position → ℕ
compute_key z p =
    let placed = bit_xor (board_key z p.board square_count) (z.castling p.castling) in
    let passed : ℕ =
      if p.ep_square == no_square
      then placed
      else bit_xor placed (z.ep_file (file_of p.ep_square)) in
    if p.side == black then bit_xor passed z.side else passed

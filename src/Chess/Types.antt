-- ===== src/Chess/Types.antt =====
-- internal/chess/types.go: colours, pieces, squares and castling rights, all of them bytes.
pub mod Names
use novachess.Prelude.{
  ℕ, ◌+◌, ◌-◌, ◌*◌, ◌/◌, ◌%◌, ◌^◌, bit_and, bit_xor, Bool, not, ◌||◌, Option, none, some, List, [],
  ◌∷◌, ltb, leb, ◌==◌, if◌then◌else◌,
}
use novachess.Prelude.Int.{ℤ, pos, negsuc}

-- A conversion to `uint8` keeps the low eight bits, of a negative number too.
abbrev pub u8 : ℕ → ℕ
u8 n = n % 256

abbrev pub u8_of_int : ℤ → ℕ
u8_of_int (pos n) = n % 256
u8_of_int (negsuc n) = 255 - n % 256

abbrev pub white : ℕ
white = 0

abbrev pub black : ℕ
black = 1

unfoldable pub opposite : ℕ → ℕ
opposite c = bit_xor c 1

abbrev pub pawn : ℕ
pawn = 0

abbrev pub knight : ℕ
knight = 1

abbrev pub bishop : ℕ
bishop = 2

abbrev pub rook : ℕ
rook = 3

abbrev pub queen : ℕ
queen = 4

abbrev pub king : ℕ
king = 5

abbrev pub piece_type_count : ℕ
piece_type_count = 6

-- The piece past the last one, on an empty square.
abbrev pub no_piece : ℕ
no_piece = 12

unfoldable pub make_piece : ℕ → ℕ → ℕ
make_piece c pt = u8 (u8 (c * piece_type_count) + pt)

unfoldable pub color_of : ℕ → ℕ
color_of p = p / piece_type_count

unfoldable pub type_of : ℕ → ℕ
type_of p = p % piece_type_count

-- The characters "PNBRQKpnbrqk".
abbrev pub piece_chars : List ℕ
piece_chars = b'P' ∷ b'N' ∷ b'B' ∷ b'R' ∷ b'Q' ∷ b'K' ∷ b'p' ∷ b'n' ∷ b'b' ∷ b'r' ∷ b'q' ∷ b'k' ∷ []

abbrev pub square_count : ℕ
square_count = 64

abbrev pub no_square : ℕ
no_square = 64

unfoldable pub make_square : ℕ → ℕ → ℕ
make_square file rank = u8 (rank * 8 + file)

unfoldable pub file_of : ℕ → ℕ
file_of s = bit_and s 7

unfoldable pub rank_of : ℕ → ℕ
rank_of s = s / 2 ^ 3

unfoldable pub square_string : ℕ → List ℕ
unfolding file_of rank_of
square_string s =
    if leb no_square s then b'-' ∷ [] else u8 (b'a' + file_of s) ∷ u8 (b'1' + rank_of s) ∷ []

unfoldable pub parse_square : List ℕ → Option ℕ
unfolding make_square
parse_square (f ∷ r ∷ []) =
    if ltb f b'a' || ltb b'h' f || ltb r b'1' || ltb b'8' r
    then none
    else some (make_square (f - b'a') (r - b'1'))
parse_square _ = none

abbrev pub white_king_side : ℕ
white_king_side = 1

abbrev pub white_queen_side : ℕ
white_queen_side = 2

abbrev pub black_king_side : ℕ
black_king_side = 4

abbrev pub black_queen_side : ℕ
black_queen_side = 8

abbrev pub no_castling : ℕ
no_castling = 0

abbrev pub all_castling : ℕ
all_castling = 15

unfoldable pub has_right : ℕ → ℕ → Bool
has_right cr r = not (bit_and cr r == 0)

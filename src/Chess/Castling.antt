-- ===== src/Chess/Castling.antt =====
-- internal/chess/castling.go: the four castling rights and where king and rook finish.
pub mod Setup
pub mod Examples
use novachess.Prelude.{ℕ, ◌+◌, ◌^◌, Bool, ltb, ◌==◌, if◌then◌else◌}
use novachess.Chess.Types.{black, white}
use novachess.Chess.Move.{from_of, to_of}

unfoldable pub right_at : ℕ → ℕ
right_at idx = 2 ^ idx

unfoldable pub castling_index : ℕ → Bool → ℕ
castling_index c king_side =
    let idx : ℕ = if c == black then 2 else 0 in if king_side then idx else idx + 1

unfoldable pub color_rights : ℕ → ℕ
color_rights c = if c == white then 3 else 12

-- The g and the c file, on the first and the eighth rank.
unfoldable pub castling_king_to : ℕ → ℕ
castling_king_to idx = if idx == 0 then 6 else if idx == 1 then 2 else if idx == 2 then 62 else 58

-- The f and the d file, on the first and the eighth rank.
unfoldable pub castling_rook_to : ℕ → ℕ
castling_rook_to idx = if idx == 0 then 5 else if idx == 1 then 3 else if idx == 2 then 61 else 59

unfoldable pub is_king_side_castling : ℕ → Bool
is_king_side_castling m = ltb (from_of m) (to_of m)

unfoldable pub castling_color_of : ℕ → ℕ
castling_color_of idx = if ltb idx 2 then white else black

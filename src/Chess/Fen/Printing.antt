-- ===== src/Chess/Fen/Printing.antt =====
-- FEN of internal/chess/position.go.
use novachess.Prelude.{
  ℕ, zero, suc, ◌-◌, Option, some, [], ◌∷◌, ◌++◌, ltb, ◌==◌, if◌then◌else◌, ◌>>=◌,
}
use novachess.Prelude.Text.{Text, codes, decimal, print_int}
use novachess.Chess.Types.{white, no_piece, piece_chars, make_square, square_string}
use novachess.Chess.Position.{Position}
use novachess.Chess.Notation.{byte_at, castling_fen}

abbrev gap : ℕ → Text
gap empty = if ltb 0 empty then decimal empty else []

-- `left` squares of a rank, behind `empty` empty ones.
unfoldable pub print_row : (ℕ → ℕ) → ℕ → ℕ → ℕ → Option Text
unfolding decimal make_square
print_row board rank zero empty = some (gap empty)
print_row board rank (suc left) empty =
    let pc = board (make_square (8 - suc left) rank) in
    let skip = print_row board rank left (suc empty) in
    let rest = print_row board rank left 0 in
    let placed = byte_at piece_chars pc >>= λ c. rest >>= λ row. some (gap empty ++ c ∷ row) in
    if pc == no_piece then skip else placed

unfoldable pub print_rows : (ℕ → ℕ) → ℕ → Option Text
unfolding print_row
print_rows board zero = some []
print_rows board (suc rank) = print_row board rank 8 0 >>= λ row.
    print_rows board rank >>= λ rows. some (row ++ (if ltb 0 rank then b'/' ∷ [] else []) ++ rows)

unfoldable pub print_fen : Position → Option Text
unfolding print_rows castling_fen square_string print_int
print_fen p = print_rows p.board 8 >>= λ rows. some (
    rows
    ++ (if p.side == white then codes " w " else codes " b ")
    ++ castling_fen p
    ++ b' ' ∷ square_string p.ep_square
    ++ b' ' ∷ print_int p.halfmove
    ++ b' ' ∷ print_int p.fullmove)

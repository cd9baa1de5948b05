-- ===== src/Chess/Notation.antt =====
-- Moves and castling rights as text: `Move.String`, `CastlingRights.String`, and `castlingFEN`,
-- `MoveToUCI` and `ParseUCIMove` of internal/chess/castling.go. A text is a list of bytes.
mod Written
pub mod Uci
pub mod Examples
use novachess.Prelude.{
  ℕ, zero, suc, ◌+◌, ◌-◌, bit_and, Bool, true, false, not, ◌||◌, ◌&&◌, Option, none, some, List, [],
  ◌∷◌, ◌++◌, ltb, leb, ◌==◌, if◌then◌else◌, ◌>>=◌,
}
use novachess.Prelude.Text.{◌==*◌}
use novachess.Chess.Types.{
  black, no_castling, no_piece, piece_chars, make_piece, color_of, file_of, has_right,
  square_string, u8,
}
use novachess.Chess.Move.{
  move_none, kind_promotion, kind_castling, from_of, to_of, kind_of, promotion_of, is_none,
}
use novachess.Chess.Castling.{
  right_at, castling_index, castling_king_to, castling_color_of, is_king_side_castling,
}
use novachess.Chess.Attacks.{Magics}
use novachess.Chess.Position.{Position}
use novachess.Chess.Movegen.{generate_legal_moves}

-- Indexing past the end of a text panics.
abbrev pub byte_at : List ℕ → ℕ → Option ℕ
byte_at [] i = none
byte_at (c ∷ cs) zero = some c
byte_at (c ∷ cs) (suc i) = byte_at cs i

unfoldable pub move_string : ℕ → Option (List ℕ)
move_string m =
    let squares = square_string (from_of m) ++ square_string (to_of m) in
    if is_none m
    then some (b'0' ∷ b'0' ∷ b'0' ∷ b'0' ∷ [])
    else if kind_of m == kind_promotion
    then (byte_at piece_chars (make_piece black (promotion_of m)) >>= λ letter.
        some (squares ++ letter ∷ []))
    else some squares

unfoldable pub move_to_uci : Position → ℕ → Option (List ℕ)
unfolding move_string
move_to_uci p m =
    let us = color_of (p.board (from_of m)) in
    let idx = castling_index us (is_king_side_castling m) in
    if not (kind_of m == kind_castling) || p.chess960
    then move_string m
    else some (square_string (from_of m) ++ square_string (castling_king_to idx))

-- The first loop: a move that is written so in this position.
unfoldable pub written_so : Position → List ℕ → List ℕ → Option (Option ℕ)
written_so p s [] = some none
written_so p s (m ∷ ms) =
    let rest = written_so p s ms in
    move_to_uci p m >>= λ text. if text ==* s then some (some m) else rest

-- The second loop: a castling move that takes its own rook.
unfoldable pub castles_so : List ℕ → List ℕ → Option (Option ℕ)
castles_so s [] = some none
castles_so s (m ∷ ms) =
    let rest = castles_so s ms in
    if kind_of m == kind_castling
    then (move_string m >>= λ text. if text ==* s then some (some m) else rest)
    else rest

unfoldable pub parse_among : Position → List ℕ → List ℕ → Option (Option ℕ)
unfolding written_so castles_so
parse_among p s ms =
    written_so p s ms >>= λ found. elim found [ some m ↦ some (some m) | none ↦ castles_so s ms ]

-- The outer `none` is a panic, the inner one the source's `false`.
unfoldable pub parse_uci_move : Magics → Position → List ℕ → Option (Option ℕ)
unfolding parse_among
parse_uci_move g p s = generate_legal_moves g p >>= parse_among p s

-- The letters "KQkq" of the rights that are held, from the bit `i` on.
unfoldable pub rights_letters : ℕ → ℕ → List ℕ → List ℕ
rights_letters rights i [] = []
rights_letters rights i (c ∷ cs) =
    let rest = rights_letters rights (suc i) cs in
    if not (bit_and rights (right_at i) == 0) then c ∷ rest else rest

unfoldable pub rights_string : ℕ → List ℕ
unfolding rights_letters
rights_string rights =
    if rights == no_castling
    then b'-' ∷ []
    else rights_letters rights 0 (b'K' ∷ b'Q' ∷ b'k' ∷ b'q' ∷ [])

-- Shredder notation, from the right `idx` on with `n` rights left.
unfoldable pub rook_letters : Position → ℕ → ℕ → List ℕ
rook_letters p idx zero = []
rook_letters p idx (suc n) =
    let file = u8 (b'A' + file_of (p.castling_rook idx)) in
    let rest = rook_letters p (suc idx) n in
    if not (has_right p.castling (right_at idx))
    then rest
    else (if castling_color_of idx == black then u8 (file + (b'a' - b'A')) else file) ∷ rest

unfoldable pub castling_fen : Position → List ℕ
unfolding rights_string rook_letters
castling_fen p =
    if p.castling == no_castling
    then b'-' ∷ []
    else if not p.chess960
    then rights_string p.castling
    else rook_letters p 0 4

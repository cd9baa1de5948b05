-- ===== src/Chess/Position/EnPassant.antt =====
-- En passant: `enPassantLegal` of internal/chess/movegen.go, `epCaptureAvailable` and `sanitize` of
-- internal/chess/position.go.
use novachess.Prelude.{
  ℕ, bit_and, bit_or, Bool, true, false, not, ◌||◌, Option, none, some, List, [], ◌∷◌, leb, ◌==◌,
  if◌then◌else◌, ◌>>=◌,
}
use novachess.Prelude.Int.{ℤ, pos, negsuc, ◌+ℤ◌, ◌-ℤ◌}
use novachess.Chess.Types.{
  u8_of_int, white, pawn, knight, bishop, rook, queen, no_piece, no_square, square_count, opposite,
  make_piece,
}
use novachess.Chess.Bitboard.{bb, and_not, squares}
use novachess.Chess.Attacks.{Magics, rook_attacks, bishop_attacks, knight_attacks, pawn_attacks}
use novachess.Chess.Position.{Position, occupied, pieces_of, king_square}

abbrev pub pawn_push : ℕ → ℤ
pawn_push c = if c == white then pos 8 else negsuc 7

-- `Square(int(s) - PawnPush(c))` and `Square(int(s) + PawnPush(c))`.
unfoldable pub behind : ℕ → ℕ → ℕ
unfolding ◌-ℤ◌
behind s c = u8_of_int (pos s -ℤ pawn_push c)

unfoldable pub ahead : ℕ → ℕ → ℕ
unfolding ◌+ℤ◌
ahead s c = u8_of_int (pos s +ℤ pawn_push c)

-- The tables are indexed by the king's square, which is 64 when there is no king.
unfoldable pub en_passant_legal : Magics → Position → ℕ → ℕ → ℕ → ℕ → ℕ → Option Bool
en_passant_legal g p from to us ksq occ =
    let cap_sq = behind to us in
    let occ_after = bit_or (and_not (and_not occ (bb from)) (bb cap_sq)) (bb to) in
    let theirs = p.by_color (opposite us) in
    let rooks =
      bit_and (rook_attacks g ksq occ_after) (bit_or (p.by_type rook) (p.by_type queen)) in
    let bishops =
      bit_and (bishop_attacks g ksq occ_after) (bit_or (p.by_type bishop) (p.by_type queen)) in
    let pawns = bit_and (bit_and (pawn_attacks us ksq) (p.by_type pawn)) theirs in
    if leb square_count ksq
    then none
    else if not (bit_and rooks theirs == 0)
    then some false
    else if not (bit_and bishops theirs == 0)
    then some false
    else if not (bit_and (bit_and (knight_attacks ksq) (p.by_type knight)) theirs == 0)
    then some false
    else if not (and_not pawns (bb cap_sq) == 0)
    then some false
    else some true

-- The loop over the candidates returns at the first that may capture.
unfoldable pub any_legal : Magics → Position → ℕ → ℕ → ℕ → ℕ → List ℕ → Option Bool
any_legal g p to us ksq occ [] = some false
any_legal g p to us ksq occ (from ∷ froms) =
    let rest = any_legal g p to us ksq occ froms in
    en_passant_legal g p from to us ksq occ >>= λ legal. if legal then some true else rest

-- `&^` after the shift, `PawnAttacks[them][epSq]`: the squares of pawns that attack `epSq`.
unfoldable pub ep_capture_available : Magics → Position → ℕ → ℕ → Option Bool
ep_capture_available g p ep_sq capturer =
    let them = opposite capturer in
    let cap_sq = behind ep_sq capturer in
    let candidates = bit_and (pawn_attacks them ep_sq) (pieces_of p capturer pawn) in
    if leb no_square ep_sq || not (p.board ep_sq == no_piece)
    then some false
    else if leb square_count cap_sq
    then none
    else if not (p.board cap_sq == make_piece them pawn)
    then some false
    else if candidates == 0
    then some false
    else any_legal g p ep_sq capturer (king_square p capturer) (occupied p) (squares candidates)

unfoldable pub sanitize : Magics → Position → Option Position
sanitize g p =
    if p.ep_square == no_square
    then some p
    else (ep_capture_available g p p.ep_square p.side >>= λ available.
        some (if available then p else record p { ep_square = no_square }))

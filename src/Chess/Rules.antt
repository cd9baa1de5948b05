-- ===== src/Chess/Rules.antt =====
-- internal/chess/rules.go: the rules that end a game, but for `Outcome`, which generates moves, and
-- `Shifted` of internal/chess/bitboard.go.
pub mod Reach
pub mod Walk
pub mod Outcome
pub mod Repetition
pub mod Material
pub mod Examples
pub mod OutcomeExamples
use novachess.Prelude.{
  ℕ, zero, suc, ◌+◌, ◌*◌, ◌/◌, ◌^◌, ◌%◌, bit_and, bit_or, bit_xor, Bool, true, false, not, ◌||◌,
  ◌&&◌, Option, none, some, List, [], ◌∷◌, ltb, leb, ◌==◌, if◌then◌else◌, ◌>>=◌,
}
use novachess.Prelude.Int.{ℤ, pos, negsuc, ◌+ℤ◌, ◌-ℤ◌, leb_ℤ, ltb_ℤ, ◌==ℤ◌}
use novachess.Chess.Types.{
  white, black, pawn, knight, bishop, rook, queen, no_square, opposite, file_of, rank_of,
}
use novachess.Chess.Bitboard.{bb, shl, and_not, has, count, squares, file_a, file_h, max_u64}
use novachess.Chess.Attacks.{king_attacks, pawn_attacks}
use novachess.Chess.Position.{Position, Undo, pieces_of, king_square}
use novachess.Chess.Position.EnPassant.{ahead}

-- The panic of a delta that is none of the eight directions is `none`.
unfoldable pub shifted : ℕ → ℤ → Option ℕ
shifted b delta =
    if delta ==ℤ pos 8
    then some (shl b 8)
    else if delta ==ℤ negsuc 7
    then some (b / 2 ^ 8)
    else if delta ==ℤ pos 1
    then some (shl (and_not b file_h) 1)
    else if delta ==ℤ negsuc 0
    then some (and_not b file_a / 2)
    else if delta ==ℤ pos 9
    then some (shl (and_not b file_h) 9)
    else if delta ==ℤ pos 7
    then some (shl (and_not b file_a) 7)
    else if delta ==ℤ negsuc 6
    then some (and_not b file_h / 2 ^ 7)
    else if delta ==ℤ negsuc 8
    then some (and_not b file_a / 2 ^ 9)
    else none

unfoldable pub is_fifty_move_rule : Position → Bool
is_fifty_move_rule p = leb_ℤ (pos 100) p.halfmove

unfoldable pub is_seventy_five_move_rule : Position → Bool
is_seventy_five_move_rule p = leb_ℤ (pos 150) p.halfmove

abbrev pub history_length : List Undo → ℕ
history_length [] = 0
history_length (u ∷ us) = suc (history_length us)

-- The loop, at index `i`: the list holds the entry of that index and the older ones.
unfoldable pub repeats : ℕ → List Undo → ℤ → ℤ → ℕ
repeats key [] i end = 0
repeats key (u ∷ []) i end = if ltb_ℤ i end then 0 else if u.key == key then 1 else 0
repeats key (u ∷ v ∷ us) i end =
    let rest = repeats key us (i -ℤ pos 2) end in
    if ltb_ℤ i end then 0 else (if u.key == key then 1 else 0) + rest

abbrev pub older : List Undo → List Undo
older [] = []
older (u ∷ us) = us

unfoldable pub repetition_count : Position → ℕ
unfolding repeats
repetition_count p =
    let len = pos (history_length p.history) in
    let end : ℤ = if ltb_ℤ (len -ℤ p.halfmove) (pos 0) then pos 0 else len -ℤ p.halfmove in
    repeats p.key (older p.history) (len -ℤ pos 2) end

unfoldable pub is_threefold_repetition : Position → Bool
unfolding repetition_count
is_threefold_repetition p = leb 2 (repetition_count p)

unfoldable pub is_fivefold_repetition : Position → Bool
unfolding repetition_count
is_fivefold_repetition p = leb 4 (repetition_count p)

unfoldable pub is_repetition : Position → Bool
unfolding repetition_count
is_repetition p = leb 1 (repetition_count p)

abbrev pub dark_squares : ℕ
dark_squares = 0xaa55aa55aa55aa55

abbrev pub light_squares : ℕ
light_squares = 0x55aa55aa55aa55aa

unfoldable pub square_is_dark : ℕ → Bool
unfolding file_of rank_of
square_is_dark s = (file_of s + rank_of s) % 2 == 0

unfoldable pub bishops_on_one_color_complex : ℕ → Bool
bishops_on_one_color_complex bishops =
    bit_and bishops dark_squares == 0 || bit_and bishops light_squares == 0

unfoldable pub is_insufficient_material : Position → Bool
unfolding bishops_on_one_color_complex
is_insufficient_material p =
    let knights = p.by_type knight in
    let bishops = p.by_type bishop in
    let minors = count (bit_or knights bishops) in
    if not (bit_or (bit_or (p.by_type pawn) (p.by_type rook)) (p.by_type queen) == 0)
    then false
    else if minors == 0
    then true
    else if minors == 1
    then true
    else if not (knights == 0)
    then false
    else bishops_on_one_color_complex bishops

unfoldable pub pawn_attack_span : ℕ → ℕ → Option ℕ
unfolding shifted
pawn_attack_span pawns c =
    if c == white
    then (shifted pawns (pos 9) >>= λ east.
        shifted pawns (pos 7) >>= λ west. some (bit_or east west))
    else (shifted pawns (negsuc 6) >>= λ east.
        shifted pawns (negsuc 8) >>= λ west. some (bit_or east west))

-- The inner loop of the flood fill.
unfoldable pub spread : List ℕ → ℕ → ℕ
spread [] grown = grown
spread (s ∷ ss) grown = spread ss (bit_or grown (king_attacks s))

unfoldable pub grow : ℕ → ℕ → ℕ
unfolding spread
grow reach walls = and_not (spread (squares reach) reach) walls

-- At most 64 rounds add a square, the first may drop the square it starts from, and the last
-- changes nothing.
unfoldable pub flood : ℕ → ℕ → ℕ → ℕ
flood zero reach walls = reach
flood (suc fuel) reach walls =
    let grown = grow reach walls in
    let rest = flood fuel grown walls in if grown == reach then reach else rest

unfoldable pub king_reachable_squares : ℕ → ℕ → ℕ
unfolding flood
king_reachable_squares from walls = flood 66 (bb from) walls

-- The loop of the second condition, over the pawns of one side.
unfoldable pub all_blocked : ℕ → ℕ → ℕ → List ℕ → Bool
all_blocked c pawns their_pawns [] = true
all_blocked c pawns their_pawns (s ∷ ss) =
    if not (has pawns (ahead s c))
    then false
    else if not (bit_and (pawn_attacks c s) their_pawns == 0)
    then false
    else all_blocked c pawns their_pawns ss

-- The loop of the third condition, over the undefended pawns of the other side.
unfoldable pub none_at_risk : ℕ → List ℕ → Bool
none_at_risk reach [] = true
none_at_risk reach (s ∷ ss) =
    if not (bit_and reach (king_attacks s) == 0) then false else none_at_risk reach ss

unfoldable pub pawns_immobile : Position → ℕ → Bool
unfolding all_blocked
pawns_immobile p c =
    all_blocked c (p.by_type pawn) (pieces_of p (opposite c) pawn) (squares (pieces_of p c pawn))

unfoldable pub king_shut_out : Position → ℕ → Option Bool
unfolding pawn_attack_span king_reachable_squares none_at_risk
king_shut_out p c =
    let their_pawns = pieces_of p (opposite c) pawn in
    let ksq = king_square p c in
    pawn_attack_span their_pawns (opposite c) >>= λ attacks. some (
      if has attacks ksq
      then false
      else none_at_risk (king_reachable_squares ksq (bit_or (p.by_type pawn) attacks))
          (squares (and_not their_pawns attacks)))

unfoldable pub is_blocked_dead_position : Position → Option Bool
unfolding pawns_immobile king_shut_out
is_blocked_dead_position p =
    let pieces =
      bit_or (bit_or (bit_or (p.by_type knight) (p.by_type bishop)) (p.by_type rook))
        (p.by_type queen) in
    if not (pieces == 0)
    then some false
    else if p.by_type pawn == 0
    then some false
    else if not (p.ep_square == no_square)
    then some false
    else if not (pawns_immobile p white)
    then some false
    else if not (pawns_immobile p black)
    then some false
    else (king_shut_out p white >>= λ shut. if shut then king_shut_out p black else some false)

unfoldable pub is_dead_position : Position → Option Bool
unfolding is_insufficient_material is_blocked_dead_position
is_dead_position p = if is_insufficient_material p then some true else is_blocked_dead_position p

unfoldable pub is_draw : Position → Option Bool
unfolding is_fifty_move_rule is_threefold_repetition is_dead_position
is_draw p =
    if is_fifty_move_rule p
    then some true
    else if is_threefold_repetition p
    then some true
    else is_dead_position p

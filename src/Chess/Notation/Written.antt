-- ===== src/Chess/Notation/Written.antt =====
-- What the text of a move tells of it.
use native.Mathlib.Omega.{arith}
use novachess.Prelude.{
  ℕ, zero, suc, ◌+◌, ◌/◌, ◌%◌, ◌≤◌, ◌<◌, false, not, ◌&&◌, Option, none, some, List, [], ◌∷◌, ◌≡◌,
  refl, sym, ap, ◌∙◌, ◌==◌, if◌then◌else◌, Bool-cases, ==_iff, inl, inr,
}
use novachess.Chess.Types.{black, make_piece, piece_chars, color_of, knight, queen}
use novachess.Chess.Types.Names.{square_string-on_board}
use novachess.Chess.Move.{
  move_none, kind_promotion, kind_castling, from_of, to_of, kind_of, promotion_of, is_none,
}
use novachess.Chess.Move.Fields.{from_of-lt, to_of-lt, promotion_of-le, promotion_of-ge}
use novachess.Chess.Castling.{castling_index, castling_king_to, is_king_side_castling}
use novachess.Chess.Position.{Position}
use novachess.Chess.Notation.{byte_at, move_string, move_to_uci}

-- Where a move is written to go: a castling king's own goal, unless the game is Chess960.
abbrev pub destination : Position → ℕ → ℕ
destination p m =
    let idx = castling_index (color_of (p.board (from_of m))) (is_king_side_castling m) in
    if kind_of m == kind_castling && not p.chess960 then castling_king_to idx else to_of m

-- The piece that a move promotes to, 0 for none.
abbrev pub promotes_to : ℕ → ℕ
promotes_to m = if kind_of m == kind_promotion then promotion_of m else 0

abbrev letters : Option ℕ → List ℕ
letters none = []
letters (some c) = c ∷ []

abbrev suffix : ℕ → List ℕ
suffix m =
    if kind_of m == kind_promotion
    then letters (byte_at piece_chars (make_piece black (promotion_of m)))
    else []

abbrev square_and : ℕ → List ℕ → List ℕ
square_and s rest = (97 + s % 8) ∷ (49 + s / 8) ∷ rest

abbrev written : Position → ℕ → List ℕ
written p m = square_and (from_of m) (square_and (destination p m) (suffix m))

castling_king_to-lt : (idx : ℕ) → castling_king_to idx < 64
unfolding castling_king_to
castling_king_to-lt idx = ground arith

move_string-written :
    (m : ℕ) {text : List ℕ}
    → is_none m ≡ false
    → move_string m ≡ some text
    → text ≡ square_and (from_of m) (square_and (to_of m) (suffix m))
unfolding move_string
move_string-written m h e =
    let from = square_string-on_board (from_of m) (from_of-lt m) in
    let to = square_string-on_board (to_of m) (to_of-lt m) in ground (arith, from, to)

move_to_uci-written :
    (p : Position) (m : ℕ) {text : List ℕ}
    → is_none m ≡ false
    → move_to_uci p m ≡ some text
    → text ≡ written p m
unfolding move_to_uci
move_to_uci-written p m {text = text} h e =
    let idx = castling_index (color_of (p.board (from_of m))) (is_king_side_castling m) in
    let plain = move_string-written m {text = text} h in
    let from = square_string-on_board (from_of m) (from_of-lt m) in
    let goal = square_string-on_board (castling_king_to idx) (castling_king_to-lt idx) in
    ground (arith, from, goal, plain)

destination-lt : (p : Position) (m : ℕ) → destination p m < 64
destination-lt p m =
    let idx = castling_index (color_of (p.board (from_of m))) (is_king_side_castling m) in
    ground (arith, castling_king_to-lt idx, to_of-lt m)

same_square : (s t : ℕ) (xs ys : List ℕ) → square_and s xs ≡ square_and t ys → (s ≡ t) × (xs ≡ ys)
same_square s t xs ys e =
    let file : 97 + s % 8 ≡ 97 + t % 8 = cc in
    let rank : 49 + s / 8 ≡ 49 + t / 8 = cc in (omega arith, cc)

-- The piece that a letter stands for, 0 for no letter.
abbrev read_suffix : List ℕ → ℕ
read_suffix [] = 0
read_suffix (c ∷ cs) = if c == b'n' then 1 else if c == b'b' then 2 else if c == b'r' then 3 else 4

read_suffix-letters :
    (pt : ℕ)
    → knight ≤ pt
    → pt ≤ queen
    → read_suffix (letters (byte_at piece_chars (make_piece black pt))) ≡ pt
unfolding make_piece
read_suffix-letters zero lo hi = absurd (omega arith)
read_suffix-letters (suc zero) lo hi = refl
read_suffix-letters (suc (suc zero)) lo hi = refl
read_suffix-letters (suc (suc (suc zero))) lo hi = refl
read_suffix-letters (suc (suc (suc (suc zero)))) lo hi = refl
read_suffix-letters (suc (suc (suc (suc (suc n))))) lo hi = absurd (omega arith)

read_suffix-suffix : (m : ℕ) → read_suffix (suffix m) ≡ promotes_to m
read_suffix-suffix m = elim (Bool-cases (kind_of m == kind_promotion)) [
  | inl promotes ↦
      rw promotes (read_suffix-letters (promotion_of m) (promotion_of-ge m) (promotion_of-le m))
  | inr other ↦ rw other refl
]

-- Moves that are written the same go from the same square to the same square, with the same piece.
pub written_apart :
    (p : Position) (m n : ℕ) (text : List ℕ)
    → is_none m ≡ false
    → is_none n ≡ false
    → move_to_uci p m ≡ some text
    → move_to_uci p n ≡ some text
    → (from_of n ≡ from_of m)
      × (destination p n ≡ destination p m)
      × (promotes_to n ≡ promotes_to m)
written_apart p m n text hm hn em en =
    let same = sym (move_to_uci-written p n hn en) ∙ move_to_uci-written p m hm em in
    let (from, rest) = same_square (from_of n) (from_of m) _ _ same in
    let (goal, piece) = same_square (destination p n) (destination p m) _ _ rest in
    (from, goal, sym (read_suffix-suffix n) ∙ ap read_suffix piece ∙ read_suffix-suffix m)

-- "0000" is written for no other move.
none-written : (p : Position) → move_to_uci p move_none ≡ some (48 ∷ 48 ∷ 48 ∷ 48 ∷ [])
unfolding move_to_uci is_none kind_of
none-written p = refl

pub written_none :
    (p : Position) (m n : ℕ) (text : List ℕ)
    → is_none m ≡ false
    → move_to_uci p m ≡ some text
    → move_to_uci p n ≡ some text
    → is_none n ≡ false
unfolding is_none
written_none p m n text hm em en = elim (Bool-cases (n == 0)) [
  | inr real ↦ real
  | inl absent ↦
      let is_0 : n ≡ 0 = (==_iff n 0).0 absent in
      let zeros = sym (none-written p) ∙ ap (move_to_uci p) (sym is_0) ∙ en in
      let first : 48 ≡ 97 + from_of m % 8 = (let w = move_to_uci-written p m hm em in cc) in
      absurd (omega arith)
]

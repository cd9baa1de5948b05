-- ===== src/Chess/Castling/Setup.antt =====
-- `setCastlingRight` and `findCastlingRook` of internal/chess/castling.go, which record a right with
-- its rook, the squares that must be empty, and the rights that each square revokes.
use native.Mathlib.Omega.{arith}
use novachess.Prelude.{
  ℕ, zero, suc, ◌-◌, ◌<◌, bit_or, Bool, true, false, not, ◌||◌, Option, none, some, leb, ◌==◌, ◌≡◌,
  refl, ◌∙◌, update, if◌then◌else◌, inl, inr, Bool-cases, ◌⊎◌,
}
use novachess.Prelude.Bits.{test_bit, test_bit-and, test_bit-or, test_bit-pow}
use novachess.Chess.Types.{black, rook, square_count, make_piece, make_square, file_of, rank_of}
use novachess.Chess.Bitboard.{bb, and_not}
use novachess.Chess.Bitboard.Members.{test_bit-and_not}
use novachess.Chess.Attacks.{between}
use novachess.Chess.Castling.{
  right_at, color_rights, castling_color_of, castling_king_to, castling_rook_to,
}
use novachess.Chess.Position.{Position, king_square}
use novachess.Chess.Position.Turn.{rights_after}

-- The position with the right. The rights are a byte, whose complement is within the 64 bits that
-- `and_not` reads.
unfoldable pub with_castling_right : Position → ℕ → ℕ → Position
with_castling_right p idx rook_from =
    let us = castling_color_of idx in
    let king_from = king_square p us in
    let king_to = castling_king_to idx in
    let rook_to = castling_rook_to idx in
    let path =
      and_not
        (bit_or
          (bit_or (bit_or (between king_from king_to) (bb king_to)) (between rook_from rook_to))
          (bb rook_to))
        (bit_or (bb king_from) (bb rook_from)) in
    let king_mask = update p.cr_mask king_from (and_not (p.cr_mask king_from) (color_rights us)) in
    record p {
      castling = bit_or p.castling (right_at idx);
      castling_rook = update p.castling_rook idx rook_from;
      castling_path = update p.castling_path idx path;
      cr_mask = update king_mask rook_from (and_not (king_mask rook_from) (right_at idx));
    }

-- The tables have no entry for a square past h8.
unfoldable pub set_castling_right : Position → ℕ → ℕ → Option Position
unfolding with_castling_right
set_castling_right p idx rook_from =
    if leb square_count (king_square p (castling_color_of idx)) || leb square_count rook_from
    then none
    else some (with_castling_right p idx rook_from)

-- The loops over the files, up or down from `file`, with `n` files left.
unfoldable pub rook_between : Position → ℕ → ℕ → ℕ → ℕ → Option ℕ
rook_between p pc rank file zero = none
rook_between p pc rank file (suc n) =
    let sq = make_square file rank in
    let rest = rook_between p pc rank (suc file) n in if p.board sq == pc then some sq else rest

unfoldable pub rook_downto : Position → ℕ → ℕ → ℕ → ℕ → Option ℕ
rook_downto p pc rank file zero = none
rook_downto p pc rank file (suc n) =
    let sq = make_square file rank in
    let rest = rook_downto p pc rank (file - 1) n in if p.board sq == pc then some sq else rest

-- Here `none` is the source's `false`.
unfoldable pub find_castling_rook : Position → ℕ → Bool → Option ℕ
unfolding rook_between rook_downto
find_castling_rook p us king_side =
    let ksq = king_square p us in
    let rank : ℕ = if us == black then 7 else 0 in
    let pc = make_piece us rook in
    if not (rank_of ksq == rank)
    then none
    else if king_side
    then rook_downto p pc rank 7 (7 - file_of ksq)
    else rook_between p pc rank 0 (file_of ksq)

lost :
    (mask right idx : ℕ)
    → idx < 64
    → test_bit right idx ≡ true
    → test_bit (and_not mask right) idx ≡ false
lost mask right idx h t = ground (arith, test_bit-and_not mask right idx h)

right_bit : (idx : ℕ) → test_bit (right_at idx) idx ≡ true
unfolding right_at
right_bit idx = test_bit-pow idx idx ∙ ground arith

color_bit : (idx : ℕ) → idx < 4 → test_bit (color_rights (castling_color_of idx)) idx ≡ true
unfolding color_rights castling_color_of test_bit
color_bit zero h = refl
color_bit (suc zero) h = refl
color_bit (suc (suc zero)) h = refl
color_bit (suc (suc (suc zero))) h = refl
color_bit (suc (suc (suc (suc idx)))) h = absurd (omega arith)

-- The masks after both writes, at the square of the king or of the rook.
home_mask :
    (mask : ℕ → ℕ) (king_from rook_from rights right idx home : ℕ)
    → idx < 64
    → test_bit rights idx ≡ true
    → test_bit right idx ≡ true
    → (home ≡ king_from) ⊎ (home ≡ rook_from)
    → let kings = update mask king_from (and_not (mask king_from) rights) in
      test_bit (update kings rook_from (and_not (kings rook_from) right) home) idx ≡ false
home_mask mask king_from rook_from rights right idx home h t u at =
    let kings = update mask king_from (and_not (mask king_from) rights) in
    let by_rook = lost (kings rook_from) right idx h u in
    let by_king = lost (mask king_from) rights idx h t in
    elim (Bool-cases (rook_from == home)) [
      | inl e ↦ rw e by_rook
      | inr e ↦ rw e (elim (Bool-cases (king_from == home)) [
        | inl k ↦ rw k by_king
        | inr k ↦ absurd (ground arith)
      ])
    ]

-- Once a castling right is recorded, with the king and the rook on the board, the right is held;
-- and it is not among the rights left by a move from or to the square of its king or of its rook.
pub set_castling_right-revokes :
    (p : Position) (idx rook_from home other : ℕ)
    → idx < 4
    → king_square p (castling_color_of idx) < 64
    → rook_from < 64
    → (home ≡ king_square p (castling_color_of idx)) ⊎ (home ≡ rook_from)
    → (q : Position) × (set_castling_right p idx rook_from ≡ some q)
      × (test_bit q.castling idx ≡ true)
      × (test_bit (rights_after q home other) idx ≡ false)
      × (test_bit (rights_after q other home) idx ≡ false)
unfolding set_castling_right with_castling_right
set_castling_right-revokes p idx rook_from home other h k r at =
    let us = castling_color_of idx in
    let king_from = king_square p us in
    let gone =
      home_mask p.cr_mask king_from rook_from (color_rights us) (right_at idx) idx home
        (omega arith) (color_bit idx h) (right_bit idx) at in
    let returns : (leb square_count king_from || leb square_count rook_from) ≡ false =
      ground arith in
    (
      with_castling_right p idx rook_from,
      rw returns refl,
      test_bit-or idx p.castling (right_at idx) ∙ rw (right_bit idx) (ground arith),
      test_bit-and idx _ _ ∙ rw (test_bit-and, gone) (ground arith),
      test_bit-and idx _ _ ∙ rw gone (ground arith),
    )

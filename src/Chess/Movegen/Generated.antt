-- ===== src/Chess/Movegen/Generated.antt =====
-- The whole generator: all of its moves start from pieces of the side to move.
use native.Mathlib.Omega.{arith}
use novachess.Prelude.{
  ℕ, ◌^◌, ◌<◌, bit_and, bit_or, bit_xor, not, none, leb, Bool, true, false, some, List, [], ◌∷◌,
  ◌≡◌, ◌==◌,
}
use novachess.Prelude.Bits.{test_bit, test_bit-and, test_bit-zero, and-le_left}
use novachess.Chess.Movegen.Attackers.{attackers_to, blockers_for_king}
use novachess.Chess.Types.{
  pawn, king, rook, queen, square_count, opposite, has_right, make_piece, color_of, type_of,
}
use novachess.Chess.Move.{new_castling}
use novachess.Chess.Bitboard.{more_than_one, bb, first, pop_first}
use novachess.Chess.Bitboard.Iteration.{pop_first-Pops}
use novachess.Chess.Attacks.{Magics, rook_attacks}
use novachess.Chess.Position.{Position, king_square, occupied}
use novachess.Chess.Position.Consistent.{Consistent}
use novachess.Chess.Position.Available.{king_square-lt}
use novachess.Chess.Castling.{right_at, castling_index, castling_king_to}
use novachess.Chess.Movegen.King.{king_path_attacked, gen_king_moves, castling_moves, gen_castling}
use novachess.Chess.Movegen.Pawns.{gen_pawn_moves}
use novachess.Chess.Movegen.Origins.{
  from_of-new_castling, AllStart, no_more, Starts, panics, returns, AllStart-append, AllStart-if,
  Starts-if, Starts-after, Starts-bind, pieces_of-Members,
}
use novachess.Chess.Movegen.Own.{
  single, king_moves-Starts, gen_piece_moves-AllStart, pawns_moves-Starts,
}
use novachess.Chess.Movegen.{in_capacity, men_moves, other_moves, after_king, generate}

-- A side with a king on the board has one of its pieces on its king square.
king_square-own :
    (p : Position) (us k : ℕ)
    → Consistent p
    → us < 2
    → k < 64
    → p.board k ≡ make_piece us king
    → test_bit (p.by_color us) (king_square p us) ≡ true
unfolding king_square first pop_first make_piece color_of type_of
king_square-own p us k v lt h e =
    let kings = bit_and (p.by_color us) (p.by_type king) in
    let there : test_bit kings k ≡ true = ground (
      arith,
      test_bit-and k (p.by_color us) (p.by_type king),
      v.colors.bits us k h,
      v.types.bits king k h,
    ) in
    let some_king : 0 < kings = ground (arith, test_bit-zero k) in
    let word : kings < 2 ^ 64 = omega (
      arith,
      and-le_left 64 (p.by_color us) (p.by_type king) (v.colors.words us),
      v.colors.words us,
    ) in
    let member = (pop_first-Pops kings some_king word).member in
    ground (arith, member, test_bit-and (king_square p us) (p.by_color us) (p.by_type king))

module _ (g : Magics) (p : Position) (us : ℕ) (c : Consistent p) (h : king_square p us < 64)
    (own : test_bit (p.by_color us) (king_square p us) ≡ true) where
  castling_moves-Starts :
      (occ : ℕ) (side : Bool) → Starts p.board us (castling_moves g p us occ side)
  unfolding castling_moves
  castling_moves-Starts occ side =
      let b = p.board in
      let idx = castling_index us side in
      let rook_from = p.castling_rook idx in
      let king_to = castling_king_to idx in
      let sliders =
        bit_and (rook_attacks g king_to (bit_xor occ (bb rook_from)))
          (bit_or (p.by_type rook) (p.by_type queen)) in
      let none_here : Starts b us (some []) = returns [] no_more in
      Starts-if b us (not (has_right p.castling (right_at idx))) (some []) _ none_here (
        Starts-if b us (not (bit_and occ (p.castling_path idx) == 0)) (some []) _ none_here (
          Starts-if b us (leb square_count rook_from) none _ panics (
            Starts-if b us (not (p.board rook_from == make_piece us rook)) (some []) _ none_here (
              Starts-after b us (king_path_attacked g p (king_square p us) king_to (opposite us)) _
                λ attacked. returns _ (
                  AllStart-if b us attacked [] _ no_more (
                    AllStart-if b us (not (bit_and sliders (p.by_color (opposite us)) == 0)) []
                      (new_castling (king_square p us) rook_from ∷ []) no_more
                      (single g p us c (king_square p us) h own _
                        (from_of-new_castling (king_square p us) rook_from h))))))))

  gen_castling-Starts : (occ : ℕ) → Starts p.board us (gen_castling g p us occ)
  unfolding gen_castling
  gen_castling-Starts occ =
      Starts-bind p.board us _ _ (castling_moves-Starts occ true) λ short short_ok.
        Starts-bind p.board us _ _ (castling_moves-Starts occ false)
          λ long long_ok. returns _ (AllStart-append p.board us short long short_ok long_ok)

in_capacity-Starts :
    (b : ℕ → ℕ) (us : ℕ) (ms : List ℕ) → AllStart b us ms → Starts b us (in_capacity ms)
unfolding in_capacity
in_capacity-Starts b us ms h = Starts-if b us _ (some ms) _ (returns ms h) panics

men_moves-Starts :
    (g : Magics) (p : Position) (targets quiet : ℕ) (castling : List ℕ)
    → Consistent p
    → AllStart p.board p.side castling
    → Starts p.board p.side (men_moves g p targets quiet castling)
unfolding men_moves gen_pawn_moves
men_moves-Starts g p targets quiet castling c castling_ok =
    let b = p.board in
    let us = p.side in
    Starts-after b us (blockers_for_king g p us) _ λ blockers.
      Starts-bind b us _ _
        (pawns_moves-Starts g p us c targets quiet (bit_and blockers (p.by_color us))
          (king_square p us) (occupied p) _ (pieces_of-Members p us pawn c))
        λ pawns pawns_ok. returns _ (
          AllStart-append b us _ _ (AllStart-append b us castling pawns castling_ok pawns_ok)
            (gen_piece_moves-AllStart g p us c targets _ _ _))

other_moves-Starts :
    (g : Magics) (p : Position) (captures_only : Bool) (found : ℕ)
    → Consistent p
    → king_square p p.side < 64
    → test_bit (p.by_color p.side) (king_square p p.side) ≡ true
    → Starts p.board p.side (other_moves g p captures_only found)
unfolding other_moves
other_moves-Starts g p captures_only found c h own =
    let b = p.board in
    let us = p.side in
    Starts-bind b us _ (men_moves g p _ _)
      (Starts-if b us _ (gen_castling g p us (occupied p)) (some [])
        (gen_castling-Starts g p us c h own (occupied p)) (returns [] no_more))
      λ castling castling_ok. men_moves-Starts g p _ _ castling c castling_ok

after_king-Starts :
    (g : Magics) (p : Position) (captures_only : Bool) (found : ℕ) (king : List ℕ)
    → Consistent p
    → king_square p p.side < 64
    → test_bit (p.by_color p.side) (king_square p p.side) ≡ true
    → AllStart p.board p.side king
    → Starts p.board p.side (after_king g p captures_only found king)
unfolding after_king
after_king-Starts g p captures_only found king c h own king_ok =
    let b = p.board in
    let us = p.side in
    Starts-if b us (more_than_one found) (in_capacity king) _ (in_capacity-Starts b us king king_ok)
      (Starts-bind b us (other_moves g p captures_only found) _
        (other_moves-Starts g p captures_only found c h own)
        λ others others_ok.
          in_capacity-Starts b us _ (AllStart-append b us king others king_ok others_ok))

gen_king_moves-Starts :
    (g : Magics) (p : Position) (them occ targets : ℕ)
    → Consistent p
    → king_square p p.side < 64
    → test_bit (p.by_color p.side) (king_square p p.side) ≡ true
    → Starts p.board p.side (gen_king_moves g p (king_square p p.side) them occ targets)
unfolding gen_king_moves
gen_king_moves-Starts g p them occ targets c h own =
    king_moves-Starts g p p.side c (king_square p p.side) h own them _ _

-- On a position whose bitboards index its mailbox and whose side to move has a king, every move
-- that the generator returns, of all moves or of captures, starts from a piece of that side.
pub generate-Starts :
    (g : Magics) (p : Position) (captures_only : Bool) (k : ℕ)
    → Consistent p
    → p.side < 2
    → k < 64
    → p.board k ≡ make_piece p.side king
    → Starts p.board p.side (generate g p captures_only)
unfolding generate
generate-Starts g p captures_only k c lt h e =
    let b = p.board in
    let us = p.side in
    let ksq_lt = king_square-lt p us k c lt h e in
    let own = king_square-own p us k c lt h e in
    Starts-after b us (attackers_to g p (king_square p us) (occupied p)) _ λ attackers.
      Starts-bind b us _ (after_king g p _ _)
        (gen_king_moves-Starts g p (opposite us) (occupied p) _ c ksq_lt own)
        λ king king_ok. after_king-Starts g p _ _ king c ksq_lt own king_ok

-- ===== src/Chess/Position/Available.antt =====
-- When `epCaptureAvailable` answers, and when it panics.
use native.Mathlib.Omega.{arith}
use novachess.Prelude.{
  ℕ, zero, suc, ◌≤◌, ◌<◌, ◌^◌, bit_and, Bool, true, Option, none, some, List, [], ◌∷◌, ◌≡◌, ◌≢◌,
  ◌↔◌, ◌⊎◌, refl,
}
use novachess.Prelude.Bits.{test_bit, test_bit-and, test_bit-zero, and-le_left}
use novachess.Prelude.Int.{◌-ℤ◌, ◌+ℤ◌}
use novachess.Chess.Types.{
  white, black, pawn, king, no_piece, opposite, make_piece, color_of, type_of,
}
use novachess.Chess.Bitboard.{first, pop_first, squares}
use novachess.Chess.Bitboard.Iteration.{pop_first-Pops}
use novachess.Chess.Attacks.{Magics, pawn_attacks}
use novachess.Chess.Position.{Position, king_square, occupied, pieces_of}
use novachess.Chess.Position.EnPassant.{
  behind, ahead, en_passant_legal, any_legal, ep_capture_available, sanitize,
}
use novachess.Chess.Position.Consistent.{Consistent}

first-lt : (b k : ℕ) → b < 2 ^ 64 → test_bit b k ≡ true → first b < 64
unfolding first pop_first
first-lt b k h t =
    let pos : 0 < b = ground (arith, test_bit-zero k) in (pop_first-Pops b pos h).on_board

-- A side with a king on the board has its square.
pub king_square-lt :
    (p : Position) (c k : ℕ)
    → Consistent p
    → c < 2
    → k < 64
    → p.board k ≡ make_piece c king
    → king_square p c < 64
unfolding king_square make_piece color_of type_of
king_square-lt p c k v lt h e =
    first-lt (bit_and (p.by_color c) (p.by_type king)) k
      (omega (
        arith,
        and-le_left 64 (p.by_color c) (p.by_type king) (v.colors.words c),
        v.colors.words c,
      ))
      (ground (
        arith,
        test_bit-and k (p.by_color c) (p.by_type king),
        v.colors.bits c k h,
        v.types.bits king k h,
      ))

answer_of : (o : Option Bool) → o ≢ none → (a : Bool) × (o ≡ some a)
answer_of none h = absurd (h refl)
answer_of (some a) h = (a, refl)

module _ (g : Magics) (p : Position) where
  en_passant_legal-ne-none :
      (from to us ksq occ : ℕ) → ksq < 64 → en_passant_legal g p from to us ksq occ ≢ none
  unfolding en_passant_legal
  en_passant_legal-ne-none from to us ksq occ h = ground arith

  any_legal-ne-none :
      (to us ksq occ : ℕ) (froms : List ℕ) → ksq < 64 → any_legal g p to us ksq occ froms ≢ none
  unfolding any_legal
  any_legal-ne-none to us ksq occ [] h = λ e. cc
  any_legal-ne-none to us ksq occ (from ∷ froms) h = ground (
    arith,
    en_passant_legal-ne-none from to us ksq occ h,
    any_legal-ne-none to us ksq occ froms h,
  )

  -- The only panic left is the victim's square off the board.
  ep_capture_available-panics :
      (ep_sq capturer : ℕ)
      → king_square p capturer < 64
      → (ep_capture_available g p ep_sq capturer ≡ none)
        ↔ ((ep_sq < 64) × (p.board ep_sq ≡ no_piece) × (64 ≤ behind ep_sq capturer))
  unfolding ep_capture_available
  ep_capture_available-panics ep_sq capturer h =
      let looped =
        any_legal-ne-none ep_sq capturer (king_square p capturer) (occupied p)
          (squares (bit_and (pawn_attacks (opposite capturer) ep_sq) (pieces_of p capturer pawn)))
          h in
      ((λ e. ground (arith, looped)), (λ e. ground arith))

  pub ep_capture_available-answers :
      (ep_sq capturer : ℕ)
      → king_square p capturer < 64
      → (64 ≤ ep_sq) ⊎ (behind ep_sq capturer < 64)
      → (a : Bool) × (ep_capture_available g p ep_sq capturer ≡ some a)
  ep_capture_available-answers ep_sq capturer h inside =
      answer_of _ (λ e. ground (arith, (ep_capture_available-panics ep_sq capturer h).0 e))

pub behind_off :
    (s c : ℕ)
    → s < 64
    → c < 2
    → (64 ≤ behind s c) ↔ ((c ≡ white × (s < 8)) ⊎ (c ≡ black × (56 ≤ s)))
unfolding behind ◌-ℤ◌
behind_off s c h lt = ((λ e. ground arith), (λ e. ground arith))

-- `sanitize`, on a position whose views agree and whose side to move has a king, panics exactly
-- when the en passant square is an empty one on the mover's own back rank: then the square of the
-- pawn to capture lies off the board, and the mailbox is read there.
pub sanitize_panics :
    (g : Magics) (p : Position) (k : ℕ)
    → Consistent p
    → p.side < 2
    → k < 64
    → p.board k ≡ make_piece p.side king
    → (sanitize g p ≡ none) ↔ (
        (p.board p.ep_square ≡ no_piece)
        × (((p.side ≡ white) × (p.ep_square < 8))
            ⊎ ((p.side ≡ black) × (56 ≤ p.ep_square) × (p.ep_square < 64))))
unfolding sanitize
sanitize_panics g p k v lt h e =
    let found = king_square-lt p p.side k v lt h e in
    let (only, back) = ep_capture_available-panics g p p.ep_square p.side found in
    (
      (λ o. ground (arith, behind_off p.ep_square p.side)),
      (λ o. ground (arith, back, behind_off p.ep_square p.side)),
    )

-- A capture is found only on a square of the board.
pub available-lt :
    (g : Magics) (p : Position) (ep_sq capturer : ℕ)
    → ep_capture_available g p ep_sq capturer ≡ some true
    → ep_sq < 64
unfolding ep_capture_available
available-lt g p ep_sq capturer h = ground arith

pub behind-opposite : (s us : ℕ) → us < 2 → behind s (opposite us) ≡ ahead s us
unfolding behind ahead ◌-ℤ◌ ◌+ℤ◌ opposite
behind-opposite s zero h = ground arith
behind-opposite s (suc zero) h = ground arith
behind-opposite s (suc (suc us)) h = absurd (omega arith)

-- ===== src/Chess/Zobrist/Update.antt =====
-- What a change of one square does to the key of the board.
use native.Mathlib.Omega.{arith}
use novachess.Prelude.{
  ℕ, zero, suc, bit_xor, ◌≤◌, ◌<◌, ◌==◌, ◌≡◌, refl, inl, inr, Bool-cases, ==_iff, update,
  if◌then◌else◌,
}
use novachess.Prelude.Xor.{xor-zero, zero-xor, xor_swap, xor_replace}
use novachess.Chess.Types.{no_piece}
use novachess.Chess.Zobrist.{Keys, board_key}

-- What a square adds to the key.
abbrev pub square_key : Keys → ℕ → ℕ → ℕ
square_key z pc s = if pc == no_piece then 0 else z.pieces pc s

board_key-suc :
    (z : Keys) (board : ℕ → ℕ) (s : ℕ)
    → board_key z board (suc s) ≡ bit_xor (board_key z board s) (square_key z (board s) s)
unfolding board_key
board_key-suc z board s = ground (arith, xor-zero (board_key z board s))

module _ (z : Keys) (board : ℕ → ℕ) (s pc : ℕ) where
  abbrev pub change : ℕ
  change = bit_xor (square_key z (board s) s) (square_key z pc s)

  board_key-update_past : (n : ℕ) → n ≤ s → board_key z (update board s pc) n ≡ board_key z board n
  unfolding board_key
  board_key-update_past zero h = refl
  board_key-update_past (suc n) h = ground (arith, board_key-update_past n (omega arith))

  -- A new piece on a square changes the key by the two terms of that square.
  pub board_key-update :
      (n : ℕ) → s < n → board_key z (update board s pc) n ≡ bit_xor (board_key z board n) change
  board_key-update zero h = absurd (omega arith)
  board_key-update (suc n) h = elim (Bool-cases (s == n)) [
    | inl here ↦
        let e : s ≡ n = (==_iff s n).0 here in
        rw (board_key-suc z (update board s pc) n, board_key-suc z board n)
          (rw (board_key-update_past n (omega arith), ← e)
            (ground (
              arith,
              xor_replace (board_key z board s) (square_key z (board s) s) (square_key z pc s),
            )))
    | inr elsewhere ↦
        rw (board_key-suc z (update board s pc) n, board_key-suc z board n)
          (rw (board_key-update n (ground arith), elsewhere)
            (xor_swap (board_key z board n) change (square_key z (board n) n)))
  ]

pub change-put :
    (z : Keys) (board : ℕ → ℕ) (s pc : ℕ)
    → board s ≡ no_piece
    → pc < 12
    → change z board s pc ≡ z.pieces pc s
change-put z board s pc empty real = ground (arith, zero-xor (z.pieces pc s))

pub change-lift :
    (z : Keys) (board : ℕ → ℕ) (s : ℕ)
    → board s < 12
    → change z board s no_piece ≡ z.pieces (board s) s
change-lift z board s real = ground (arith, xor-zero (z.pieces (board s) s))

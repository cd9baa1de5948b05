-- ===== src/Chess/Zobrist.antt =====
-- internal/chess/zobrist.go: the keys that a position is hashed with.
pub mod Update
use novachess.Prelude.{ℕ, zero, suc, bit_xor, ◌==◌, if◌then◌else◌}
use novachess.Chess.Types.{no_piece}

-- The package's tables of random keys.
pub record Keys : Type 0 where
  pub pieces : ℕ → ℕ → ℕ
  pub castling : ℕ → ℕ
  pub ep_file : ℕ → ℕ
  pub side : ℕ

-- The key after the first `n` rounds of the loop over the squares.
unfoldable pub board_key : Keys → (ℕ → ℕ) → ℕ → ℕ
board_key z board zero = 0
board_key z board (suc s) =
    let key = board_key z board s in
    if board s == no_piece then key else bit_xor key (z.pieces (board s) s)

-- ===== src/Chess/Move.antt =====
-- internal/chess/move.go: a move packed in sixteen bits.
pub mod Fields
use novachess.Prelude.{ℕ, ◌+◌, ◌-◌, ◌*◌, ◌/◌, ◌%◌, ◌^◌, bit_and, bit_or, Bool, ◌==◌}
use novachess.Chess.Types.{knight, u8}

abbrev pub u16 : ℕ → ℕ
u16 n = n % 2 ^ 16

abbrev pub move_none : ℕ
move_none = 0

abbrev pub kind_normal : ℕ
kind_normal = 0

abbrev pub kind_promotion : ℕ
kind_promotion = 0x4000

abbrev pub kind_en_passant : ℕ
kind_en_passant = 0x8000

abbrev pub kind_castling : ℕ
kind_castling = 0xc000

unfoldable pub new_move : ℕ → ℕ → ℕ
new_move from to = bit_or from (u16 (to * 2 ^ 6))

-- `promo-Knight` is a difference of bytes.
unfoldable pub new_promotion : ℕ → ℕ → ℕ → ℕ
new_promotion from to promo =
    bit_or (bit_or (bit_or from (u16 (to * 2 ^ 6))) (u16 (u8 (promo + 256 - knight) * 2 ^ 12)))
      kind_promotion

unfoldable pub new_en_passant : ℕ → ℕ → ℕ
new_en_passant from to = bit_or (bit_or from (u16 (to * 2 ^ 6))) kind_en_passant

unfoldable pub new_castling : ℕ → ℕ → ℕ
new_castling from to = bit_or (bit_or from (u16 (to * 2 ^ 6))) kind_castling

unfoldable pub from_of : ℕ → ℕ
from_of m = u8 (bit_and m 0x3f)

unfoldable pub to_of : ℕ → ℕ
to_of m = u8 (bit_and (m / 2 ^ 6) 0x3f)

unfoldable pub kind_of : ℕ → ℕ
kind_of m = bit_and m 0xc000

unfoldable pub promotion_of : ℕ → ℕ
promotion_of m = u8 (u8 (bit_and (m / 2 ^ 12) 3) + knight)

unfoldable pub is_none : ℕ → Bool
is_none m = m == move_none

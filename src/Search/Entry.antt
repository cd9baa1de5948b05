-- ===== src/Search/Entry.antt =====
-- An entry of internal/search/tt.go: a packed word, and that word folded with the position's key.
pub mod Fields
use novachess.Prelude.{
  ℕ, ◌+◌, ◌-◌, ◌*◌, ◌/◌, ◌%◌, ◌^◌, bit_and, bit_or, bit_xor, Bool, not, ◌&&◌, ltb, ◌==◌,
  if◌then◌else◌,
}
use novachess.Prelude.Int.{ℤ, pos, negsuc, ltb_ℤ}
use novachess.Chess.Types.{u8}
use novachess.Chess.Move.{u16}
use novachess.Chess.Bitboard.{shl}

abbrev pub bound_none : ℕ
bound_none = 0

abbrev pub bound_upper : ℕ
bound_upper = 1

abbrev pub bound_lower : ℕ
bound_lower = 2

abbrev pub bound_exact : ℕ
bound_exact = 3

-- The conversions between `int` and the low sixteen or eight bits of its two's complement.
abbrev pub u16_of_int : ℤ → ℕ
u16_of_int (pos n) = n % 65536
u16_of_int (negsuc n) = 65535 - n % 65536

abbrev pub int_of_i16 : ℕ → ℤ
int_of_i16 n = if ltb n 32768 then pos n else negsuc (65535 - n)

-- The `int16` of a conversion keeps the bits, so that the `uint16` after it is the same.
unfoldable pub pack_entry : ℕ → ℤ → ℤ → ℕ → ℕ → ℕ → ℕ
pack_entry move score static_eval depth bound gen =
    bit_or
      (bit_or
        (bit_or
          (bit_or (bit_or (u16 move) (shl (u16_of_int score) 16)) (shl (u16_of_int static_eval) 32))
          (shl (u8 depth) 48))
        (shl (bit_and bound 0x3) 56))
      (shl (bit_and gen 0x3f) 58)

unfoldable pub move_of : ℕ → ℕ
move_of d = u16 d

unfoldable pub score_of : ℕ → ℤ
score_of d = int_of_i16 (u16 (d / 2 ^ 16))

unfoldable pub depth_of : ℕ → ℕ
depth_of d = u8 (d / 2 ^ 48)

unfoldable pub bound_of : ℕ → ℕ
bound_of d = bit_and (u8 (d / 2 ^ 56)) 0x3

unfoldable pub gen_of : ℕ → ℕ
gen_of d = bit_and (u8 (d / 2 ^ 58)) 0x3f

pub record Entry : Type 0 where
  pub keyx : ℕ
  pub word : ℕ

-- The word (`data` in the source), and whether it belongs to the key.
unfoldable pub read : Entry → ℕ → ℕ × Bool
read e key = (e.word, bit_xor e.keyx e.word == key && not (e.word == 0))

unfoldable pub write : ℕ → ℕ → Entry
write key word = record { keyx = bit_xor key word; word = word }

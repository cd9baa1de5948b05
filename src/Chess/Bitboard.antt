-- ===== src/Chess/Bitboard.antt =====
-- internal/chess/bitboard.go: a set of squares as a 64-bit word, bit 0 for a1 and bit 63 for h8.
-- Its children prove what the operations do to the set.
pub mod Members
pub mod Iteration
pub mod Loop
pub mod Subsets
use novachess.Prelude.{
  ℕ, zero, suc, ◌+◌, ◌-◌, ◌*◌, ◌/◌, ◌%◌, ◌^◌, bit_and, bit_or, bit_xor, Bool, true, false, not,
  List, [], ◌∷◌, ltb, ◌==◌, if◌then◌else◌,
}

abbrev pub u64 : ℕ → ℕ
u64 n = n % 2 ^ 64

abbrev pub max_u64 : ℕ
max_u64 = 2 ^ 64 - 1

-- `<<` on a `uint64`: a count of 64 or more shifts every bit out.
unfoldable pub shl : ℕ → ℕ → ℕ
shl b k = if ltb k 64 then u64 (b * 2 ^ k) else 0

-- `&^`, the bits of the first word that are not in the second.
unfoldable pub and_not : ℕ → ℕ → ℕ
and_not a b = bit_and a (bit_xor b max_u64)

-- `b - 1`, which wraps at 0.
unfoldable pub dec : ℕ → ℕ
dec b = u64 (b + max_u64)

-- `bits.OnesCount64` and `bits.TrailingZeros64`, over the digits left.
unfoldable pub ones_count : ℕ → ℕ → ℕ
ones_count zero b = 0
ones_count (suc w) b = b % 2 + ones_count w (b / 2)

unfoldable pub trailing_zeros : ℕ → ℕ → ℕ
trailing_zeros zero b = 0
trailing_zeros (suc w) b = if b % 2 == 1 then 0 else suc (trailing_zeros w (b / 2))

unfoldable pub bb : ℕ → ℕ
bb s = shl 1 s

unfoldable pub has : ℕ → ℕ → Bool
has b s = not (bit_and b (shl 1 s) == 0)

unfoldable pub set : ℕ → ℕ → ℕ
set b s = bit_or b (shl 1 s)

unfoldable pub clear : ℕ → ℕ → ℕ
clear b s = and_not b (shl 1 s)

unfoldable pub count : ℕ → ℕ
unfolding ones_count
count b = ones_count 64 b

unfoldable pub is_empty : ℕ → Bool
is_empty b = b == 0

unfoldable pub more_than_one : ℕ → Bool
unfolding dec
more_than_one b = not (bit_and b (dec b) == 0)

unfoldable pub first : ℕ → ℕ
unfolding trailing_zeros
first b = trailing_zeros 64 b

unfoldable pub pop_first : ℕ → ℕ × ℕ
unfolding trailing_zeros dec
pop_first b = (trailing_zeros 64 b, bit_and b (dec b))

-- The squares that `for bb != 0 { sq, bb = bb.PopFirst(); … }` visits, in its order.
unfoldable pub visit : ℕ → ℕ → List ℕ
visit zero b = []
visit (suc fuel) b =
    let rest = visit fuel (pop_first b).1 in if b == 0 then [] else (pop_first b).0 ∷ rest

-- A set has at most 64 members, so 64 rounds end every such loop.
unfoldable pub squares : ℕ → List ℕ
unfolding visit
squares b = visit 64 b

abbrev pub file_a : ℕ
file_a = 0x0101010101010101

abbrev pub file_h : ℕ
file_h = 0x8080808080808080

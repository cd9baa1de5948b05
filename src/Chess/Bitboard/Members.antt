-- ===== src/Chess/Bitboard/Members.antt =====
-- `Has`, `Set`, `Clear` and the word operations, as operations on sets of squares.
use native.Mathlib.Omega.{arith}
use native.Mathlib.Nat.{pow-suc, one-le-pow}
use novachess.Prelude.{
  ℕ, zero, suc, ◌^◌, ◌<◌, bit_and, bit_xor, false, not, ◌&&◌, ◌||◌, xor, ◌==◌, ◌≡◌, ◌∙◌, sym, ap,
  inl, inr, Bool-cases, ==_iff,
}
use novachess.Prelude.Bits.{
  test_bit, test_bit-or, test_bit-and, test_bit-xor, test_bit-pow, test_bit-ones, or_lt,
  and-le_left, test_bit-zero,
}
use novachess.Prelude.Xor.{test_bit_same}
use novachess.Chess.Bitboard.{max_u64, shl, and_not, bb, has, set, clear}

pub pow_lt : (w k : ℕ) → k < w → 2 ^ k < 2 ^ w
pow_lt zero k h = absurd (omega arith)
pow_lt (suc w) zero h = omega (arith, pow-suc 2 w, one-le-pow w 2)
pow_lt (suc w) (suc k) h = omega (arith, pow-suc 2 w, pow-suc 2 k, pow_lt w k (omega arith))

-- The one-square set is a power of two.
pub bb-pow : (s : ℕ) → s < 64 → bb s ≡ 2 ^ s
unfolding bb shl
bb-pow s h = ground (arith, pow_lt 64 s h)

pub bb-lt : (s : ℕ) → s < 64 → bb s < 2 ^ 64
bb-lt s h = omega (arith, bb-pow s h, pow_lt 64 s h)

pub test_bit-bb : (s k : ℕ) → s < 64 → test_bit (bb s) k ≡ (s == k)
test_bit-bb s k h = rw (bb-pow s h) (test_bit-pow s k)

one_bit : (b s k : ℕ) → s < 64 → test_bit (bit_and b (bb s)) k ≡ (test_bit b k && s == k)
one_bit b s k h = rw (test_bit-and, test_bit-bb s k h)

no_common : (b s k : ℕ) → test_bit b s ≡ false → (test_bit b k && s == k) ≡ false
no_common b s k e = elim (Bool-cases (s == k)) [
  | inl same ↦ let q : s ≡ k = (==_iff s k).0 same in rw (← q, e)
  | inr other ↦ rw other (ground arith)
]

-- `Has` reads one digit of the word.
pub has-test_bit : (b s : ℕ) → s < 64 → has b s ≡ test_bit b s
unfolding has bb
has-test_bit b s h = elim (Bool-cases (test_bit b s)) [
  | inl e ↦ ground (arith, one_bit b s s h, test_bit-zero s, e)
  | inr e ↦
      let gone : bit_and b (bb s) ≡ 0 =
        test_bit_same _ 0 (λ k. one_bit b s k h ∙ no_common b s k e ∙ sym (test_bit-zero k)) in
      ground (arith, gone, e)
]

pub test_bit-and_not :
    (a b k : ℕ) → k < 64 → test_bit (and_not a b) k ≡ (test_bit a k && not (test_bit b k))
unfolding and_not xor
test_bit-and_not a b k h =
    ground
      (arith, test_bit-and k a (bit_xor b max_u64), test_bit-xor k b max_u64, test_bit-ones 64 k h)

pub and_not-lt : (a b : ℕ) → a < 2 ^ 64 → and_not a b < 2 ^ 64
unfolding and_not
and_not-lt a b h = omega (arith, and-le_left 64 a (bit_xor b max_u64) h)

pub test_bit-set : (b s k : ℕ) → s < 64 → test_bit (set b s) k ≡ (test_bit b k || s == k)
unfolding set bb
test_bit-set b s k h = rw test_bit-or (ap (◌||◌ (test_bit b k)) (test_bit-bb s k h))

pub set-lt : (b s : ℕ) → s < 64 → b < 2 ^ 64 → set b s < 2 ^ 64
unfolding set bb
set-lt b s h k = or_lt 64 b (bb s) k (bb-lt s h)

pub test_bit-clear :
    (b s k : ℕ) → s < 64 → k < 64 → test_bit (clear b s) k ≡ (test_bit b k && not (s == k))
unfolding clear bb
test_bit-clear b s k h l = rw (test_bit-and_not b (bb s) k l, test_bit-bb s k h)

-- For squares below 64: `Set` adds exactly its square, `Clear` removes exactly its square, and
-- either leaves every other square's membership as it was.
pub has-set-clear :
    (b s t : ℕ)
    → s < 64
    → t < 64
    → (has (set b s) t ≡ (has b t || s == t)) × (has (clear b s) t ≡ (has b t && not (s == t)))
has-set-clear b s t h k =
    rw (has-test_bit (set b s) t k, has-test_bit (clear b s) t k, has-test_bit b t k)
      (test_bit-set b s t h, test_bit-clear b s t h k)

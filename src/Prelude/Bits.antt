-- ===== src/Prelude/Bits.antt =====
-- The binary digits of a number, and what the native bit operations do to each of them.
use Prim.Native.Nat.{
  ℕ, zero, suc, ◌+◌, ◌-◌, ◌*◌, ◌/◌, ◌%◌, ◌^◌, ◌≤◌, ◌<◌, max, min, differ, digits, bitwise, bit_and,
  bit_or, bit_xor, bit_and-bitwise, bit_or-bitwise, bit_xor-bitwise,
}
use mathlib.Core.Path.{◌≡◌, refl, ◌∙◌}
use mathlib.Core.Bool.{Bool, true, false, ◌&&◌, ◌||◌, xor}
use native.Mathlib.Nat.{pow-suc, one-le-pow}
use native.Mathlib.Omega.{arith}
use novachess.Prelude.Tests.{◌==◌}

-- Digit `k` of `n`, the lowest being digit 0.
unfoldable pub test_bit : ℕ → ℕ → Bool
test_bit n zero = n % 2 == 1
test_bit n (suc k) = test_bit (n / 2) k

-- The count of digits to go does not matter, as long as it covers the first number.
digits_enough :
    (z : ℕ → ℕ) (f : ℕ → ℕ → ℕ) (n m a b : ℕ) → a ≤ n → a ≤ m → digits z f n a b ≡ digits z f m a b
digits_enough z f zero zero a b p q = refl
digits_enough z f zero (suc m) zero b p q = refl
digits_enough z f zero (suc m) (suc a) b p q = absurd (omega arith)
digits_enough z f (suc n) zero zero b p q = refl
digits_enough z f (suc n) zero (suc a) b p q = absurd (omega arith)
digits_enough z f (suc n) (suc m) zero b p q = refl
digits_enough z f (suc n) (suc m) (suc a) b p q =
    rw (digits_enough z f n m (suc a / 2) (b / 2) (omega arith) (omega arith))

-- One digit of a bitwise operation, with the recursion's count gone.
bitwise_lowest :
    (z : ℕ → ℕ) (f : ℕ → ℕ → ℕ) (a b : ℕ)
    → bitwise z f (suc a) b ≡ bitwise z f (suc a / 2) (b / 2) * 2 + f (suc a % 2) (b % 2)
bitwise_lowest z f a b =
    omega (arith, digits_enough z f a (suc a / 2) (suc a / 2) (b / 2) (omega arith) (omega arith))

pub or_lowest : (a b : ℕ) → bit_or a b ≡ bit_or (a / 2) (b / 2) * 2 + max (a % 2) (b % 2)
or_lowest zero b = simp bit_or-bitwise (omega arith)
or_lowest (suc a) b = simp bit_or-bitwise (bitwise_lowest (λ b. b) max a b)

pub and_lowest : (a b : ℕ) → bit_and a b ≡ bit_and (a / 2) (b / 2) * 2 + min (a % 2) (b % 2)
and_lowest zero b = simp bit_and-bitwise (omega arith)
and_lowest (suc a) b = simp bit_and-bitwise (bitwise_lowest (λ b. zero) min a b)

differ_digits : (x y : ℕ) → x < 2 → y < 2 → differ x y ≡ (x + y) % 2
differ_digits zero y h k = omega arith
differ_digits (suc zero) zero h k = refl
differ_digits (suc zero) (suc zero) h k = refl
differ_digits (suc zero) (suc (suc y)) h k = absurd (omega arith)
differ_digits (suc (suc x)) y h k = absurd (omega arith)

pub xor_lowest : (a b : ℕ) → bit_xor a b ≡ bit_xor (a / 2) (b / 2) * 2 + (a % 2 + b % 2) % 2
xor_lowest zero b = simp bit_xor-bitwise (omega arith)
xor_lowest (suc a) b = simp bit_xor-bitwise (
    omega (
      arith,
      bitwise_lowest (λ b. b) differ a b,
      differ_digits (suc a % 2) (b % 2) (omega arith) (omega arith),
    ))

pub test_bit-or : (k a b : ℕ) → test_bit (bit_or a b) k ≡ (test_bit a k || test_bit b k)
unfolding test_bit
test_bit-or zero a b = ground (arith, or_lowest a b)
test_bit-or (suc k) a b =
    let e : bit_or a b / 2 ≡ bit_or (a / 2) (b / 2) = omega (arith, or_lowest a b) in
    rw e (test_bit-or k (a / 2) (b / 2))

pub test_bit-and : (k a b : ℕ) → test_bit (bit_and a b) k ≡ (test_bit a k && test_bit b k)
unfolding test_bit
test_bit-and zero a b = ground (arith, and_lowest a b)
test_bit-and (suc k) a b =
    let e : bit_and a b / 2 ≡ bit_and (a / 2) (b / 2) = omega (arith, and_lowest a b) in
    rw e (test_bit-and k (a / 2) (b / 2))

pub test_bit-xor : (k a b : ℕ) → test_bit (bit_xor a b) k ≡ xor (test_bit a k) (test_bit b k)
unfolding test_bit xor
test_bit-xor zero a b = ground (arith, xor_lowest a b)
test_bit-xor (suc k) a b =
    let e : bit_xor a b / 2 ≡ bit_xor (a / 2) (b / 2) = omega (arith, xor_lowest a b) in
    rw e (test_bit-xor k (a / 2) (b / 2))

-- Two numbers below 2 ^ w with the same digits are the same.
pub test_bit_ext :
    (w a b : ℕ) → a < 2 ^ w → b < 2 ^ w → ((k : ℕ) → k < w → test_bit a k ≡ test_bit b k) → a ≡ b
unfolding test_bit
test_bit_ext zero a b h k same = omega arith
test_bit_ext (suc w) a b h k same = ground (
  arith,
  pow-suc 2 w,
  same 0 (omega arith),
  test_bit_ext w (a / 2) (b / 2) (omega (arith, pow-suc 2 w)) (omega (arith, pow-suc 2 w))
      (λ j p. same (suc j) (omega arith)),
)

-- The operations stay within the width of their operands.
pub or_lt : (w a b : ℕ) → a < 2 ^ w → b < 2 ^ w → bit_or a b < 2 ^ w
or_lt zero zero zero h k = omega arith
or_lt zero zero (suc b) h k = absurd (omega arith)
or_lt zero (suc a) b h k = absurd (omega arith)
or_lt (suc w) a b h k =
    let rest = or_lt w (a / 2) (b / 2) (omega (arith, pow-suc 2 w)) (omega (arith, pow-suc 2 w)) in
    omega (arith, pow-suc 2 w, or_lowest a b, rest)

pub xor_lt : (w a b : ℕ) → a < 2 ^ w → b < 2 ^ w → bit_xor a b < 2 ^ w
xor_lt zero zero zero h k = omega arith
xor_lt zero zero (suc b) h k = absurd (omega arith)
xor_lt zero (suc a) b h k = absurd (omega arith)
xor_lt (suc w) a b h k =
    let rest = xor_lt w (a / 2) (b / 2) (omega (arith, pow-suc 2 w)) (omega (arith, pow-suc 2 w)) in
    omega (arith, pow-suc 2 w, xor_lowest a b, rest)

zero-and : (b : ℕ) → bit_and 0 b ≡ 0
zero-and b = bit_and-bitwise 0 b

-- `and` is no larger than its first operand.
pub and-le_left : (w a b : ℕ) → a < 2 ^ w → bit_and a b ≤ a
and-le_left zero zero b h = omega (arith, zero-and b)
and-le_left zero (suc a) b h = absurd (omega arith)
and-le_left (suc w) a b h =
    let rest = and-le_left w (a / 2) (b / 2) (omega (arith, pow-suc 2 w)) in
    omega (arith, and_lowest a b, rest)

-- Digits past the width are 0.
pub test_bit_high : (w k n : ℕ) → n < 2 ^ w → w ≤ k → test_bit n k ≡ false
unfolding test_bit
test_bit_high zero zero n h p = ground arith
test_bit_high zero (suc k) n h p = test_bit_high zero k (n / 2) (omega arith) (omega arith)
test_bit_high (suc w) zero n h p = absurd (omega arith)
test_bit_high (suc w) (suc k) n h p =
    test_bit_high w k (n / 2) (omega (arith, pow-suc 2 w)) (omega arith)

-- The power 2 ^ s has the one digit `s`.
pub test_bit-pow : (s k : ℕ) → test_bit (2 ^ s) k ≡ (s == k)
unfolding test_bit
test_bit-pow zero zero = refl
test_bit-pow zero (suc k) = test_bit_high 0 k 0 (omega arith) (omega arith) ∙ ground arith
test_bit-pow (suc s) zero = ground (arith, pow-suc 2 s)
test_bit-pow (suc s) (suc k) =
    let e : 2 ^ suc s / 2 ≡ 2 ^ s = omega (arith, pow-suc 2 s) in
    rw e (test_bit-pow s k ∙ ground arith)

-- All digits of 2 ^ w - 1 below `w` are 1.
pub test_bit-ones : (w k : ℕ) → k < w → test_bit (2 ^ w - 1) k ≡ true
unfolding test_bit
test_bit-ones zero k h = absurd (omega arith)
test_bit-ones (suc w) zero h = ground (arith, pow-suc 2 w, one-le-pow w 2)
test_bit-ones (suc w) (suc k) h =
    let e : (2 ^ suc w - 1) / 2 ≡ 2 ^ w - 1 = omega (arith, pow-suc 2 w) in
    rw e (test_bit-ones w k (omega arith))

-- A number with no digit is 0, and one that is not 0 has a digit.
pub test_bit-zero : (k : ℕ) → test_bit 0 k ≡ false
test_bit-zero k = test_bit_high 0 k 0 (omega arith) (omega arith)

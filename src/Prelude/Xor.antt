-- ===== src/Prelude/Xor.antt =====
-- The laws of exclusive or, at every number.
use Prim.Native.Nat.{ℕ, zero, suc, max, ◌/◌, ◌≤◌, bit_xor}
use mathlib.Core.Path.{◌≡◌, ◌∙◌, sym, ap}
use mathlib.Core.Bool.{Bool, false, xor}
use native.Mathlib.Omega.{arith}
use novachess.Prelude.Bits.{test_bit, test_bit-xor, test_bit-zero}

-- Numbers with the same digits are the same.
ext_fuel : (fuel a b : ℕ) → a ≤ fuel → b ≤ fuel → ((k : ℕ) → test_bit a k ≡ test_bit b k) → a ≡ b
unfolding test_bit
ext_fuel zero a b h k same = omega arith
ext_fuel (suc fuel) a b h k same =
    ground
      (arith, same 0, ext_fuel fuel (a / 2) (b / 2) (omega arith) (omega arith) (λ j. same (suc j)))

pub test_bit_same : (a b : ℕ) → ((k : ℕ) → test_bit a k ≡ test_bit b k) → a ≡ b
test_bit_same a b same = ext_fuel (max a b) a b (omega arith) (omega arith) same

xor_bits_comm : (x y : Bool) → xor x y ≡ xor y x
unfolding xor
xor_bits_comm x y = ground arith

xor_bits_assoc : (x y z : Bool) → xor (xor x y) z ≡ xor x (xor y z)
unfolding xor
xor_bits_assoc x y z = ground arith

xor_bits_self : (x : Bool) → xor x x ≡ false
unfolding xor
xor_bits_self x = ground arith

xor_bits_false : (x : Bool) → xor x false ≡ x
unfolding xor
xor_bits_false x = ground arith

pub xor_comm : (a b : ℕ) → bit_xor a b ≡ bit_xor b a
xor_comm a b =
    test_bit_same _ _ (λ k. simp test_bit-xor (xor_bits_comm (test_bit a k) (test_bit b k)))

pub xor_assoc : (a b c : ℕ) → bit_xor (bit_xor a b) c ≡ bit_xor a (bit_xor b c)
xor_assoc a b c =
    test_bit_same _ _
      (λ k. simp test_bit-xor (xor_bits_assoc (test_bit a k) (test_bit b k) (test_bit c k)))

pub xor_self : (a : ℕ) → bit_xor a a ≡ 0
xor_self a =
    test_bit_same _ _ (λ k. simp (test_bit-xor, test_bit-zero) (xor_bits_self (test_bit a k)))

pub xor-zero : (a : ℕ) → bit_xor a 0 ≡ a
xor-zero a =
    test_bit_same _ _ (λ k. simp (test_bit-xor, test_bit-zero) (xor_bits_false (test_bit a k)))

pub xor_left_comm : (a b c : ℕ) → bit_xor a (bit_xor b c) ≡ bit_xor b (bit_xor a c)
xor_left_comm a b c = sym (xor_assoc a b c) ∙ ap (λ t. bit_xor t c) (xor_comm a b) ∙ xor_assoc b a c

-- Folding a term in twice undoes it.
pub xor_cancel : (a b : ℕ) → bit_xor (bit_xor a b) b ≡ a
xor_cancel a b = rw (xor_assoc, xor_self) (xor-zero a)

pub xor_cancel_left : (a b : ℕ) → bit_xor a (bit_xor a b) ≡ b
xor_cancel_left a b = rw (xor_comm a (bit_xor a b), xor_comm a b) (xor_cancel b a)

pub xor_swap : (a b c : ℕ) → bit_xor (bit_xor a b) c ≡ bit_xor (bit_xor a c) b
xor_swap a b c = xor_assoc a b c ∙ ap (bit_xor a) (xor_comm b c) ∙ sym (xor_assoc a c b)

-- Folding one term out and another in.
pub xor_replace : (a b c : ℕ) → bit_xor (bit_xor a b) (bit_xor b c) ≡ bit_xor a c
xor_replace a b c = xor_assoc a b (bit_xor b c) ∙ ap (bit_xor a) (xor_cancel_left b c)

pub zero-xor : (a : ℕ) → bit_xor 0 a ≡ a
zero-xor a = xor_comm 0 a ∙ xor-zero a

-- ===== src/Prelude/Fields.antt =====
-- Bit fields packed by shifts and `or`, as sums, and masks and shifts as `%` and `/`.
use Prim.Native.Nat.{ℕ, zero, suc, ◌+◌, ◌-◌, ◌*◌, ◌/◌, ◌%◌, ◌^◌, ◌≤◌, ◌<◌, bit_and, bit_or}
use mathlib.Core.Path.{◌≡◌, refl, ap, sym, ◌∙◌}
use native.Mathlib.Nat.{pow-suc, one-le-pow, div-div-eq-div-mul, mul_comm}
use native.Mathlib.Omega.{arith}
use novachess.Prelude.Bits.{or_lowest, and_lowest}

zero-or : (w b : ℕ) → b < 2 ^ w → bit_or 0 b ≡ b
zero-or zero zero h = refl
zero-or zero (suc b) h = absurd (omega arith)
zero-or (suc w) b h = omega (arith, or_lowest 0 b, zero-or w (b / 2) (omega (arith, pow-suc 2 w)))

shifted_twice : (q k : ℕ) → q * 2 ^ suc k ≡ 2 * (q * 2 ^ k)
shifted_twice q k = omega (arith, ap (λ (t : ℕ). q * t) (pow-suc 2 k))

-- The low field has `k` digits, and the whole at most `v` more.
pub or-fields : (k v r q : ℕ) → r < 2 ^ k → q < 2 ^ v → bit_or r (q * 2 ^ k) ≡ r + q * 2 ^ k
or-fields zero v zero q h b = omega (arith, zero-or v (q * 1) (omega arith))
or-fields zero v (suc r) q h b = absurd (omega arith)
or-fields (suc k) v r q h b =
    let rest = or-fields k v (r / 2) q (omega (arith, pow-suc 2 k)) b in
    let half : q * 2 ^ suc k / 2 ≡ q * 2 ^ k = omega (arith, shifted_twice q k) in
    let low : q * 2 ^ suc k % 2 ≡ 0 = omega (arith, shifted_twice q k) in
    ground (arith, or_lowest r (q * 2 ^ suc k), half, low, rest, shifted_twice q k)

and-zero : (fuel a : ℕ) → a ≤ fuel → bit_and a 0 ≡ 0
and-zero fuel zero h = refl
and-zero zero (suc a) h = absurd (omega arith)
and-zero (suc fuel) (suc a) h =
    omega (arith, and_lowest (suc a) 0, and-zero fuel (suc a / 2) (omega arith))

and-fields : (k r q : ℕ) → r < 2 ^ k → bit_and (r + q * 2 ^ k) (2 ^ k - 1) ≡ r
and-fields zero r q h = omega (arith, and-zero (r + q * 1) (r + q * 1) (omega arith))
and-fields (suc k) r q h =
    let half : (r + q * 2 ^ suc k) / 2 ≡ r / 2 + q * 2 ^ k = omega (arith, shifted_twice q k) in
    let low : (r + q * 2 ^ suc k) % 2 ≡ r % 2 = omega (arith, shifted_twice q k) in
    let mask : (2 ^ suc k - 1) / 2 ≡ 2 ^ k - 1 = omega (arith, pow-suc 2 k) in
    let rest = and-fields k (r / 2) q (omega (arith, pow-suc 2 k)) in
    ground (
      arith,
      and_lowest (r + q * 2 ^ suc k) (2 ^ suc k - 1),
      half,
      low,
      mask,
      rest,
      pow-suc 2 k,
      one-le-pow k 2,
    )

-- A mask of `k` low ones is the remainder by 2 ^ k.
pub and-mask : (k n : ℕ) → bit_and n (2 ^ k - 1) ≡ n % 2 ^ k
and-mask k n = ground (arith, one-le-pow k 2, and-fields k (n % 2 ^ k) (n / 2 ^ k))

-- A mask whose `k` low digits are 0 masks what is left after a shift by `k`.
pub and-shifted : (k n c : ℕ) → bit_and n (c * 2 ^ k) ≡ bit_and (n / 2 ^ k) c * 2 ^ k
and-shifted zero n c =
    let e : c * 2 ^ 0 ≡ c = omega arith in
    let d : n / 2 ^ 0 ≡ n = omega arith in rw (e, d) (omega arith)
and-shifted (suc k) n c =
    let half : c * 2 ^ suc k / 2 ≡ c * 2 ^ k = omega (arith, shifted_twice c k) in
    let low : c * 2 ^ suc k % 2 ≡ 0 = omega (arith, shifted_twice c k) in
    let down : n / 2 ^ suc k ≡ n / 2 / 2 ^ k =
      ap (λ (t : ℕ). n / t) (pow-suc 2 k ∙ mul_comm (2 ^ k) 2)
      ∙ sym (div-div-eq-div-mul n 2 (2 ^ k)) in
    ground (
      arith,
      and_lowest n (c * 2 ^ suc k),
      half,
      low,
      down,
      and-shifted k (n / 2) c,
      shifted_twice (bit_and (n / 2 / 2 ^ k) c) k,
    )

-- ===== src/Pipeline/Coordinator/Naming/Seeds.antt =====
-- Units of one generation play from different seeds.
use native.Mathlib.Omega.{arith}
use novachess.Prelude.{ℕ, ◌+◌, ◌*◌, ◌%◌, ◌^◌, ◌<◌, bit_xor, ◌≡◌, ◌≢◌, sym, ap, ◌∙◌}
use novachess.Prelude.Int.{ℤ, pos, ◌+ℤ◌, uint64}
use novachess.Prelude.Xor.{xor_cancel_left}
use novachess.Pipeline.Coordinator.Naming.{generation_factor, index_factor, unit_seed}

-- The factor of the index is odd, so it has an inverse modulo 2 ^ 64.
abbrev inverse : ℕ
inverse = 10871156337175269513

index_of_product : (n : ℕ) → n < 2 ^ 64 → n * index_factor % 2 ^ 64 * inverse % 2 ^ 64 ≡ n
index_of_product n h = omega arith

unit_seed-injective :
    (seed : ℕ) (g : ℤ) (i j : ℕ)
    → i + 1 < 2 ^ 64
    → j + 1 < 2 ^ 64
    → unit_seed seed g i ≡ unit_seed seed g j
    → i ≡ j
unfolding unit_seed uint64
unit_seed-injective seed g i j hi hj e =
    let common = bit_xor seed (uint64 (g +ℤ pos 1) * generation_factor % 2 ^ 64) in
    let product = λ (n : ℕ). n * index_factor % 2 ^ 64 in
    let same : product ((i + 1) % 2 ^ 64) ≡ product ((j + 1) % 2 ^ 64) =
      sym (xor_cancel_left common (product ((i + 1) % 2 ^ 64)))
      ∙ ap (bit_xor common) e
      ∙ xor_cancel_left common (product ((j + 1) % 2 ^ 64)) in
    omega arith

-- Two different units of one generation, with indices below 2 ^ 64 - 1, are given different seeds.
pub unit_seed-apart :
    (seed : ℕ) (g : ℤ) (i j : ℕ)
    → i + 1 < 2 ^ 64
    → j + 1 < 2 ^ 64
    → i ≢ j
    → unit_seed seed g i ≢ unit_seed seed g j
unit_seed-apart seed g i j hi hj apart = λ e. apart (unit_seed-injective seed g i j hi hj e)

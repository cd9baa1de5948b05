-- ===== src/Chess/Bitboard/Subsets.antt =====
-- Subsets and their sizes.
use native.Mathlib.Omega.{arith}
use native.Mathlib.Nat.{pow-suc}
use novachess.Prelude.{ℕ, zero, suc, ◌/◌, ◌%◌, ◌^◌, ◌<◌, ◌≤◌, true, ◌≡◌}
use novachess.Prelude.Bits.{test_bit}
use novachess.Chess.Bitboard.{ones_count}

abbrev pub Subset : ℕ → ℕ → Type 0
Subset a b = (k : ℕ) → test_bit a k ≡ true → test_bit b k ≡ true

-- A subset has at most as many members, and as many only if it is the whole set.
pub ones_count-Subset :
    (w a b : ℕ)
    → a < 2 ^ w
    → b < 2 ^ w
    → Subset a b
    → (ones_count w a ≤ ones_count w b) × (ones_count w a ≡ ones_count w b → a ≡ b)
unfolding ones_count test_bit
ones_count-Subset zero a b h l sub = (omega arith, λ e. omega arith)
ones_count-Subset (suc w) a b h l sub =
    let (fewer, same) =
      ones_count-Subset w (a / 2) (b / 2) (omega (arith, pow-suc 2 w)) (omega (arith, pow-suc 2 w))
        (λ k. sub (suc k)) in
    let lowest : a % 2 ≤ b % 2 = ground (arith, sub 0) in
    (omega arith, λ e. let halves : a / 2 ≡ b / 2 = same (omega arith) in omega arith)

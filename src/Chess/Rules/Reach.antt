-- ===== src/Chess/Rules/Reach.antt =====
-- The flood fill of `kingReachableSquares`: each round grows the set until nothing changes.
use native.Mathlib.Omega.{arith}
use novachess.Prelude.{
  ℕ, zero, suc, ◌+◌, ◌^◌, ◌<◌, bit_or, Bool, true, false, not, ◌||◌, ◌&&◌, List, [], ◌∷◌, ◌==◌, ◌≡◌,
  inl, inr, refl, Bool-cases, ==_iff, ltb,
}
use novachess.Prelude.Bits.{test_bit, test_bit-or, test_bit_high, or_lt}
use novachess.Chess.Bitboard.{ones_count, squares}
use novachess.Chess.Bitboard.Members.{test_bit-and_not, and_not-lt}
use novachess.Chess.Bitboard.Iteration.{ones_count-le}
use novachess.Chess.Bitboard.Loop.{elem}
use novachess.Chess.Bitboard.Subsets.{Subset, ones_count-Subset}
use novachess.Chess.Attacks.{king_attacks}
use novachess.Chess.Attacks.Bounds.{king_attacks-lt}
use novachess.Chess.Rules.{spread, grow, flood}

-- Whether a king on one of the squares attacks `k`.
abbrev pub any_attack : List ℕ → ℕ → Bool
any_attack [] k = false
any_attack (s ∷ ss) k = test_bit (king_attacks s) k || any_attack ss k

test_bit-spread :
    (ss : List ℕ) (grown k : ℕ)
    → test_bit (spread ss grown) k ≡ (test_bit grown k || any_attack ss k)
unfolding spread
test_bit-spread [] grown k = ground arith
test_bit-spread (s ∷ ss) grown k = ground (
  arith,
  test_bit-spread ss (bit_or grown (king_attacks s)) k,
  test_bit-or k grown (king_attacks s),
)

spread-lt : (ss : List ℕ) (grown : ℕ) → grown < 2 ^ 64 → spread ss grown < 2 ^ 64
unfolding spread
spread-lt [] grown h = h
spread-lt (s ∷ ss) grown h =
    spread-lt ss (bit_or grown (king_attacks s))
      (or_lt 64 grown (king_attacks s) h (king_attacks-lt s))

pub any_attack-of :
    (ss : List ℕ) (s k : ℕ)
    → elem s ss ≡ true
    → test_bit (king_attacks s) k ≡ true
    → any_attack ss k ≡ true
any_attack-of [] s k m h = cc
any_attack-of (x ∷ ss) s k m h = elim (Bool-cases (x == s)) [
  | inl e ↦ let same : x ≡ s = (==_iff x s).0 e in rw (same, h) refl
  | inr e ↦ ground (arith, any_attack-of ss s k)
]

pub any_attack-from :
    (ss : List ℕ) (k : ℕ)
    → any_attack ss k ≡ true
    → (s : ℕ) × (elem s ss ≡ true) × (test_bit (king_attacks s) k ≡ true)
any_attack-from [] k h = absurd (ground arith)
any_attack-from (s ∷ ss) k h = elim (Bool-cases (test_bit (king_attacks s) k)) [
  | inl e ↦ (s, ground arith, e)
  | inr e ↦ let (t, m, a) = any_attack-from ss k (ground arith) in (t, ground arith, a)
]

pub test_bit-grow :
    (reach walls k : ℕ)
    → k < 64
    → test_bit (grow reach walls) k
      ≡ ((test_bit reach k || any_attack (squares reach) k) && not (test_bit walls k))
unfolding grow
test_bit-grow reach walls k h = ground (
  arith,
  test_bit-and_not (spread (squares reach) reach) walls k h,
  test_bit-spread (squares reach) reach k,
)

pub grow-lt : (reach walls : ℕ) → reach < 2 ^ 64 → grow reach walls < 2 ^ 64
unfolding grow
grow-lt reach walls h = and_not-lt _ walls (spread-lt (squares reach) reach h)

module _ (walls : ℕ) where
  -- A set that holds no wall.
  abbrev pub Clear : ℕ → Type 0
  Clear reach = (k : ℕ) → k < 64 → (test_bit reach k && test_bit walls k) ≡ false

  pub grow-Clear : (reach : ℕ) → Clear (grow reach walls)
  grow-Clear reach k h = ground (arith, test_bit-grow reach walls k h)

  pub grow-Subset : (reach : ℕ) → reach < 2 ^ 64 → Clear reach → Subset reach (grow reach walls)
  grow-Subset reach w clear k h = elim (Bool-cases (ltb k 64)) [
    | inl on ↦ ground (arith, test_bit-grow reach walls k, clear k)
    | inr off ↦ ground (arith, test_bit_high 64 k reach w)
  ]

  grow-more :
      (reach : ℕ)
      → reach < 2 ^ 64
      → Clear reach
      → (grow reach walls == reach) ≡ false
      → ones_count 64 reach < ones_count 64 (grow reach walls)
  grow-more reach w clear apart =
      let (fewer, same) =
        ones_count-Subset 64 reach (grow reach walls) w (grow-lt reach walls w)
          (grow-Subset reach w clear) in
      ground (arith, same)

  -- With as many rounds as squares that may still come, the loop ends where nothing grows.
  pub flood-grow :
      (fuel reach : ℕ)
      → reach < 2 ^ 64
      → Clear reach
      → 64 < fuel + ones_count 64 reach
      → grow (flood fuel reach walls) walls ≡ flood fuel reach walls
  unfolding flood
  flood-grow zero reach w clear enough = absurd (omega (arith, ones_count-le 64 reach))
  flood-grow (suc fuel) reach w clear enough = elim (Bool-cases (grow reach walls == reach)) [
    | inl stays ↦ rw stays ((==_iff _ _).0 stays)
    | inr grows ↦ rw grows (
        flood-grow fuel (grow reach walls) (grow-lt reach walls w) (grow-Clear reach)
          (omega (arith, grow-more reach w clear grows)))
  ]

  pub flood-lt : (fuel reach : ℕ) → reach < 2 ^ 64 → flood fuel reach walls < 2 ^ 64
  unfolding flood
  flood-lt zero reach w = w
  flood-lt (suc fuel) reach w =
      let rest = flood-lt fuel (grow reach walls) (grow-lt reach walls w) in ground (arith, rest)

  pub flood-Subset :
      (fuel reach : ℕ) → reach < 2 ^ 64 → Clear reach → Subset reach (flood fuel reach walls)
  unfolding flood
  flood-Subset zero reach w clear k h = h
  flood-Subset (suc fuel) reach w clear k h = elim (Bool-cases (grow reach walls == reach)) [
    | inl stays ↦ rw stays h
    | inr grows ↦ rw grows (
        flood-Subset fuel (grow reach walls) (grow-lt reach walls w) (grow-Clear reach) k
          (grow-Subset reach w clear k h))
  ]

-- ===== src/Chess/Bitboard/Iteration.antt =====
-- `First`, `PopFirst`, `Count` and `MoreThanOne`, and the loop that pops the squares of a set.
use native.Mathlib.Omega.{arith}
use native.Mathlib.Nat.{pow-suc}
use novachess.Prelude.{
  ℕ, zero, suc, ◌+◌, ◌-◌, ◌*◌, ◌/◌, ◌%◌, ◌^◌, ◌≤◌, ◌<◌, bit_and, true, false, not, ◌&&◌, ◌==◌, leb,
  ltb, ◌≡◌, refl, ◌∙◌, inl, inr, Bool-cases,
}
use novachess.Prelude.Bits.{test_bit, test_bit-and, and-le_left, and_lowest}
use novachess.Prelude.Xor.{test_bit_same}
use novachess.Chess.Bitboard.{
  dec, ones_count, trailing_zeros, has, count, more_than_one, first, pop_first,
}
use novachess.Chess.Bitboard.Members.{has-test_bit}

-- The lowest set digit: it is set, and no lower one is.
trailing_zeros-lowest :
    (w b : ℕ)
    → 0 < b
    → b < 2 ^ w
    → (trailing_zeros w b < w) × (test_bit b (trailing_zeros w b) ≡ true)
unfolding trailing_zeros test_bit
trailing_zeros-lowest zero b h k = absurd (omega arith)
trailing_zeros-lowest (suc w) b h k = elim (Bool-cases (b % 2 == 1)) [
  | inl odd ↦ rw odd (omega arith, odd)
  | inr even ↦
      let half : 0 < b / 2 = ground arith in
      let (l, t) = trailing_zeros-lowest w (b / 2) half (omega (arith, pow-suc 2 w)) in
      rw even (omega arith, t)
]

below_lowest : (w b k : ℕ) → k < trailing_zeros w b → test_bit b k ≡ false
unfolding trailing_zeros test_bit
below_lowest zero b k h = absurd (omega arith)
below_lowest (suc w) b zero h = ground arith
below_lowest (suc w) b (suc k) h = ground (arith, below_lowest w (b / 2) k)

-- `b & (b - 1)` drops the lowest digit and no other.
lowest_dropped :
    (w b k : ℕ)
    → 0 < b
    → b < 2 ^ w
    → (test_bit b k && test_bit (b - 1) k) ≡ (test_bit b k && not (trailing_zeros w b == k))
unfolding trailing_zeros test_bit
lowest_dropped zero b k h l = absurd (omega arith)
lowest_dropped (suc w) b zero h l = ground arith
lowest_dropped (suc w) b (suc k) h l = elim (Bool-cases (b % 2 == 1)) [
  | inl odd ↦ let e : (b - 1) / 2 ≡ b / 2 = ground arith in rw (odd, e) (ground arith)
  | inr even ↦
      let half : 0 < b / 2 = ground arith in
      let e : (b - 1) / 2 ≡ b / 2 - 1 = ground arith in
      rw (even, e) (lowest_dropped w (b / 2) k half (omega (arith, pow-suc 2 w)) ∙ ground arith)
]

and_self : (b : ℕ) → bit_and b b ≡ b
and_self b = test_bit_same _ b (λ k. test_bit-and k b b ∙ ground arith)

-- Dropping the lowest digit lowers the count by one.
dropped_count :
    (w b : ℕ) → 0 < b → b < 2 ^ w → ones_count w (bit_and b (b - 1)) + 1 ≡ ones_count w b
unfolding ones_count
dropped_count zero b h k = absurd (omega arith)
dropped_count (suc w) b h k = elim (Bool-cases (b % 2 == 1)) [
  | inl odd ↦
      let e : (b - 1) / 2 ≡ b / 2 = ground arith in
      let low : bit_and b (b - 1) ≡ b / 2 * 2 =
        and_lowest b (b - 1) ∙ rw (e, and_self) (ground arith) in
      let half : bit_and b (b - 1) / 2 ≡ b / 2 = omega arith in rw half (ground arith)
  | inr even ↦
      let pos : 0 < b / 2 = ground arith in
      let e : (b - 1) / 2 ≡ b / 2 - 1 = ground arith in
      let low : bit_and b (b - 1) ≡ bit_and (b / 2) (b / 2 - 1) * 2 =
        and_lowest b (b - 1) ∙ rw e (ground arith) in
      let half : bit_and b (b - 1) / 2 ≡ bit_and (b / 2) (b / 2 - 1) = omega arith in
      let rest = dropped_count w (b / 2) pos (omega (arith, pow-suc 2 w)) in rw half (ground arith)
]

pub ones_count-zero : (w b : ℕ) → b < 2 ^ w → ones_count w b ≡ 0 → b ≡ 0
unfolding ones_count
ones_count-zero zero b h e = omega arith
ones_count-zero (suc w) b h e =
    omega (arith, ones_count-zero w (b / 2) (omega (arith, pow-suc 2 w)) (omega arith))

pub ones_count-le : (w b : ℕ) → ones_count w b ≤ w
unfolding ones_count
ones_count-le zero b = omega arith
ones_count-le (suc w) b = omega (arith, ones_count-le w (b / 2))

pub ones_count_of_zero : (w : ℕ) → ones_count w 0 ≡ 0
unfolding ones_count
ones_count_of_zero zero = refl
ones_count_of_zero (suc w) = omega (arith, ones_count_of_zero w)

dec-pos : (b : ℕ) → 0 < b → b < 2 ^ 64 → dec b ≡ b - 1
unfolding dec
dec-pos b h k = omega arith

-- What one `PopFirst` on a set that is not empty gives: its least square, and the others.
pub record Pops (b : ℕ) : Type 0 where
  pub on_board : (pop_first b).0 < 64
  pub member : test_bit b (pop_first b).0 ≡ true
  pub least : (k : ℕ) → k < (pop_first b).0 → test_bit b k ≡ false
  pub others : (k : ℕ) → test_bit (pop_first b).1 k ≡ (test_bit b k && not ((pop_first b).0 == k))
  pub counted : ones_count 64 (pop_first b).1 + 1 ≡ ones_count 64 b
  pub word : (pop_first b).1 < 2 ^ 64

pub pop_first-Pops : (b : ℕ) → 0 < b → b < 2 ^ 64 → Pops b
unfolding pop_first
pop_first-Pops b h k =
    let e = dec-pos b h k in
    let (l, t) = trailing_zeros-lowest 64 b h k in
    record {
      on_board = l;
      member = t;
      least = below_lowest 64 b;
      others = λ j. rw (e, test_bit-and j b (b - 1)) (lowest_dropped 64 b j h k);
      counted = rw e (dropped_count 64 b h k);
      word = omega (arith, and-le_left 64 b (dec b) k);
    }

-- For a 64-bit set that is not empty, `PopFirst` removes exactly the square that `First` names,
-- which is the least member, and `Count` falls by one.
pub pop_first_removes_first :
    (b s : ℕ)
    → b < 2 ^ 64
    → 0 < b
    → s < 64
    → ((pop_first b).0 ≡ first b)
      × (has b (first b) ≡ true)
      × ((ltb s (first b) && has b s) ≡ false)
      × (has (pop_first b).1 s ≡ (has b s && not (first b == s)))
      × (count (pop_first b).1 + 1 ≡ count b)
pop_first_removes_first b s h k l =
    let p = pop_first-Pops b k h in
    let e : (pop_first b).0 ≡ first b = unfold pop_first first in refl in
    (
      e,
      rw (← e) (has-test_bit b _ p.on_board ∙ p.member),
      rw (← e, has-test_bit b s l) (ground (arith, p.least s)),
      rw (← e, has-test_bit b s l, has-test_bit (pop_first b).1 s l) (p.others s),
      unfold count in p.counted,
    )

two_or_more : (r d c : ℕ) → (d ≡ 0 → r ≡ 0) → (r ≡ 0 → d ≡ 0) → d + 1 ≡ c → not (r == 0) ≡ leb 2 c
two_or_more r d c p q e = ground arith

count_of_none : (r : ℕ) → r ≡ 0 → ones_count 64 r ≡ 0
count_of_none r e = rw e (ones_count_of_zero 64)

-- For every 64-bit set, the empty one included, `MoreThanOne` is a count of two or more.
pub more_than_one-count : (b : ℕ) → b < 2 ^ 64 → more_than_one b ≡ leb 2 (count b)
unfolding more_than_one count pop_first
more_than_one-count zero h = refl
more_than_one-count (suc b) h =
    let p = pop_first-Pops (suc b) (omega arith) h in
    two_or_more (bit_and (suc b) (dec (suc b))) (ones_count 64 (bit_and (suc b) (dec (suc b))))
      (ones_count 64 (suc b)) (ones_count-zero 64 _ p.word) (count_of_none _) p.counted

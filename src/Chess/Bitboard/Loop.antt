-- ===== src/Chess/Bitboard/Loop.antt =====
-- The loop `for bb != 0 { sq, bb = bb.PopFirst(); … }` over a set of squares.
use native.Mathlib.Omega.{arith}
use novachess.Prelude.{
  ℕ, zero, suc, ◌^◌, ◌≤◌, ◌<◌, Bool, false, not, ◌&&◌, ◌||◌, ◌==◌, ◌≡◌, refl, ◌∙◌, sym, List, [],
  ◌∷◌,
}
use novachess.Prelude.Bits.{test_bit, test_bit-zero}
use novachess.Chess.Bitboard.{ones_count, has, count, pop_first, visit, squares}
use novachess.Chess.Bitboard.Members.{has-test_bit}
use novachess.Chess.Bitboard.Iteration.{
  Pops, pop_first-Pops, ones_count-zero, ones_count-le, ones_count_of_zero,
}

abbrev pub length : List ℕ → ℕ
length [] = 0
length (x ∷ xs) = suc (length xs)

abbrev pub elem : ℕ → List ℕ → Bool
elem k [] = false
elem k (x ∷ xs) = x == k || elem k xs

-- The list rises, from `lo` or above to 63 or below.
abbrev pub Rises : ℕ → List ℕ → Type 0
Rises lo [] = Unit {0}
Rises lo (x ∷ xs) = (lo ≤ x) × (x < 64) × Rises (suc x) xs

-- What the loop over `b` visits, when no member lies below `lo`.
record Visits (b lo : ℕ) (xs : List ℕ) : Type 0 where
  all_members : (k : ℕ) → elem k xs ≡ test_bit b k
  as_many : length xs ≡ ones_count 64 b
  rising : Rises lo xs

Visits-none : (b lo : ℕ) → b ≡ 0 → Visits b lo []
Visits-none b lo e = record {
  all_members = λ k. rw e (ground (arith, test_bit-zero k));
  as_many = rw e (ground (arith, ones_count_of_zero 64));
  rising = tt;
}

Visits-pop :
    (b lo : ℕ) (xs : List ℕ)
    → Pops b
    → ((k : ℕ) → k < lo → test_bit b k ≡ false)
    → Visits (pop_first b).1 (suc (pop_first b).0) xs
    → Visits b lo ((pop_first b).0 ∷ xs)
Visits-pop b lo xs p empty_below rest = record {
  all_members = λ k. ground (arith, rest.all_members k, p.others k, p.member);
  as_many = omega (arith, rest.as_many, p.counted);
  rising = (ground (arith, p.member, empty_below (pop_first b).0), p.on_board, rest.rising);
}

apart : (x : Bool) (f k : ℕ) → (k < f → x ≡ false) → k < suc f → (x && not (f == k)) ≡ false
apart x f k least h = ground arith

popped_below :
    (b : ℕ) → Pops b → (k : ℕ) → k < suc (pop_first b).0 → test_bit (pop_first b).1 k ≡ false
popped_below b p k h = p.others k ∙ apart (test_bit b k) (pop_first b).0 k (p.least k) h

visit-more :
    (fuel b : ℕ) → 0 < b → visit (suc fuel) b ≡ (pop_first b).0 ∷ visit fuel (pop_first b).1
unfolding visit
visit-more fuel b h = let e : (b == 0) ≡ false = ground arith in rw e

visit-Visits :
    (fuel b lo : ℕ)
    → b < 2 ^ 64
    → ones_count 64 b ≤ fuel
    → ((k : ℕ) → k < lo → test_bit b k ≡ false)
    → Visits b lo (visit fuel b)
visit-Visits zero b lo h enough empty_below =
    unfold visit in Visits-none b lo (ones_count-zero 64 b h (omega arith))
visit-Visits (suc fuel) zero lo h enough empty_below = unfold visit in Visits-none 0 lo refl
visit-Visits (suc fuel) (suc b) lo h enough empty_below =
    let p = pop_first-Pops (suc b) (omega arith) h in
    let rest =
      visit-Visits fuel (pop_first (suc b)).1 (suc (pop_first (suc b)).0) p.word
        (omega (arith, p.counted)) (popped_below (suc b) p) in
    rw (visit-more fuel (suc b) (omega arith)) (Visits-pop (suc b) lo _ p empty_below rest)

pub elem-squares : (b s : ℕ) → b < 2 ^ 64 → elem s (squares b) ≡ test_bit b s
unfolding squares
elem-squares b s h =
    let v = visit-Visits 64 b 0 h (ones_count-le 64 b) (λ k q. absurd (omega arith)) in
    v.all_members s

-- The loop that pops a 64-bit set ends within 64 rounds, and visits exactly the members, each
-- once and in rising order: as many squares as `Count` says.
pub squares_visits_members :
    (b s : ℕ)
    → b < 2 ^ 64
    → s < 64
    → (elem s (squares b) ≡ has b s) × (length (squares b) ≡ count b) × Rises 0 (squares b)
unfolding squares count
squares_visits_members b s h l =
    let v = visit-Visits 64 b 0 h (ones_count-le 64 b) (λ k q. absurd (omega arith)) in
    (v.all_members s ∙ sym (has-test_bit b s l), v.as_many, v.rising)

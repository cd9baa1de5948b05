-- ===== src/Chess/Rules/Material.antt =====
-- Insufficient material, read off the mailbox instead of the bitboards.
use native.Mathlib.Omega.{arith}
use novachess.Prelude.{
  ℕ, zero, suc, ◌+◌, ◌/◌, ◌^◌, ◌<◌, bit_and, bit_or, Bool, true, false, not, ◌||◌, ◌&&◌, xor, leb,
  ◌==◌, ◌≡◌, refl, ◌∙◌, if◌then◌else◌,
}
use novachess.Prelude.Bits.{test_bit, test_bit-or, test_bit-and, or_lt, and-le_left}
use novachess.Chess.Types.{pawn, knight, bishop, rook, queen, type_of}
use novachess.Chess.Bitboard.{ones_count, count}
use novachess.Chess.Bitboard.Iteration.{ones_count-zero, ones_count_of_zero}
use novachess.Chess.Position.{Position}
use novachess.Chess.Position.Consistent.{Consistent}
use novachess.Chess.Position.Consistent.Indexed.{is_of}
use novachess.Chess.Rules.{
  dark_squares, light_squares, square_is_dark, bishops_on_one_color_complex,
  is_insufficient_material,
}

-- How many of the first `n` squares satisfy a test.
abbrev pub tally : ℕ → (ℕ → Bool) → ℕ
tally zero f = 0
tally (suc n) f = (if f 0 then 1 else 0) + tally n (λ k. f (suc k))

-- The rule on the mailbox: no pawn, rook or queen, and at most one minor piece or else bishops
-- alone, all on squares of one colour.
abbrev pub material_is_short : (ℕ → ℕ) → Bool
material_is_short board =
    let holds : ℕ → ℕ → Bool = λ t s. is_of type_of (board s) t in
    let on : (ℕ → Bool) → ℕ = tally 64 in
    on (λ s. holds pawn s || holds rook s || holds queen s) == 0
    && (leb (on (λ s. holds knight s || holds bishop s)) 1
        || on (holds knight) == 0
          && (on (λ s. holds bishop s && square_is_dark s) == 0
              || on (λ s. holds bishop s && not (square_is_dark s)) == 0))

ones_count-tally : (w a : ℕ) → ones_count w a ≡ tally w (test_bit a)
unfolding ones_count test_bit
ones_count-tally zero a = refl
ones_count-tally (suc w) a = ground (arith, ones_count-tally w (a / 2))

tally-eq : (n : ℕ) (f g : ℕ → Bool) → ((k : ℕ) → k < n → f k ≡ g k) → tally n f ≡ tally n g
tally-eq zero f g same = refl
tally-eq (suc n) f g same = ground (
  arith,
  same 0 (omega arith),
  tally-eq n (λ k. f (suc k)) (λ k. g (suc k)) (λ k h. same (suc k) (omega arith)),
)

zero_test : (a c t : ℕ) → (c ≡ 0 → a ≡ 0) → (a ≡ 0 → c ≡ 0) → c ≡ t → (a == 0) ≡ (t == 0)
zero_test a c t p q e = ground arith

none_in : (a : ℕ) → a ≡ 0 → ones_count 64 a ≡ 0
none_in a e = rw e (ones_count_of_zero 64)

-- A word is empty when its tally is 0.
word_tally :
    (a : ℕ) (f : ℕ → Bool)
    → a < 2 ^ 64
    → ((k : ℕ) → k < 64 → test_bit a k ≡ f k)
    → (ones_count 64 a ≡ tally 64 f) × ((a == 0) ≡ (tally 64 f == 0))
word_tally a f w same =
    let e : ones_count 64 a ≡ tally 64 f =
      ones_count-tally 64 a ∙ tally-eq 64 (test_bit a) f same in
    (e, zero_test a (ones_count 64 a) (tally 64 f) (ones_count-zero 64 a w) (none_in a) e)

abbrev every : ℕ → (ℕ → Bool) → Bool
every zero f = true
every (suc n) f = f 0 && every n (λ k. f (suc k))

every-at : (n : ℕ) (f : ℕ → Bool) (k : ℕ) → every n f ≡ true → k < n → f k ≡ true
every-at zero f k h l = absurd (omega arith)
every-at (suc n) f zero h l = ground arith
every-at (suc n) f (suc k) h l = every-at n (λ k. f (suc k)) k (ground arith) (omega arith)

abbrev colours_agree : ℕ → Bool
colours_agree s =
    not (xor (test_bit dark_squares s) (square_is_dark s))
    && not (xor (test_bit light_squares s) (not (square_is_dark s)))

colours : every 64 colours_agree ≡ true
unfolding test_bit square_is_dark xor
colours = refl

square_colour :
    (s : ℕ)
    → s < 64
    → (test_bit dark_squares s ≡ square_is_dark s)
      × (test_bit light_squares s ≡ not (square_is_dark s))
unfolding xor
square_colour s h =
    let at = every-at 64 colours_agree s colours h in (ground (arith, at), ground (arith, at))

-- The tests of the rule, on the counts.
decide_material :
    (h k : ℕ) (m : ℕ) (d l : Bool)
    → (if not (h == 0)
        then false
        else if m == 0
        then true
        else if m == 1
        then true
        else if not (k == 0)
        then false
        else d || l)
      ≡ (h == 0 && (leb m 1 || k == 0 && (d || l)))
decide_material h k m d l = ground arith

-- On a position whose bitboards index its mailbox, the rule answers as it does on the mailbox.
pub is_insufficient_material-mailbox :
    (p : Position) → Consistent p → is_insufficient_material p ≡ material_is_short p.board
unfolding is_insufficient_material bishops_on_one_color_complex count
is_insufficient_material-mailbox p c =
    let holds : ℕ → ℕ → Bool = λ t s. is_of type_of (p.board s) t in
    let heavy = bit_or (bit_or (p.by_type pawn) (p.by_type rook)) (p.by_type queen) in
    let minors = bit_or (p.by_type knight) (p.by_type bishop) in
    let dark = bit_and (p.by_type bishop) dark_squares in
    let light = bit_and (p.by_type bishop) light_squares in
    let heavy_lt =
      or_lt 64 _ _ (or_lt 64 _ _ (c.types.words pawn) (c.types.words rook)) (c.types.words queen) in
    let minors_lt = or_lt 64 _ _ (c.types.words knight) (c.types.words bishop) in
    let dark_lt : dark < 2 ^ 64 =
      omega (arith, and-le_left 64 (p.by_type bishop) dark_squares, c.types.words bishop) in
    let light_lt : light < 2 ^ 64 =
      omega (arith, and-le_left 64 (p.by_type bishop) light_squares, c.types.words bishop) in
    let (_, no_heavy) =
      word_tally heavy (λ s. holds pawn s || holds rook s || holds queen s) heavy_lt
        (λ s h.
          rw
            (
              test_bit-or,
              test_bit-or,
              c.types.bits pawn s h,
              c.types.bits rook s h,
              c.types.bits queen s h,
            )
            refl) in
    let (few, _) =
      word_tally minors (λ s. holds knight s || holds bishop s) minors_lt
        (λ s h. rw (test_bit-or, c.types.bits knight s h, c.types.bits bishop s h) refl) in
    let (_, no_knight) =
      word_tally (p.by_type knight) (holds knight) (c.types.words knight)
        (λ s h. c.types.bits knight s h) in
    let (_, no_dark) =
      word_tally dark (λ s. holds bishop s && square_is_dark s) dark_lt
        (λ s h. rw (test_bit-and, c.types.bits bishop s h, (square_colour s h).0) refl) in
    let (_, no_light) =
      word_tally light (λ s. holds bishop s && not (square_is_dark s)) light_lt
        (λ s h. rw (test_bit-and, c.types.bits bishop s h, (square_colour s h).1) refl) in
    decide_material heavy (p.by_type knight) (ones_count 64 minors) (dark == 0) (light == 0)
    ∙ rw (no_heavy, few, no_knight, no_dark, no_light) refl

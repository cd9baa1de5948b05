-- ===== src/Chess/Position/Consistent/Indexed.antt =====
-- A family of bitboards that indexes the board: one set for each class of pieces, holding the
-- squares whose piece is of that class. `byType` and `byColor` are two such families.
use native.Mathlib.Omega.{arith}
use novachess.Prelude.{
  ℕ, ◌^◌, ◌<◌, bit_or, bit_xor, Bool, xor, ◌&&◌, ltb, ◌==◌, ◌≡◌, ◌∙◌, sym, fun_ext, inl, inr,
  Bool-cases, ==_iff, update,
}
use novachess.Prelude.Bits.{test_bit, test_bit-or, test_bit-xor, test_bit_ext, or_lt, xor_lt}
use novachess.Chess.Types.{no_piece}
use novachess.Chess.Bitboard.{bb, and_not}
use novachess.Chess.Bitboard.Members.{test_bit-bb, test_bit-and_not, and_not-lt, bb-lt}

abbrev pub is_of : (ℕ → ℕ) → ℕ → ℕ → Bool
is_of class pc t = ltb pc no_piece && class pc == t

pub record Indexes (class board sets : ℕ → ℕ) : Type 0 where
  pub bits : (t s : ℕ) → s < 64 → test_bit (sets t) s ≡ is_of class (board s) t
  pub words : (t : ℕ) → sets t < 2 ^ 64

-- The board determines its index.
pub Indexes-unique :
    (class board a b : ℕ → ℕ) → Indexes class board a → Indexes class board b → a ≡ b
Indexes-unique class board a b i j = fun_ext λ t.
    test_bit_ext 64 (a t) (b t) (i.words t) (j.words t) (λ s h. i.bits t s h ∙ sym (j.bits t s h))

module _ (class board sets : ℕ → ℕ) (i : Indexes class board sets) where
  put_bits :
      (pc s t k : ℕ)
      → board s ≡ no_piece
      → pc < 12
      → s < 64
      → k < 64
      → test_bit (update sets (class pc) (bit_or (sets (class pc)) (bb s)) t) k
        ≡ is_of class (update board s pc k) t
  put_bits pc s t k empty real h l = elim (Bool-cases (s == k)) [
    | inl here ↦
        let e : s ≡ k = (==_iff s k).0 here in
        ground (arith, i.bits t k l, test_bit-or k (sets (class pc)) (bb s), test_bit-bb s k h)
    | inr elsewhere ↦ ground (
      arith,
      i.bits t k l,
      i.bits (class pc) k l,
      test_bit-or k (sets (class pc)) (bb s),
      test_bit-bb s k h,
    )
  ]

  -- Placing a real piece on an empty square.
  pub Indexes-put :
      (pc s : ℕ)
      → board s ≡ no_piece
      → pc < 12
      → s < 64
      → Indexes class (update board s pc) (update sets (class pc) (bit_or (sets (class pc)) (bb s)))
  Indexes-put pc s empty real h = record {
    bits = λ t k. put_bits pc s t k empty real h;
    words =
        λ t. ground (arith, i.words t, or_lt 64 (sets (class pc)) (bb s) (i.words _) (bb-lt s h));
  }

  remove_bits :
      (s t k : ℕ)
      → board s < 12
      → s < 64
      → k < 64
      → test_bit (update sets (class (board s)) (and_not (sets (class (board s))) (bb s)) t) k
        ≡ is_of class (update board s no_piece k) t
  remove_bits s t k real h l = elim (Bool-cases (s == k)) [
    | inl here ↦
        let e : s ≡ k = (==_iff s k).0 here in
        ground (
          arith,
          e,
          i.bits t k l,
          test_bit-and_not (sets (class (board s))) (bb s) k l,
          test_bit-bb s k h,
        )
    | inr elsewhere ↦ ground (
      arith,
      i.bits t k l,
      i.bits (class (board s)) k l,
      test_bit-and_not (sets (class (board s))) (bb s) k l,
      test_bit-bb s k h,
    )
  ]

  -- Lifting a real piece.
  pub Indexes-remove :
      (s : ℕ)
      → board s < 12
      → s < 64
      → Indexes class
          (update board s no_piece)
          (update sets (class (board s)) (and_not (sets (class (board s))) (bb s)))
  Indexes-remove s real h = record {
    bits = λ t k. remove_bits s t k real h;
    words = λ t.
        ground (
          arith,
          i.words t,
          and_not-lt (sets (class (board s))) (bb s) (i.words (class (board s))),
        );
  }

  move_bits :
      (from to t k : ℕ)
      → board from < 12
      → board to ≡ no_piece
      → from < 64
      → to < 64
      → k < 64
      → test_bit
          (update sets
            (class (board from))
            (bit_xor (sets (class (board from))) (bit_or (bb from) (bb to)))
            t)
          k
        ≡ is_of class (update (update board from no_piece) to (board from) k) t
  unfolding xor
  move_bits from to t k real empty h l q =
      let shifted = test_bit-xor k (sets (class (board from))) (bit_or (bb from) (bb to)) in
      let ends = test_bit-or k (bb from) (bb to) in
      ground (
        arith,
        i.bits t k q,
        i.bits (class (board from)) k q,
        i.bits (class (board from)) from h,
        shifted,
        ends,
        test_bit-bb from k h,
        test_bit-bb to k l,
      )

  -- Moving a real piece to an empty square.
  pub Indexes-move :
      (from to : ℕ)
      → board from < 12
      → board to ≡ no_piece
      → from < 64
      → to < 64
      → Indexes class (update (update board from no_piece) to (board from)) (
          update sets
            (class (board from))
            (bit_xor (sets (class (board from))) (bit_or (bb from) (bb to))))
  Indexes-move from to real empty h l = record {
    bits = λ t k. move_bits from to t k real empty h l;
    words = λ t. ground (
      arith,
      i.words t,
      xor_lt 64 (sets (class (board from))) (bit_or (bb from) (bb to)) (i.words _)
          (or_lt 64 (bb from) (bb to) (bb-lt from h) (bb-lt to l)),
    );
  }

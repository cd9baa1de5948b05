-- ===== src/Search/Entry/Fields.antt =====
-- What a packed entry reads back as, and what a reader that races a writer sees.
use native.Mathlib.Omega.{arith}
use novachess.Prelude.{
  ℕ, ◌+◌, ◌*◌, ◌/◌, ◌%◌, ◌^◌, ◌<◌, bit_xor, true, ◌≡◌, ◌≢◌, ◌∙◌, sym, ap, subst, refl, ◌↔◌,
}
use novachess.Prelude.Int.{ℤ, pos, negsuc}
use novachess.Prelude.Fields.{or-fields, and-mask}
use novachess.Prelude.Xor.{xor_cancel, xor_cancel_left, xor_comm}
use novachess.Chess.Bitboard.{shl}
use novachess.Search.Mate.{FitsInt16}
use novachess.Search.Entry.{
  pack_entry, move_of, score_of, depth_of, bound_of, gen_of, u16_of_int, int_of_i16, read, write,
}

-- An entry as the sum of its fields.
abbrev packed : ℕ → ℕ → ℕ → ℕ → ℕ → ℕ → ℕ
packed move score static_eval depth bound gen =
    move + score * 2 ^ 16 + static_eval * 2 ^ 32 + depth * 2 ^ 48 + bound * 2 ^ 56 + gen * 2 ^ 58

u16_of_int-lt : (n : ℤ) → u16_of_int n < 65536
u16_of_int-lt (pos n) = omega arith
u16_of_int-lt (negsuc n) = omega arith

u16_of_int_back : (n : ℤ) → FitsInt16 n → int_of_i16 (u16_of_int n) ≡ n
u16_of_int_back (pos n) h = ground arith
u16_of_int_back (negsuc n) h = ground arith

module _ (move : ℕ) (score static_eval : ℤ) (depth bound gen : ℕ) (m : move < 65536)
    (d : depth < 256) (b : bound < 4) where
  pack_entry-packed :
      pack_entry move score static_eval depth bound gen
      ≡ packed move (u16_of_int score) (u16_of_int static_eval) depth bound (gen % 64)
  unfolding pack_entry shl
  pack_entry-packed =
      let s = u16_of_int score in
      let e = u16_of_int static_eval in
      let g = gen % 64 in
      let s_lt = u16_of_int-lt score in
      let e_lt = u16_of_int-lt static_eval in
      let two = move + s * 2 ^ 16 in
      let three = two + e * 2 ^ 32 in
      let four = three + depth * 2 ^ 48 in
      let five = four + bound * 2 ^ 56 in
      let fields2 = or-fields 16 16 move s m s_lt in
      let fields3 = or-fields 32 16 two e (omega arith) e_lt in
      let fields4 = or-fields 48 8 three depth (omega arith) d in
      let fields5 = or-fields 56 2 four bound (omega arith) b in
      let fields6 = or-fields 58 6 five g (omega arith) (omega arith) in
      ground (
        arith,
        and-mask 2 bound,
        and-mask 6 gen,
        s_lt,
        e_lt,
        fields2,
        fields3,
        fields4,
        fields5,
        fields6,
      )

-- What the accessors read.
pub record Reads (d move : ℕ) (score : ℤ) (depth bound gen : ℕ) : Type 0 where
  pub move_back : move_of d ≡ move
  pub score_back : score_of d ≡ score
  pub depth_back : depth_of d ≡ depth
  pub bound_back : bound_of d ≡ bound
  pub gen_back : gen_of d ≡ gen

Reads-packed :
    (move s e depth bound g : ℕ)
    → move < 65536
    → s < 65536
    → e < 65536
    → depth < 256
    → bound < 4
    → g < 64
    → Reads (packed move s e depth bound g) move (int_of_i16 s) depth bound g
unfolding move_of score_of depth_of bound_of gen_of
Reads-packed move s e depth bound g m sl el d b gl = record {
  move_back = omega arith;
  score_back = ap int_of_i16 (omega arith);
  depth_back = omega arith;
  bound_back = ground (arith, and-mask 2 (packed move s e depth bound g / 2 ^ 56 % 256));
  gen_back = ground (arith, and-mask 6 (packed move s e depth bound g / 2 ^ 58 % 256));
}

-- The accessors read back from a packed entry its move, a score that fits `int16`, its depth, its
-- bound, and the low six bits of the generation.
pub pack_entry-Reads :
    (move : ℕ) (score static_eval : ℤ) (depth bound gen : ℕ)
    → move < 65536
    → FitsInt16 score
    → depth < 256
    → bound < 4
    → Reads (pack_entry move score static_eval depth bound gen) move score depth bound (gen % 64)
pack_entry-Reads move score static_eval depth bound gen m fits d b =
    rw (pack_entry-packed move score static_eval depth bound gen m d b) (
      subst
        (λ n.
          Reads (packed move (u16_of_int score) (u16_of_int static_eval) depth bound (gen % 64))
            move n depth bound (gen % 64))
        (u16_of_int_back score fits)
        (Reads-packed move (u16_of_int score) (u16_of_int static_eval) depth bound (gen % 64) m
          (u16_of_int-lt score) (u16_of_int-lt static_eval) d b (omega arith)))

-- A word whose bound is not `BoundNone` is not the empty word.
pub bound_of_zero : bound_of 0 ≡ 0
unfolding bound_of
bound_of_zero = refl

-- Folding a word out of a key and another one in gives the key back only for the same word.
same_word : (key word torn : ℕ) → bit_xor (bit_xor key word) torn ≡ key → torn ≡ word
same_word key word torn e =
    sym (xor_cancel_left (bit_xor key word) torn)
    ∙ ap (bit_xor (bit_xor key word)) e
    ∙ xor_comm (bit_xor key word) key
    ∙ xor_cancel_left key word

-- A word that is not 0 reads back under the key that it was written under, and under no other; and a reader that catches a half of one write and a half of another, both under its
-- own key, reads nothing unless the two words are the same.
pub read-write :
    (key other word torn : ℕ)
    → word ≢ 0
    → (read (write key word) key ≡ (word, true))
      × ((read (write key word) other ≡ (word, true)) ↔ (other ≡ key))
      × ((read (record { keyx = bit_xor key word; word = torn }) key ≡ (torn, true))
          ↔ (torn ≡ word))
unfolding read write
read-write key other word torn some_word =
    let back = xor_cancel key word in
    (
      ground (arith, back),
      ((λ e. ground (arith, back)), (λ e. ground (arith, back))),
      ((λ e. ground (arith, same_word key word torn)), (λ e. ground (arith, back))),
    )

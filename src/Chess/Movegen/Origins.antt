-- ===== src/Chess/Movegen/Origins.antt =====
-- Where generated moves start: from a piece of the side to move.
use native.Mathlib.Omega.{arith}
use novachess.Prelude.{
  ℕ, suc, ◌+◌, ◌*◌, ◌%◌, ◌^◌, ◌<◌, bit_and, bit_or, Bool, true, false, Option, none, some, List, [],
  ◌∷◌, ◌++◌, ◌-◌, ◌≡◌, refl, sym, ◌∙◌, ap, if◌then◌else◌, ◌>>=◌,
}
use novachess.Prelude.Bits.{test_bit, test_bit-or, test_bit-and, test_bit-zero, and-le_left}
use novachess.Prelude.Fields.{and-mask}
use novachess.Prelude.Xor.{test_bit_same}
use novachess.Chess.Types.{no_piece, color_of, u8, knight}
use novachess.Chess.Move.{
  u16, new_move, new_promotion, new_en_passant, new_castling, from_of, kind_promotion,
  kind_en_passant, kind_castling,
}
use novachess.Chess.Bitboard.{squares}
use novachess.Chess.Bitboard.Loop.{elem, Rises, elem-squares, squares_visits_members}
use novachess.Chess.Position.{Position, pieces_of}
use novachess.Chess.Position.Consistent.{Consistent}

-- Bits above the origin's field do not change the origin.
from_of-or : (a b : ℕ) → b % 64 ≡ 0 → from_of (bit_or a b) ≡ from_of a
unfolding from_of
from_of-or a b h = ap u8 (
    test_bit_same _ _ (λ k.
      let none_low : test_bit (bit_and b 63) k ≡ false =
        ap (λ n. test_bit n k) (and-mask 6 b ∙ h) ∙ test_bit-zero k in
      ground (
        arith,
        none_low,
        test_bit-and k (bit_or a b) 63,
        test_bit-and k a 63,
        test_bit-and k b 63,
        test_bit-or k a b,
      )))

from_of-square : (s : ℕ) → s < 64 → from_of s ≡ s
unfolding from_of
from_of-square s h = ground (arith, and-mask 6 s)

field_high : (to : ℕ) → u16 (to * 2 ^ 6) % 64 ≡ 0
field_high to = omega arith

pub from_of-new_move : (from to : ℕ) → from < 64 → from_of (new_move from to) ≡ from
unfolding new_move
from_of-new_move from to h = from_of-or from _ (field_high to) ∙ from_of-square from h

pub from_of-new_promotion : (from to pt : ℕ) → from < 64 → from_of (new_promotion from to pt) ≡ from
unfolding new_promotion
from_of-new_promotion from to pt h =
    from_of-or _ kind_promotion refl
    ∙ from_of-or _ (u16 (u8 (pt + 256 - knight) * 2 ^ 12)) (omega arith)
    ∙ from_of-or from _ (field_high to)
    ∙ from_of-square from h

pub from_of-new_en_passant : (from to : ℕ) → from < 64 → from_of (new_en_passant from to) ≡ from
unfolding new_en_passant
from_of-new_en_passant from to h =
    from_of-or _ kind_en_passant refl ∙ from_of-or from _ (field_high to) ∙ from_of-square from h

pub from_of-new_castling : (from to : ℕ) → from < 64 → from_of (new_castling from to) ≡ from
unfolding new_castling
from_of-new_castling from to h =
    from_of-or _ kind_castling refl ∙ from_of-or from _ (field_high to) ∙ from_of-square from h

-- The listed squares are on the board and in the set.
abbrev pub Members : ℕ → List ℕ → Type 0
Members b [] = Unit {0}
Members b (s ∷ ss) = (s < 64) × (test_bit b s ≡ true) × Members b ss

listed :
    (b lo : ℕ) (ss : List ℕ)
    → ((s : ℕ) → elem s ss ≡ true → test_bit b s ≡ true)
    → Rises lo ss
    → Members b ss
listed b lo [] all rising = tt
listed b lo (s ∷ ss) all (_, on_board, rising) =
    (on_board, all s (ground arith), listed b (suc s) ss (λ t m. all t (ground arith)) rising)

pub squares-Members : (b : ℕ) → b < 2 ^ 64 → Members b (squares b)
squares-Members b h =
    let (_, _, rising) = squares_visits_members b 0 h (omega arith) in
    listed b 0 (squares b) (λ s m. sym (elem-squares b s h) ∙ m) rising

-- A move that starts from a piece of `us`, and lists of them.
abbrev pub StartsFrom : (ℕ → ℕ) → ℕ → ℕ → Type 0
StartsFrom b us m = (b (from_of m) < no_piece) × (color_of (b (from_of m)) ≡ us)

pub data AllStart (b : ℕ → ℕ) (us : ℕ) : List ℕ → Type 0 where
  no_more : AllStart b us []
  more : (m : ℕ) (ms : List ℕ) → StartsFrom b us m → AllStart b us ms → AllStart b us (m ∷ ms)

-- The same of a part of the generator, when it returns.
pub data Starts (b : ℕ → ℕ) (us : ℕ) : Option (List ℕ) → Type 0 where
  panics : Starts b us none
  returns : (ms : List ℕ) → AllStart b us ms → Starts b us (some ms)

module _ (b : ℕ → ℕ) (us : ℕ) where
  pub AllStart-append :
      (xs ys : List ℕ) → AllStart b us xs → AllStart b us ys → AllStart b us (xs ++ ys)
  AllStart-append [] ys h k = k
  AllStart-append (x ∷ xs) ys (more _ _ x_ok h) k =
      more x (xs ++ ys) x_ok (AllStart-append xs ys h k)

  pub AllStart-if :
      (t : Bool) (xs ys : List ℕ)
      → AllStart b us xs
      → AllStart b us ys
      → AllStart b us (if t then xs else ys)
  AllStart-if true xs ys h k = h
  AllStart-if false xs ys h k = k

  pub Starts-if :
      (t : Bool) (x y : Option (List ℕ))
      → Starts b us x
      → Starts b us y
      → Starts b us (if t then x else y)
  Starts-if true x y h k = h
  Starts-if false x y h k = k

  pub Starts-after :
      {A : Type 0} (o : Option A) (f : A → Option (List ℕ))
      → ((a : A) → Starts b us (f a))
      → Starts b us (o >>= f)
  Starts-after none f h = panics
  Starts-after (some a) f h = h a

  pub Starts-bind :
      (o : Option (List ℕ)) (f : List ℕ → Option (List ℕ))
      → Starts b us o
      → ((ms : List ℕ) → AllStart b us ms → Starts b us (f ms))
      → Starts b us (o >>= f)
  Starts-bind none f h k = panics
  Starts-bind (some ms) f (returns _ h) k = k ms h

-- A square in the bitboard of a colour holds a piece of that colour.
pub own_square :
    (p : Position) (us m from : ℕ)
    → Consistent p
    → from < 64
    → test_bit (p.by_color us) from ≡ true
    → from_of m ≡ from
    → StartsFrom p.board us m
own_square p us m from c h t e =
    let at = sym (c.colors.bits us from h) ∙ t in
    (rw e (ground (arith, at)), rw e (ground (arith, at)))

pub pieces_of-Members :
    (p : Position) (us pt : ℕ)
    → Consistent p
    → Members (pieces_of p us pt) (squares (pieces_of p us pt))
unfolding pieces_of
pieces_of-Members p us pt c =
    squares-Members _
      (omega (arith, and-le_left 64 (p.by_color us) (p.by_type pt), c.colors.words us))

pub own_of :
    (p : Position) (us pt s : ℕ)
    → test_bit (pieces_of p us pt) s ≡ true
    → test_bit (p.by_color us) s ≡ true
unfolding pieces_of
own_of p us pt s h = ground (arith, test_bit-and s (p.by_color us) (p.by_type pt))

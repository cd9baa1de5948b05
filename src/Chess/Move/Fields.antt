-- ===== src/Chess/Move/Fields.antt =====
-- The fields of a packed move are those that its constructor was given.
use native.Mathlib.Omega.{arith}
use novachess.Prelude.{ℕ, ◌+◌, ◌-◌, ◌*◌, ◌/◌, ◌%◌, ◌^◌, ◌≤◌, ◌<◌, ◌≡◌, ◌∙◌}
use novachess.Prelude.Fields.{or-fields, and-mask, and-shifted}
use novachess.Chess.Types.{knight, queen}
use novachess.Chess.Move.{
  new_move, new_promotion, new_en_passant, new_castling, from_of, to_of, kind_of, promotion_of,
  kind_normal, kind_promotion, kind_en_passant, kind_castling,
}

-- A move as the sum of its fields.
abbrev packed : ℕ → ℕ → ℕ → ℕ → ℕ
packed from to promo kind = from + to * 64 + promo * 4096 + kind * 16384

module _ (from to promo kind : ℕ) (f : from < 64) (t : to < 64) (p : promo < 4) (k : kind < 4) where
  from_of-packed : from_of (packed from to promo kind) ≡ from
  unfolding from_of
  from_of-packed = ground (arith, and-mask 6 (packed from to promo kind))

  to_of-packed : to_of (packed from to promo kind) ≡ to
  unfolding to_of
  to_of-packed = ground (arith, and-mask 6 (packed from to promo kind / 64))

  promotion_of-packed : promotion_of (packed from to promo kind) ≡ promo + knight
  unfolding promotion_of
  promotion_of-packed = ground (arith, and-mask 2 (packed from to promo kind / 4096))

  kind_of-packed : kind_of (packed from to promo kind) ≡ kind * 16384
  unfolding kind_of
  kind_of-packed =
      and-shifted 14 (packed from to promo kind) 3
      ∙ ground (arith, and-mask 2 (packed from to promo kind / 16384))

new_move-packed : (from to : ℕ) → from < 64 → to < 64 → new_move from to ≡ packed from to 0 0
unfolding new_move
new_move-packed from to f t = ground (arith, or-fields 6 6 from to f t)

new_en_passant-packed :
    (from to : ℕ) → from < 64 → to < 64 → new_en_passant from to ≡ packed from to 0 2
unfolding new_en_passant
new_en_passant-packed from to f t = ground (
  arith,
  or-fields 6 6 from to f t,
  or-fields 14 2 (from + to * 64) 2 (omega arith) (omega arith),
)

new_castling-packed :
    (from to : ℕ) → from < 64 → to < 64 → new_castling from to ≡ packed from to 0 3
unfolding new_castling
new_castling-packed from to f t = ground (
  arith,
  or-fields 6 6 from to f t,
  or-fields 14 2 (from + to * 64) 3 (omega arith) (omega arith),
)

new_promotion-packed :
    (from to pt : ℕ)
    → from < 64
    → to < 64
    → knight ≤ pt
    → pt ≤ queen
    → new_promotion from to pt ≡ packed from to (pt - 1) 1
unfolding new_promotion
new_promotion-packed from to pt f t lo hi = ground (
  arith,
  or-fields 6 6 from to f t,
  or-fields 12 2 (from + to * 64) (pt - 1) (omega arith) (omega arith),
  or-fields 14 2 (from + to * 64 + (pt - 1) * 4096) 1 (omega arith) (omega arith),
)

abbrev pub Fields : ℕ → ℕ → ℕ → ℕ → Type 0
Fields m from to kind = (from_of m ≡ from) × (to_of m ≡ to) × (kind_of m ≡ kind)

Fields-packed :
    (m from to promo kind : ℕ)
    → m ≡ packed from to promo kind
    → from < 64
    → to < 64
    → promo < 4
    → kind < 4
    → Fields m from to (kind * 16384)
Fields-packed m from to promo kind e f t p k = rw e (
  from_of-packed from to promo kind f t p k,
  to_of-packed from to promo kind f t p k,
  kind_of-packed from to promo kind f t p k,
)

-- For squares below 64 and a piece type from knight to queen, the accessors read back from each
-- of the four constructors the origin, the destination, the kind and, of a promotion, the piece.
pub constructors_read_back :
    (from to pt : ℕ)
    → from < 64
    → to < 64
    → knight ≤ pt
    → pt ≤ queen
    → Fields (new_move from to) from to kind_normal
      × Fields (new_promotion from to pt) from to kind_promotion
      × (promotion_of (new_promotion from to pt) ≡ pt)
      × Fields (new_en_passant from to) from to kind_en_passant
      × Fields (new_castling from to) from to kind_castling
constructors_read_back from to pt f t lo hi =
    let small : pt - 1 < 4 = omega arith in
    let promoted = new_promotion-packed from to pt f t lo hi in
    (
      Fields-packed _ from to 0 0 (new_move-packed from to f t) f t (omega arith) (omega arith),
      Fields-packed _ from to (pt - 1) 1 promoted f t small (omega arith),
      rw promoted (promotion_of-packed from to (pt - 1) 1 f t small (omega arith) ∙ omega arith),
      Fields-packed _ from to 0 2 (new_en_passant-packed from to f t) f t (omega arith)
          (omega arith),
      Fields-packed _ from to 0 3 (new_castling-packed from to f t) f t (omega arith) (omega arith),
    )

as_packed : (m : ℕ) → m < 2 ^ 16 → m ≡ packed (m % 64) (m / 64 % 64) (m / 4096 % 4) (m / 16384)
as_packed m h = omega arith

promotion_of-any : (m : ℕ) → m < 2 ^ 16 → promotion_of m ≡ m / 4096 % 4 + 1
unfolding promotion_of
promotion_of-any m h = ground (arith, and-mask 2 (m / 4096))

-- A sixteen-bit word of the promotion kind is rebuilt from its origin, destination and piece.
pub new_promotion_rebuilds :
    (m : ℕ)
    → m < 2 ^ 16
    → kind_of m ≡ kind_promotion
    → new_promotion (from_of m) (to_of m) (promotion_of m) ≡ m
new_promotion_rebuilds m h k =
    let (f, t, kd) =
      Fields-packed m (m % 64) (m / 64 % 64) (m / 4096 % 4) (m / 16384) (as_packed m h)
        (omega arith) (omega arith) (omega arith) (omega arith) in
    let p = promotion_of-any m h in
    ground (
      arith,
      f,
      t,
      kd,
      p,
      new_promotion-packed (m % 64) (m / 64 % 64) (m / 4096 % 4 + 1) (omega arith) (omega arith)
          (omega arith) (omega arith),
    )

pub from_of-lt : (m : ℕ) → from_of m < 64
unfolding from_of
from_of-lt m = ground (arith, and-mask 6 m)

pub to_of-lt : (m : ℕ) → to_of m < 64
unfolding to_of
to_of-lt m = ground (arith, and-mask 6 (m / 64))

pub promotion_of-le : (m : ℕ) → promotion_of m ≤ queen
unfolding promotion_of
promotion_of-le m = ground (arith, and-mask 2 (m / 4096))

pub promotion_of-ge : (m : ℕ) → knight ≤ promotion_of m
unfolding promotion_of
promotion_of-ge m = ground (arith, and-mask 2 (m / 4096))

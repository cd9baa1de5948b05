-- ===== src/Chess/Position/Turn.antt =====
-- What surrounds the `switch` of `MakeMove`: the state that it starts from, the castling rights
-- that a move revokes, and the turn that passes.
use native.Mathlib.Omega.{arith}
use novachess.Prelude.{
  ℕ, zero, suc, ◌<◌, bit_and, bit_xor, some, ◌==◌, ◌≡◌, refl, ◌∙◌, sym, ap, inl, inr, Bool-cases,
  ==_iff,
}
use novachess.Prelude.Bits.{and-le_left}
use novachess.Prelude.Xor.{
  xor-zero, zero-xor, xor_self, xor_cancel, xor_swap, xor_assoc, xor_replace,
}
use novachess.Chess.Types.{no_square, opposite}
use novachess.Chess.Move.{from_of, to_of}
use novachess.Chess.Zobrist.{Keys, board_key}
use novachess.Chess.Position.{Position}
use novachess.Chess.Position.Make.{clear_ep, revoke_rights, pass_turn}
use novachess.Chess.Position.Consistent.{IsHashed, ep_key, side_key, compute_key-terms}

-- Without the test: the key loses the term of the en passant square, which is 0 for none.
abbrev pub ep_cleared : Keys → Position → Position
ep_cleared z p = record p { key = bit_xor p.key (ep_key z p.ep_square); ep_square = no_square }

pub clear_ep-eq : (z : Keys) (p : Position) → clear_ep z p ≡ ep_cleared z p
unfolding clear_ep
clear_ep-eq z p = elim (Bool-cases (p.ep_square == no_square)) [
  | inl e ↦
      let was : p.ep_square ≡ no_square = (==_iff _ _).0 e in
      rw (e, xor-zero) (ap (λ s. record p { ep_square = s }) was)
  | inr e ↦ rw e refl
]

-- The rights that are left after a move between two squares.
abbrev pub rights_after : Position → ℕ → ℕ → ℕ
rights_after p from to = bit_and (bit_and p.castling (p.cr_mask from)) (p.cr_mask to)

zero-and : (a : ℕ) → bit_and 0 a ≡ 0
zero-and a = omega (arith, and-le_left 0 0 a)

pub rights_after-lt : (p : Position) (from to : ℕ) → p.castling < 16 → rights_after p from to < 16
rights_after-lt p from to h = omega (
  arith,
  and-le_left 4 p.castling (p.cr_mask from),
  and-le_left 4 (bit_and p.castling (p.cr_mask from)) (p.cr_mask to),
)

-- The key trades the term of the rights before for that of the rights after.
abbrev pub revoked : Keys → Position → ℕ → Position
revoked z p rights = record p {
  key = bit_xor p.key (bit_xor (z.castling p.castling) (z.castling rights));
  castling = rights;
}

revoked-same : (z : Keys) (p : Position) (rights : ℕ) → rights ≡ p.castling → revoked z p rights ≡ p
revoked-same z p rights e = rw (e, xor_self, xor-zero) refl

pub revoke_rights-eq :
    (z : Keys) (p : Position) (m : ℕ)
    → p.castling < 16
    → revoke_rights z p m ≡ some (revoked z p (rights_after p (from_of m) (to_of m)))
unfolding revoke_rights
revoke_rights-eq z p m h = ground (
  arith,
  revoked-same z p (rights_after p (from_of m) (to_of m)),
  zero-and (p.cr_mask (from_of m)),
  zero-and (p.cr_mask (to_of m)),
)

pub revoked-IsHashed :
    (z : Keys) (p : Position) (rights : ℕ) → IsHashed z p → IsHashed z (revoked z p rights)
revoked-IsHashed z p rights h =
    let b = board_key z p.board 64 in
    let c = z.castling p.castling in
    let d = z.castling rights in
    let e = ep_key z p.ep_square in
    let s = side_key z p.side in
    ap (λ k. bit_xor k (bit_xor c d)) (h ∙ compute_key-terms z p)
    ∙ sym (
        compute_key-terms z (revoked z p rights)
        ∙ ap (λ t. bit_xor (bit_xor t e) s) (sym (xor_replace b c d))
        ∙ ap (λ t. bit_xor t s) (xor_swap (bit_xor b c) (bit_xor c d) e)
        ∙ xor_swap (bit_xor (bit_xor b c) e) (bit_xor c d) s)

pub ep_cleared-IsHashed : (z : Keys) (p : Position) → IsHashed z p → IsHashed z (ep_cleared z p)
ep_cleared-IsHashed z p h =
    let placed = bit_xor (board_key z p.board 64) (z.castling p.castling) in
    let e = ep_key z p.ep_square in
    let s = side_key z p.side in
    ap (λ k. bit_xor k e) (h ∙ compute_key-terms z p)
    ∙ xor_swap (bit_xor placed e) s e
    ∙ ap (λ t. bit_xor t s) (xor_cancel placed e ∙ sym (xor-zero placed))
    ∙ sym (compute_key-terms z (ep_cleared z p))

side_key-opposite :
    (z : Keys) (c : ℕ) → c < 2 → bit_xor (side_key z c) z.side ≡ side_key z (opposite c)
unfolding opposite
side_key-opposite z zero h = zero-xor z.side
side_key-opposite z (suc zero) h = xor_self z.side
side_key-opposite z (suc (suc c)) h = absurd (omega arith)

pub pass_turn-IsHashed :
    (z : Keys) (p : Position) → p.side < 2 → IsHashed z p → IsHashed z (pass_turn z p)
unfolding pass_turn
pass_turn-IsHashed z p lt h =
    ap (λ k. bit_xor k z.side) (h ∙ compute_key-terms z p)
    ∙ xor_assoc _ (side_key z p.side) z.side
    ∙ ap (bit_xor _) (side_key-opposite z p.side lt)
    ∙ sym (compute_key-terms z (pass_turn z p))

pub opposite-opposite : (c : ℕ) → opposite (opposite c) ≡ c
unfolding opposite
opposite-opposite c = xor_cancel c 1

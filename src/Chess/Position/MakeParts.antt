-- ===== src/Chess/Position/MakeParts.antt =====
-- The parts that the cases of `MakeMove` share: lifting what is captured, the clock, and the en
-- passant square behind a double push.
use native.Mathlib.Omega.{arith}
use mathlib.Core.Path.{subst₂}
use novachess.Prelude.{
  ℕ, zero, suc, ◌<◌, bit_xor, Bool, true, false, some, ◌==◌, ◌≡◌, refl, ◌∙◌, sym, ap, fun_ext, inl,
  inr, Bool-cases, ==_iff, update, if◌then◌else◌,
}
use novachess.Prelude.Xor.{xor-zero, xor_swap}
use novachess.Chess.Types.{no_square, file_of, no_piece, opposite}
use novachess.Chess.Move.{from_of, to_of}
use novachess.Chess.Move.Fields.{to_of-lt}
use novachess.Chess.Attacks.{Magics}
use novachess.Chess.Zobrist.{Keys}
use novachess.Chess.Position.{Position, move_piece, compute_key}
use novachess.Chess.Position.EnPassant.{behind, ahead, ep_capture_available}
use novachess.Chess.Position.Make.{
  reset_halfmove, lift_captured, record_ep, after_pawn, is_double_push,
}
use novachess.Chess.Position.Consistent.{
  Consistent, IsHashed, Did, compute_key-terms, ep_key, Made, Did-refl, Did-trans, Did-board,
  Made-of-Did, Made-after,
}
use novachess.Chess.Position.Primitives.{Returns, Makes, remove_piece-Returns, move_on}
use novachess.Chess.Position.Available.{
  king_square-lt, ep_capture_available-answers, available-lt, behind-opposite,
}
use novachess.Chess.Position.Playable.{HasEnemyKing}

pub opposite-lt : (us : ℕ) → us < 2 → opposite us < 2
unfolding opposite
opposite-lt zero h = omega arith
opposite-lt (suc zero) h = omega arith
opposite-lt (suc (suc us)) h = absurd (omega arith)

-- Setting the clock changes nothing that the other facts speak of.
pub reset-Did : (z : Keys) (p : Position) → Consistent p → Did z p (reset_halfmove p) p.board
reset-Did z p c = record {
  placed = refl;
  consistent = record { ranged = c.ranged; types = c.types; colors = c.colors };
  kept = refl;
  hashed = unfold compute_key in (λ h. h);
  ep_kept = refl;
}

clock-Did :
    (z : Keys) (p : Position) (quiet : Bool)
    → Consistent p
    → Did z p (if quiet then p else reset_halfmove p) p.board
clock-Did z p true c = Did-refl z p c
clock-Did z p false c = reset-Did z p c

module _ (z : Keys) (p : Position) (c : Consistent p) where
  -- What is captured leaves the board before the mover arrives.
  pub lift_captured-Returns :
      (to : ℕ)
      → to < 64
      → Returns z p (lift_captured z p (p.board to) to) (update p.board to no_piece)
  lift_captured-Returns to h = elim (Bool-cases (p.board to == no_piece)) [
    | inl none_there ↦
        let e : p.board to ≡ no_piece = (==_iff _ _).0 none_there in
        let same : p.board ≡ update p.board to no_piece = fun_ext (λ s. ground arith) in
        (p, unfold lift_captured in rw none_there, Did-board z p p _ _ same (Did-refl z p c))
    | inr captured ↦
        let (q, e, d) = remove_piece-Returns z p c to (ground (arith, c.ranged to)) h in
        (q, unfold lift_captured in rw captured e, d)
  ]

-- The mover goes to an empty square, on a position whose clock is reset after a capture.
pub clock_then_move :
    (z : Keys) (p : Position) (c : Consistent p) (b : ℕ → ℕ) (on : p.board ≡ b) (quiet : Bool)
    (from to : ℕ)
    → b from < 12
    → b to ≡ no_piece
    → from < 64
    → to < 64
    → Returns z p
        (move_piece z (if quiet then p else reset_halfmove p) from to)
        (update (update b from no_piece) to (b from))
clock_then_move z p c b on true from to real empty h l = move_on z p c b on from to real empty h l
clock_then_move z p c b on false from to real empty h l =
    let d = reset-Did z p c in
    let (q, e, d') = move_on z (reset_halfmove p) d.consistent b on from to real empty h l in
    (q, e, Did-trans z p _ q _ _ d d')

ep_term : (a e s : ℕ) → bit_xor (bit_xor a e) s ≡ bit_xor (bit_xor (bit_xor a 0) s) e
ep_term a e s = rw xor-zero (xor_swap a e s)

-- Recording an en passant square where there was none folds its file into the key.
IsHashed-ep :
    (z : Keys) (p q : Position) (sq : ℕ)
    → q.key ≡ bit_xor p.key (z.ep_file (file_of sq))
    → q.board ≡ p.board
    → q.castling ≡ p.castling
    → q.ep_square ≡ sq
    → q.side ≡ p.side
    → p.ep_square ≡ no_square
    → sq < 64
    → IsHashed z p
    → IsHashed z q
IsHashed-ep z p q sq key board castling ep side was h hashed =
    let there : ep_key z q.ep_square ≡ z.ep_file (file_of sq) = rw ep (ground arith) in
    let before : ep_key z p.ep_square ≡ 0 = rw was refl in
    key
    ∙ ap (λ t. bit_xor t (z.ep_file (file_of sq))) (hashed ∙ compute_key-terms z p)
    ∙ sym (compute_key-terms z q ∙ rw (there, before, board, castling, side) (ep_term _ _ _))

module _ (z : Keys) (g : Magics) (p : Position) (m : ℕ) (c : Consistent p) where
  record_ep_result :
      (sq : ℕ) (a : Bool)
      → ep_capture_available g p sq (opposite p.side) ≡ some a
      → p.ep_square ≡ no_square
      → Made z p
          (if a
            then record p { ep_square = sq; key = bit_xor p.key (z.ep_file (file_of sq)) }
            else p)
          p.board
  record_ep_result sq false e was = Made-of-Did z p p p.board (Did-refl z p c)
  record_ep_result sq true e was = record {
    placed = refl;
    consistent = record { ranged = c.ranged; types = c.types; colors = c.colors };
    kept = refl;
    hashed =
        IsHashed-ep z p _ sq refl refl refl refl refl was (available-lt g p sq (opposite p.side) e);
  }

  record_ep-Makes :
      p.side < 2
      → p.ep_square ≡ no_square
      → HasEnemyKing p.board p.side
      → ahead (ahead (from_of m) p.side) p.side ≡ to_of m
      → Makes z p (record_ep z g p m) p.board
  record_ep-Makes us was (k, h, e) forward =
      let sq = ahead (from_of m) p.side in
      let found = king_square-lt p (opposite p.side) k c (opposite-lt p.side us) h e in
      let beside : behind sq (opposite p.side) < 64 =
        rw (behind-opposite sq p.side us, forward) (to_of-lt m) in
      let (a, answer) = ep_capture_available-answers g p sq (opposite p.side) found (inr beside) in
      let q : Position =
        if a
        then record p { ep_square = sq; key = bit_xor p.key (z.ep_file (file_of sq)) }
        else p in
      (q, unfold record_ep in rw answer refl, record_ep_result sq a answer was)

module _ (z : Keys) (g : Magics) (p : Position) (m : ℕ) (c : Consistent p) (us : p.side < 2) where
  pub after_pawn-Makes :
      p.ep_square ≡ no_square
      → HasEnemyKing p.board p.side
      → (is_double_push m ≡ true → ahead (ahead (from_of m) p.side) p.side ≡ to_of m)
      → Makes z p (after_pawn z g p m) p.board
  after_pawn-Makes was their_king forward =
      let d = reset-Did z p c in
      elim (Bool-cases (is_double_push m)) [
        | inl double ↦
            let (q, e, made) =
              record_ep-Makes z g (reset_halfmove p) m d.consistent us was their_king
                (forward double) in
            (q, unfold after_pawn in rw double e, Made-after z p (reset_halfmove p) q _ _ d made)
        | inr single ↦
            (reset_halfmove p, unfold after_pawn in rw single refl, Made-of-Did z p _ _ d)
      ]

-- The same on a board and for a side that the position's are known to be.
pub after_pawn_on :
    (z : Keys) (g : Magics) (p : Position) (m : ℕ) (c : Consistent p) (b : ℕ → ℕ) (on : p.board ≡ b)
    (us : ℕ) (side : p.side ≡ us)
    → us < 2
    → p.ep_square ≡ no_square
    → HasEnemyKing b us
    → (is_double_push m ≡ true → ahead (ahead (from_of m) us) us ≡ to_of m)
    → Makes z p (after_pawn z g p m) b
after_pawn_on z g p m c b on us side =
    subst₂
      (λ b us.
        us < 2
        → p.ep_square ≡ no_square
        → HasEnemyKing b us
        → (is_double_push m ≡ true → ahead (ahead (from_of m) us) us ≡ to_of m)
        → Makes z p (after_pawn z g p m) b)
      on side (after_pawn-Makes z g p m c)

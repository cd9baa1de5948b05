-- ===== src/Chess/Position/MakeMove.antt =====
-- What `MakeMove` does to a valid position.
use novachess.Prelude.{ℕ, ◌<◌, bit_and, some, List, ◌∷◌, ◌==◌, ◌≡◌, refl, ap, if◌then◌else◌, ◌>>=◌}
use novachess.Prelude.Int.{pos, ◌+ℤ◌}
use novachess.Chess.Types.{black, opposite}
use novachess.Chess.Move.{from_of, to_of}
use novachess.Chess.Attacks.{Magics}
use novachess.Chess.Zobrist.{Keys}
use novachess.Chess.Position.{Position, Undo, compute_key}
use novachess.Chess.Position.Make.{
  captured_by, undo_entry, begin_move, revoke_rights, pass_turn, make_move,
}
use novachess.Chess.Position.Consistent.{Consistent, IsHashed, Frame, frame, Made}
use novachess.Chess.Position.Playable.{Playable, board_after, HasEnemyKing}
use novachess.Chess.Position.MakeParts.{opposite-lt}
use novachess.Chess.Position.MakeReturns.{make_by_kind-Makes}
use novachess.Chess.Position.Turn.{
  ep_cleared, clear_ep-eq, ep_cleared-IsHashed, rights_after, rights_after-lt, revoked,
  revoke_rights-eq, revoked-IsHashed, pass_turn-IsHashed,
}

-- The views agree, the key is right, and the side and the rights are among the ones there are.
pub record Valid (z : Keys) (p : Position) : Type 0 where
  pub consistent : Consistent p
  pub hashed : IsHashed z p
  pub side : p.side < 2
  pub castling : p.castling < 16

-- The part of the state outside the board that a move leads to.
abbrev pub frame_after : Position → ℕ → List Undo → Frame
frame_after p rights history = record {
  side = opposite p.side;
  castling = rights;
  fullmove = if p.side == black then p.fullmove +ℤ pos 1 else p.fullmove;
  chess960 = p.chess960;
  castling_rook = p.castling_rook;
  castling_path = p.castling_path;
  cr_mask = p.cr_mask;
  history = history;
}

-- `q` is what `MakeMove` makes of `p`, over that board.
pub record Moved (z : Keys) (p q : Position) (m : ℕ) (board : ℕ → ℕ) : Type 0 where
  pub valid : Valid z q
  pub placed : q.board ≡ board
  pub rest :
      frame q
      ≡ frame_after p
          (rights_after p (from_of m) (to_of m))
          (undo_entry p m (captured_by p m) ∷ p.history)

-- The state that the `switch` starts from, without the test on the en passant square.
abbrev pub begun : Keys → Position → ℕ → Position
begun z p m = record (ep_cleared z p) {
  history = undo_entry p m (captured_by p m) ∷ p.history;
  halfmove = p.halfmove +ℤ pos 1;
}

begin_move-eq : (z : Keys) (p : Position) (m : ℕ) → begin_move z p m ≡ begun z p m
unfolding begin_move
begin_move-eq z p m =
    ap {A = Position} (λ q. record q { halfmove = q.halfmove +ℤ pos 1 })
      (clear_ep-eq z (record p { history = undo_entry p m (captured_by p m) ∷ p.history }))

module _ (z : Keys) (p : Position) (v : Valid z p) (m : ℕ) where
  begun-IsHashed : IsHashed z (begun z p m)
  begun-IsHashed = unfold compute_key in ep_cleared-IsHashed z p v.hashed

  begun-Consistent : Consistent (begun z p m)
  begun-Consistent =
      let c = v.consistent in record { ranged = c.ranged; types = c.types; colors = c.colors }

  -- The end of the function, on what the `switch` leaves.
  finish :
      (q : Position) (b : ℕ → ℕ)
      → Made z (begun z p m) q b
      → (r : Position) × ((revoke_rights z q m >>= λ r. some (pass_turn z r)) ≡ some r)
        × Moved z p r m b
  unfolding pass_turn
  finish q b d =
      let side : q.side ≡ p.side = ap (λ f. f.side) d.kept in
      let castling : q.castling ≡ p.castling = ap (λ f. f.castling) d.kept in
      let mask : q.cr_mask ≡ p.cr_mask = ap (λ f. f.cr_mask) d.kept in
      let few : q.castling < 16 = rw castling v.castling in
      let two : q.side < 2 = rw side v.side in
      let rights = rights_after q (from_of m) (to_of m) in
      let r = revoked z q rights in
      let c = d.consistent in
      (
        pass_turn z r,
        rw (revoke_rights-eq z q m few) refl,
        record {
          valid = record {
            consistent = record { ranged = c.ranged; types = c.types; colors = c.colors };
            hashed =
                pass_turn-IsHashed z r two (revoked-IsHashed z q rights (d.hashed begun-IsHashed));
            side = opposite-lt q.side two;
            castling = rights_after-lt q (from_of m) (to_of m) few;
          };
          placed = d.placed;
          rest =
              ap
                (λ (f : Frame).
                  frame_after
                    (record p {
                      side = f.side;
                      fullmove = f.fullmove;
                      chess960 = f.chess960;
                      castling_rook = f.castling_rook;
                      castling_path = f.castling_path;
                      cr_mask = f.cr_mask;
                    })
                    (bit_and (bit_and f.castling (f.cr_mask (from_of m))) (f.cr_mask (to_of m)))
                    f.history)
                d.kept;
        },
      )

  pub make_move-Moved :
      (g : Magics) (plays : Playable p m)
      → HasEnemyKing p.board p.side
      → (q : Position) × (make_move z g p m ≡ some q) × Moved z p q m (board_after plays)
  unfolding make_move
  make_move-Moved g plays their_king =
      let (q, e, d) =
        make_by_kind-Makes z g (begun z p m) m begun-Consistent v.side (captured_by p m) plays
          (unfold captured_by in refl) refl their_king in
      let (r, e', d') = finish q (board_after plays) d in (r, rw (begin_move-eq, e) e', d')

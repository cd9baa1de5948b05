-- ===== src/Chess/Position/RoundTrip.antt =====
-- Taking back: `UnmakeMove` after `MakeMove` is the position from before the move, every field of it.
use native.Mathlib.Omega.{arith}
use novachess.Prelude.{ℕ, some, ◌∷◌, ◌==◌, ◌≡◌, refl, ◌∙◌, ap, subst, if◌then◌else◌, ◌>>=◌}
use novachess.Prelude.Int.{ℤ, pos, ◌+ℤ◌, ◌-ℤ◌, +ℤ_cancel}
use novachess.Chess.Types.{black, opposite, type_of, color_of}
use novachess.Chess.Move.{from_of, to_of}
use novachess.Chess.Attacks.{Magics}
use novachess.Chess.Zobrist.{Keys}
use novachess.Chess.Position.{Position}
use novachess.Chess.Position.Make.{captured_by, undo_entry, make_move}
use novachess.Chess.Position.Unmake.{restore, step_back, undo_last, unmake_move}
use novachess.Chess.Position.Consistent.{Consistent, Frame, frame}
use novachess.Chess.Position.Consistent.Indexed.{Indexes, Indexes-unique}
use novachess.Chess.Position.Playable.{Playable, board_after, HasEnemyKing}
use novachess.Chess.Position.Turn.{rights_after, opposite-opposite}
use novachess.Chess.Position.UnmakeParts.{unmake_by_kind-Returns}
use novachess.Chess.Position.MakeMove.{Valid, Moved, frame_after, make_move-Moved}

-- Two families that index equal boards are the same.
same_index : (class b b' x y : ℕ → ℕ) → b ≡ b' → Indexes class b x → Indexes class b' y → x ≡ y
same_index class b b' x y e i j = Indexes-unique class b' x y (subst (λ b. Indexes class b x) e i) j

-- The move number that Black's move raises comes back.
number_back :
    (c : ℕ) (n : ℤ)
    → (if c == black
        then (if c == black then n +ℤ pos 1 else n) -ℤ pos 1
        else (if c == black then n +ℤ pos 1 else n))
      ≡ n
number_back c n = ground (arith, +ℤ_cancel n (pos 1))

module _ (z : Keys) (p r : Position) (m rights captured : ℕ) where
  -- What the `switch` leaves is the position but for the fields that are saved in the entry.
  pub restored :
      Consistent p
      → Consistent r
      → r.board ≡ p.board
      → frame r ≡ record (frame_after p rights p.history) { side = p.side }
      → restore r (undo_entry p m captured) ≡ p
  unfolding restore
  restored c d board rest =
      let types = same_index type_of r.board p.board r.by_type p.by_type board d.types c.types in
      let colors =
        same_index color_of r.board p.board r.by_color p.by_color board d.colors c.colors in
      let side : r.side ≡ p.side = ap (λ f. f.side) rest in
      let fullmove = ap (λ f. f.fullmove) rest in
      let number : (if r.side == black then r.fullmove -ℤ pos 1 else r.fullmove) ≡ p.fullmove =
        rw (side, fullmove) (number_back p.side p.fullmove) in
      let chess960 : r.chess960 ≡ p.chess960 = ap (λ f. f.chess960) rest in
      let rooks : r.castling_rook ≡ p.castling_rook = ap (λ f. f.castling_rook) rest in
      let path : r.castling_path ≡ p.castling_path = ap (λ f. f.castling_path) rest in
      let mask : r.cr_mask ≡ p.cr_mask = ap (λ f. f.cr_mask) rest in
      let history : r.history ≡ p.history = ap (λ f. f.history) rest in
      rw (types, colors, board, number, side, chess960, rooks, path, mask, history) refl

-- Taking a move back from any position that it leads to.
unmake_move_lem :
    (z : Keys) (p q : Position) (m : ℕ) (plays : Playable p m)
    → Valid z p
    → Moved z p q m (board_after plays)
    → unmake_move z q ≡ some p
unfolding unmake_move undo_last step_back
unmake_move_lem z p q m plays v d =
    let captured = captured_by p m in
    let entry = undo_entry p m captured in
    let rights = rights_after p (from_of m) (to_of m) in
    let history : q.history ≡ entry ∷ p.history = ap (λ f. f.history) d.rest in
    let back = step_back q p.history in
    let c = d.valid.consistent in
    let side : back.side ≡ p.side = ap (λ f. opposite f.side) d.rest ∙ opposite-opposite p.side in
    let (r, e, done) =
      unmake_by_kind-Returns z p back m plays v.consistent
        (record { ranged = c.ranged; types = c.types; colors = c.colors }) v.side side d.placed in
    let outside : frame back ≡ record (frame_after p rights p.history) { side = p.side } =
      ap (λ (f : Frame). record f { history = p.history; side = opposite f.side }) d.rest
      ∙ ap (λ s. record (frame_after p rights p.history) { side = s }) (opposite-opposite p.side) in
    rw (history, e)
      (ap some (
        restored z p r m rights captured v.consistent done.consistent done.placed
          (done.kept ∙ outside)))

-- On a valid position, `MakeMove` of a playable move with the enemy king on the board returns, and
-- `UnmakeMove` on what it returned gives back the position from before the move, with every field
-- of it: the mailbox, the bitboards, the key, the rights, the clocks and the history.
pub unmake_move-make_move :
    (z : Keys) (g : Magics) (p : Position) (m : ℕ) (plays : Playable p m)
    → Valid z p
    → HasEnemyKing p.board p.side
    → (make_move z g p m >>= unmake_move z) ≡ some p
unmake_move-make_move z g p m plays v their_king =
    let (q, e, d) = make_move-Moved z p v m g plays their_king in
    rw e (unmake_move_lem z p q m plays v d)

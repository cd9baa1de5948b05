-- ===== src/Chess/Position/Line.antt =====
-- Whole lines of moves, as the search makes them and takes them back.
use novachess.Prelude.{
  ℕ, bit_and, Bool, true, ◌&&◌, Option, some, List, [], ◌∷◌, ◌≡◌, refl, ◌∙◌, ap, subst, ◌>>=◌,
}
use native.Mathlib.Omega.{arith}
use novachess.Prelude.Bits.{test_bit, test_bit-and}
use novachess.Chess.Move.{from_of, to_of}
use novachess.Chess.Attacks.{Magics}
use novachess.Chess.Zobrist.{Keys}
use novachess.Chess.Position.{Position}
use novachess.Chess.Position.Make.{make_move, make_null_move}
use novachess.Chess.Position.Unmake.{unmake_move, unmake_null_move}
use novachess.Chess.Position.Consistent.{Frame}
use novachess.Chess.Position.Playable.{Playable, HasEnemyKing}
use novachess.Chess.Position.MakeMove.{Valid}
use novachess.Chess.Position.NullMove.{
  make_null_move-castling, make_null_move-cr_mask, make_null_move-Valid,
  unmake_null_move-make_null_move,
}
use novachess.Chess.Position.MakeMove.{Moved, make_move-Moved}
use novachess.Chess.Position.RoundTrip.{unmake_move-make_move}

-- A step of the search.
pub data Step : Type 0 where
  move : ℕ → Step
  null_move : Step

unfoldable pub make_step : Keys → Magics → Position → Step → Option Position
make_step z g p (move m) = make_move z g p m
make_step z g p null_move = some (make_null_move z p)

unfoldable pub unmake_step : Keys → Position → Step → Option Position
unmake_step z p (move m) = unmake_move z p
unmake_step z p null_move = unmake_null_move p

unfoldable pub make_line : Keys → Magics → Position → List Step → Option Position
make_line z g p [] = some p
make_line z g p (s ∷ line) = make_step z g p s >>= λ q. make_line z g q line

-- The steps are taken back in the opposite order.
unfoldable pub unmake_line : Keys → Position → List Step → Option Position
unmake_line z p [] = some p
unmake_line z p (s ∷ line) = unmake_line z p line >>= λ q. unmake_step z q s

-- A line each of whose moves can be played where it comes up, with the king of the other side on
-- the board.
pub data PlayableLine (z : Keys) (g : Magics) : Position → List Step → Type 0 where
  done : (p : Position) → PlayableLine z g p []
  by_move :
      (p : Position) (m : ℕ) (line : List Step)
      → Playable p m
      → HasEnemyKing p.board p.side
      → ((q : Position) → make_move z g p m ≡ some q → PlayableLine z g q line)
      → PlayableLine z g p (move m ∷ line)
  by_null :
      (p : Position) (line : List Step)
      → PlayableLine z g (make_null_move z p) line
      → PlayableLine z g p (null_move ∷ line)

-- A line of null moves and moves that are playable where they come up, with the enemy king on the
-- board, from a valid position: every MakeMove of it returns, the last position is valid, and taking
-- all of them back in the opposite order gives the first position again.
pub unmake_line-make_line :
    (z : Keys) (g : Magics) (p : Position) (line : List Step)
    → Valid z p
    → PlayableLine z g p line
    → (q : Position) × (make_line z g p line ≡ some q) × Valid z q × (unmake_line z q line ≡ some p)
unfolding make_line unmake_line make_step unmake_step
unmake_line-make_line z g p [] v (done _) = (p, refl, v, refl)
unmake_line-make_line z g p (move m ∷ line) v (by_move _ _ _ plays their_king rest) =
    let (q, e, d) = make_move-Moved z p v m g plays their_king in
    let (r, made, w, unmade) = unmake_line-make_line z g q line d.valid (rest q e) in
    let back = unmake_move-make_move z g p m plays v their_king in
    (
      r,
      ap (λ o. o >>= λ q. make_line z g q line) e ∙ made,
      w,
      rw unmade (subst (λ o. (o >>= unmake_move z) ≡ some p) e back),
    )
unmake_line-make_line z g p (null_move ∷ line) v (by_null _ _ rest) =
    let (r, made, w, unmade) =
      unmake_line-make_line z g (make_null_move z p) line (make_null_move-Valid z p v) rest in
    (r, made, w, rw unmade (unmake_null_move-make_null_move z p v))

-- Whether no move of a line starts or ends on a square whose mask takes the right away.
abbrev pub leaves_right : (ℕ → ℕ) → ℕ → List Step → Bool
leaves_right mask k [] = true
leaves_right mask k (move m ∷ line) =
    test_bit (mask (from_of m)) k && test_bit (mask (to_of m)) k && leaves_right mask k line
leaves_right mask k (null_move ∷ line) = leaves_right mask k line

-- The right with the bit `k` after a line, from what it was and the masks of the squares.
abbrev pub HoldsRight : Position → Position → List Step → ℕ → Type 0
HoldsRight p q line k =
    test_bit q.castling k ≡ (test_bit p.castling k && leaves_right p.cr_mask k line)

right_after :
    (z : Keys) (p q : Position) (m k : ℕ) (board : ℕ → ℕ)
    → Moved z p q m board
    → test_bit q.castling k ≡ (
        test_bit p.castling k
        && test_bit (p.cr_mask (from_of m)) k
        && test_bit (p.cr_mask (to_of m)) k)
right_after z p q m k board d =
    let kept = bit_and p.castling (p.cr_mask (from_of m)) in
    ap (λ (f : Frame). test_bit f.castling k) d.rest
    ∙ test_bit-and k kept (p.cr_mask (to_of m))
    ∙ ground (arith, test_bit-and k p.castling (p.cr_mask (from_of m)))

-- A line of null moves and moves that are playable where they come up, with the enemy king on the
-- board, from a valid position: every MakeMove of it returns, and a castling right is held at the end
-- exactly when it was held at the start and no move of the line started or ended on a square whose
-- mask takes it away.
pub make_line-HoldsRight :
    (z : Keys) (g : Magics) (p : Position) (line : List Step) (k : ℕ)
    → Valid z p
    → PlayableLine z g p line
    → (q : Position) × (make_line z g p line ≡ some q) × HoldsRight p q line k
unfolding make_line make_step
make_line-HoldsRight z g p [] k v (done _) = (p, refl, ground arith)
make_line-HoldsRight z g p (move m ∷ line) k v (by_move _ _ _ plays their_king rest) =
    let (q, e, d) = make_move-Moved z p v m g plays their_king in
    let (r, made, holds) = make_line-HoldsRight z g q line k d.valid (rest q e) in
    let masks : q.cr_mask ≡ p.cr_mask = ap (λ (f : Frame). f.cr_mask) d.rest in
    let onward =
      subst (λ mask. test_bit r.castling k ≡ (test_bit q.castling k && leaves_right mask k line))
        masks holds in
    (
      r,
      ap (λ o. o >>= λ q. make_line z g q line) e ∙ made,
      ground (arith, onward, right_after z p q m k _ d),
    )
make_line-HoldsRight z g p (null_move ∷ line) k v (by_null _ _ rest) =
    let (r, made, holds) =
      make_line-HoldsRight z g (make_null_move z p) line k (make_null_move-Valid z p v) rest in
    let rights = make_null_move-castling z p in
    let masks = make_null_move-cr_mask z p in (r, made, holds ∙ rw (rights, masks) refl)

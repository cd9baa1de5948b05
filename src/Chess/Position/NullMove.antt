-- ===== src/Chess/Position/NullMove.antt =====
-- The null move of internal/chess/position.go: the turn passes with nothing moved.
use native.Mathlib.Omega.{arith}
use novachess.Prelude.{none, some, List, [], ◌∷◌, ◌≡◌, ◌≢◌, ◌↔◌, ◌⊎◌, refl, ap, inl, inr}
use novachess.Prelude.Int.{pos}
use novachess.Chess.Types.{no_piece}
use novachess.Chess.Move.{move_none, is_none}
use novachess.Chess.Zobrist.{Keys}
use novachess.Chess.Position.{Position, Undo, compute_key}
use novachess.Chess.Position.Make.{reset_halfmove, undo_entry, pass_turn, make_null_move}
use novachess.Chess.Position.Unmake.{step_back, undo_null, unmake_null_move}
use novachess.Chess.Position.Consistent.{frame}
use novachess.Chess.Position.MakeParts.{opposite-lt}
use novachess.Chess.Position.Turn.{
  ep_cleared, clear_ep-eq, ep_cleared-IsHashed, pass_turn-IsHashed, opposite-opposite,
}
use novachess.Chess.Position.MakeMove.{Valid}
use novachess.Chess.Position.RoundTrip.{restored}

-- The null move without its tests.
abbrev pub null_entry : Keys → Position → Position
null_entry z p = record (ep_cleared z p) {
  history = undo_entry p move_none no_piece ∷ p.history;
  halfmove = pos 0;
}

pub make_null_move-eq :
    (z : Keys) (p : Position) → make_null_move z p ≡ pass_turn z (null_entry z p)
unfolding make_null_move
make_null_move-eq z p =
    ap (λ q. pass_turn z (reset_halfmove q))
      (clear_ep-eq z (record p { history = undo_entry p move_none no_piece ∷ p.history }))

pub make_null_move-castling : (z : Keys) (p : Position) → (make_null_move z p).castling ≡ p.castling
unfolding pass_turn
make_null_move-castling z p = rw make_null_move-eq refl

pub make_null_move-cr_mask : (z : Keys) (p : Position) → (make_null_move z p).cr_mask ≡ p.cr_mask
unfolding pass_turn
make_null_move-cr_mask z p = rw make_null_move-eq refl

-- The null move of a valid position is valid: its key is again the one computed from scratch.
pub make_null_move-Valid : (z : Keys) (p : Position) → Valid z p → Valid z (make_null_move z p)
unfolding pass_turn
make_null_move-Valid z p v =
    let q = null_entry z p in
    let c = v.consistent in
    rw make_null_move-eq (record {
      consistent = record { ranged = c.ranged; types = c.types; colors = c.colors };
      hashed =
          pass_turn-IsHashed z q v.side (unfold compute_key in ep_cleared-IsHashed z p v.hashed);
      side = opposite-lt p.side v.side;
      castling = v.castling;
    })

-- `UnmakeNullMove` after `MakeNullMove` gives back a valid position, with every field of it.
pub unmake_null_move-make_null_move :
    (z : Keys) (p : Position) → Valid z p → unmake_null_move (make_null_move z p) ≡ some p
unfolding unmake_null_move undo_null step_back is_none pass_turn
unmake_null_move-make_null_move z p v =
    let back = step_back (pass_turn z (null_entry z p)) p.history in
    let c = v.consistent in
    let kept : frame back ≡ _ =
      ap (λ s. record (frame back) { side = s }) (opposite-opposite p.side) in
    rw make_null_move-eq (
      ap some (
        restored z p back move_none p.castling no_piece c
          (record { ranged = c.ranged; types = c.types; colors = c.colors }) refl kept))

null_panics :
    (p : Position) (history : List Undo)
    → (undo_null p history ≡ none) ↔ (
        (history ≡ [])
        ⊎ ((u : Undo) × (rest : List Undo) × (history ≡ u ∷ rest) × (u.move ≢ move_none)))
unfolding undo_null is_none
null_panics p [] = ((λ e. inl refl), (λ e. refl))
null_panics p (u ∷ rest) = ((λ e. inr (u, rest, refl, ground arith)), (λ e. ground arith))

-- `UnmakeNullMove` panics exactly when there is no move to undo or the last one was a real move.
pub unmake_null_move_panics :
    (p : Position)
    → (unmake_null_move p ≡ none) ↔ (
        (p.history ≡ [])
        ⊎ ((u : Undo) × (rest : List Undo) × (p.history ≡ u ∷ rest) × (u.move ≢ move_none)))
unfolding unmake_null_move
unmake_null_move_panics p = null_panics p p.history

-- ===== src/Chess/Rules/Outcome.antt =====
-- `Outcome` of internal/chess/rules.go.
use native.Mathlib.Omega.{arith}
use novachess.Prelude.{
  ℕ, false, Option, some, List, [], ◌∷◌, ◌==◌, ◌≡◌, ◌↔◌, ◌≢◌, refl, if◌then◌else◌, ◌>>=◌,
}
use novachess.Chess.Types.{white}
use novachess.Chess.Attacks.{Magics}
use novachess.Chess.Position.{Position}
use novachess.Chess.Movegen.{generate_legal_moves}
use novachess.Chess.Movegen.Attackers.{in_check}
use novachess.Chess.Rules.{
  is_insufficient_material, is_blocked_dead_position, is_threefold_repetition, is_fifty_move_rule,
  is_dead_position, is_draw,
}

pub data Outcome : Type 0 where
  ongoing : Outcome
  white_wins : Outcome
  black_wins : Outcome
  draw : Outcome

pub data TerminationReason : Type 0 where
  not_terminated : TerminationReason
  checkmate : TerminationReason
  stalemate : TerminationReason
  fifty_move_rule : TerminationReason
  threefold_repetition : TerminationReason
  insufficient_material : TerminationReason
  dead_position : TerminationReason

-- Without a legal move the game is over by mate or stalemate.
unfoldable pub no_moves_outcome : Magics → Position → Option (Outcome × TerminationReason)
no_moves_outcome g p = in_check g p >>= λ check. some (
    if check
    then (if p.side == white then (black_wins, checkmate) else (white_wins, checkmate))
    else (draw, stalemate))

unfoldable pub drawn_outcome : Position → Option (Outcome × TerminationReason)
drawn_outcome p =
    if is_insufficient_material p
    then some (draw, insufficient_material)
    else (is_blocked_dead_position p >>= λ blocked. some (
        if blocked
        then (draw, dead_position)
        else if is_threefold_repetition p
        then (draw, threefold_repetition)
        else if is_fifty_move_rule p
        then (draw, fifty_move_rule)
        else (ongoing, not_terminated)))

unfoldable pub outcome_with : Magics → Position → List ℕ → Option (Outcome × TerminationReason)
unfolding no_moves_outcome drawn_outcome
outcome_with g p [] = no_moves_outcome g p
outcome_with g p (m ∷ ms) = drawn_outcome p

unfoldable pub outcome : Magics → Position → Option (Outcome × TerminationReason)
unfolding outcome_with
outcome g p = generate_legal_moves g p >>= outcome_with g p

drawn_iff :
    (p : Position) → (drawn_outcome p ≡ some (ongoing, not_terminated)) ↔ (is_draw p ≡ some false)
unfolding drawn_outcome is_draw is_dead_position
drawn_iff p = ((λ e. ground arith), (λ e. ground arith))

no_moves-ne-ongoing :
    (g : Magics) (p : Position) → no_moves_outcome g p ≢ some (ongoing, not_terminated)
unfolding no_moves_outcome
no_moves-ne-ongoing g p = λ e. ground arith

-- With the legal moves known: `Outcome` says that the game goes on exactly when there is a legal
-- move and `IsDraw` answers no. (Both may panic, and then neither answers.)
pub outcome-ongoing :
    (g : Magics) (p : Position) (moves : List ℕ)
    → generate_legal_moves g p ≡ some moves
    → (outcome g p ≡ some (ongoing, not_terminated)) ↔ ((moves ≢ []) × (is_draw p ≡ some false))
unfolding outcome outcome_with
outcome-ongoing g p [] e =
    rw e ((λ o. absurd (no_moves-ne-ongoing g p o)), (λ (n, _). absurd (n refl)))
outcome-ongoing g p (m ∷ ms) e =
    let (to_draw, from_draw) = drawn_iff p in
    rw e ((λ o. ((λ n. cc), to_draw o)), (λ (_, d). from_draw d))

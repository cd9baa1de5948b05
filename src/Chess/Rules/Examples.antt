-- ===== src/Chess/Rules/Examples.antt =====
-- Concrete boards that the theorems of the rules are applied to.
use native.Mathlib.Omega.{arith}
use novachess.Prelude.{ℕ, [], ◌∷◌, true, false, ◌≡◌, ◌↔◌, refl}
use novachess.Prelude.Int.{pos}
use novachess.Chess.Types.{no_square, no_piece}
use novachess.Chess.Bitboard.{has, shl}
use novachess.Chess.Move.{move_none}
use novachess.Chess.Position.{Position, Undo}
use novachess.Chess.Position.Make.{make_null_move, undo_entry}
use novachess.Chess.Position.Examples.{endgame, keys, unhashed-Consistent, unhashed}
use novachess.Chess.Rules.{grow, king_reachable_squares, repetition_count, is_insufficient_material}
use novachess.Chess.Rules.Walk.{Walk, king_reachable_squares-Walk}
use novachess.Chess.Rules.Repetition.{
  occurrences, repetition_count-occurrences, repetition_count-null_move,
}
use novachess.Chess.Rules.Material.{material_is_short, is_insufficient_material-mailbox}

-- A wall along the second rank.
abbrev second_rank : ℕ
second_rank = 0xff00

e1_free : has second_rank 4 ≡ false
unfolding has shl
e1_free = refl

king_reachable_squares-Walk_example :
    (grow (king_reachable_squares 4 second_rank) second_rank ≡ king_reachable_squares 4 second_rank)
    × ((has (king_reachable_squares 4 second_rank) 7 ≡ true) ↔ Walk second_rank 4 7)
king_reachable_squares-Walk_example =
    king_reachable_squares-Walk second_rank 4 7 (omega arith) (omega arith) e1_free

abbrev entry : ℕ → Undo
entry key = record (undo_entry endgame move_none no_piece) { key = key }

-- The position stood four plies back, within the clock, and ten plies back, beyond it.
abbrev shuffled : Position
shuffled = record endgame {
  key = 7;
  halfmove = pos 5;
  history =
      entry 1
      ∷ entry 2
      ∷ entry 7
      ∷ entry 7
      ∷ entry 1
      ∷ entry 2
      ∷ entry 1
      ∷ entry 2
      ∷ entry 1
      ∷ entry 7
      ∷ [];
}

repetition_count-occurrences_example :
    repetition_count shuffled ≡ occurrences 7 (pos 5) 1 shuffled.history
repetition_count-occurrences_example = repetition_count-occurrences shuffled

repetition_count-null_move_example : repetition_count (make_null_move keys endgame) ≡ 0
repetition_count-null_move_example = repetition_count-null_move keys endgame

is_insufficient_material-mailbox_example :
    is_insufficient_material (unhashed no_square) ≡ material_is_short (unhashed no_square).board
is_insufficient_material-mailbox_example =
    is_insufficient_material-mailbox (unhashed no_square) (unhashed-Consistent no_square)

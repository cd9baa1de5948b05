-- ===== src/Chess/Notation/Examples.antt =====
-- The double push of a pawn, written and read.
use novachess.Prelude.{ℕ, true, false, some, List, [], ◌∷◌, ◌≡◌, refl}
use novachess.Chess.Types.{file_of, rank_of, square_string}
use novachess.Chess.Move.{kind_of, from_of, to_of, is_none}
use novachess.Chess.Position.Examples.{magics}
use novachess.Chess.Rules.OutcomeExamples.{no_rights, six_moves, no_rights_moves}
use novachess.Chess.Notation.{move_to_uci, parse_uci_move}
use novachess.Chess.Notation.Written.{destination, promotes_to}
use novachess.Chess.Notation.Uci.{among, parse_uci_move-move_to_uci}

-- "e2e4".
abbrev e2e4 : List ℕ
e2e4 = b'e' ∷ b'2' ∷ b'e' ∷ b'4' ∷ []

is_move : is_none 1804 ≡ false
unfolding is_none
is_move = refl

e2e4_written : move_to_uci no_rights 1804 ≡ some e2e4
unfolding move_to_uci kind_of from_of to_of is_none square_string file_of rank_of
e2e4_written = refl

parse_uci_move-move_to_uci_example :
    (n : ℕ) × (parse_uci_move magics no_rights e2e4 ≡ some (some n))
    × (among n six_moves ≡ true)
    × (from_of n ≡ from_of 1804)
    × (destination no_rights n ≡ destination no_rights 1804)
    × (promotes_to n ≡ promotes_to 1804)
    × (move_to_uci no_rights n ≡ some e2e4)
parse_uci_move-move_to_uci_example =
    parse_uci_move-move_to_uci magics no_rights six_moves 1804 e2e4 no_rights_moves refl is_move
      e2e4_written

-- ===== src/Gate/Games.antt =====
-- A match of one pair of games, computed.
use novachess.Prelude.{ℕ, ◌+◌, Bool, false, [], ◌∷◌, ◌≡◌, refl, ◌==◌, if◌then◌else◌}
use novachess.Prelude.Int.{ℤ, pos}
use novachess.Prelude.Text.{Text, codes}
use novachess.Chess.Types.{white, opposite, make_piece, color_of, type_of, has_right}
use novachess.Chess.Position.{Position, occupied, move_piece}
use novachess.Chess.Position.Examples.{keys, magics}
use novachess.Chess.Fen.{reads, parse_fen}
use novachess.Gate.Match.{MatchConfig, drawn, PairResult, Found, play_game, play_pair}
use novachess.Chess.Move.{new_move, from_of, to_of, kind_of, is_none}
use novachess.Chess.Bitboard.{and_not, more_than_one, pop_first, squares}
use novachess.Chess.Attacks.{line, attacks_from}
use novachess.Chess.Castling.{right_at}
use novachess.Chess.Position.EnPassant.{behind, ahead, ep_capture_available}
use novachess.Chess.Position.Make.{
  captured_by, clear_ep, lift_captured, record_ep, after_pawn, make_normal, make_by_kind,
  revoke_rights, pass_turn, begin_move, make_move,
}
use novachess.Chess.Movegen.{generate_legal_moves}
use novachess.Chess.Movegen.Attackers.{attackers_to, is_attacked, add_blockers, blockers_for_king}
use novachess.Chess.Movegen.King.{gen_king_moves, gen_castling}
use novachess.Chess.Movegen.Pawns.{gen_pawn_moves}
use novachess.Chess.Movegen.Pieces.{gen_piece_moves}
use novachess.Chess.Rules.{is_draw}
use novachess.Chess.Rules.Outcome.{outcome}
use novachess.Chess.Fen.Printing.{print_fen}

abbrev pub pawn_ending : Text
pawn_ending = codes "4k3/8/8/8/8/8/4P3/4K3 w - - 0 1"

-- One pair from a pawn ending, of two plies a game.
abbrev pub cfg : MatchConfig
cfg = record {
  max_games = pos 3;
  nodes_per_move = pos 100;
  openings = pawn_ending ∷ [];
  random_plies = pos 1;
  seed = 1;
  max_plies = pos 2;
  concurrency = pos 4;
}

-- A searcher that counts its searches, and plays e2-e4 for White and the king to e7 for Black.
abbrev pub asks : ℤ → Bool → ℕ → Position → Found × ℕ
asks limit ends n p =
    let found : Found = record { best = if p.side == white then 1804 else 3388; nodes = 7 + n } in
    (found, 1 + n)

abbrev pub ends_never : ℕ → ℕ → Bool
ends_never game ply = false

abbrev pub two_draws : PairResult
two_draws = record { index = 0; wins = 0; losses = 0; draws = 2; nodes = 38 }

pub one_pair :
    (play_game keys magics cfg asks (ends_never 0) 0 5 pawn_ending ≡ reads (drawn, 19))
    × (play_pair keys magics cfg asks ends_never 0 5 0 ≡ reads two_draws)
unfolding opposite make_piece color_of type_of has_right new_move from_of to_of kind_of is_none
    and_not more_than_one pop_first squares line attacks_from right_at occupied move_piece behind
    ahead ep_capture_available captured_by clear_ep lift_captured record_ep after_pawn make_normal
    make_by_kind revoke_rights pass_turn begin_move make_move generate_legal_moves attackers_to
    is_attacked add_blockers blockers_for_king gen_king_moves gen_castling gen_pawn_moves
    gen_piece_moves is_draw outcome parse_fen print_fen play_game play_pair
one_pair = (refl, refl)

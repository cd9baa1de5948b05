-- ===== src/Gate/Match.antt =====
-- The games of internal/gate/match.go: the settings, the opening of a pair, playGame and playPair.
-- A searcher is a state of any type, and its Search an argument, which is told whether the context
-- ends meanwhile. What the context answers is an argument, by the number of the game in its pair and
-- the ply.
pub mod Ending
pub mod Mirror
use novachess.Prelude.{
  ℕ, zero, suc, ◌+◌, ◌*◌, ◌/◌, ◌%◌, ◌^◌, bit_xor, Bool, true, false, not, ◌||◌, Option, none, some,
  List, [], ◌∷◌, ◌==◌, if◌then◌else◌,
}
use novachess.Prelude.Int.{ℤ, pos, pos_part, ltb_ℤ, leb_ℤ}
use novachess.Prelude.Text.{Text, codes}
use novachess.Chess.Types.{white}
use novachess.Chess.Move.{is_none}
use novachess.Chess.Attacks.{Magics}
use novachess.Chess.Zobrist.{Keys}
use novachess.Chess.Position.{Position}
use novachess.Chess.Position.Make.{make_move}
use novachess.Chess.Movegen.{generate_legal_moves}
use novachess.Chess.Rules.Outcome.{Outcome, ongoing, white_wins, black_wins, draw, outcome}
use novachess.Chess.Fen.{Reading, reads, refuses, ◌>>=◌, or_panics, length, parse_fen}
use novachess.Chess.Fen.Printing.{print_fen}

-- `concurrency` is the number of pairs that are played at once.
pub record MatchConfig : Type 0 where
  pub max_games : ℤ
  pub nodes_per_move : ℤ
  pub openings : List Text
  pub random_plies : ℤ
  pub seed : ℕ
  pub max_plies : ℤ
  pub concurrency : ℤ

unfoldable pub validate : MatchConfig → Bool
validate c = not (
    ltb_ℤ c.max_games (pos 2)
    || leb_ℤ c.nodes_per_move (pos 0)
    || leb_ℤ c.max_plies (pos 0)
    || ltb_ℤ c.concurrency (pos 1))

unfoldable pub new_rng : ℕ → ℕ
new_rng seed = if seed == 0 then 0x9e3779b97f4a7c15 else seed

-- The next state and the number that is drawn.
unfoldable pub next : ℕ → ℕ × ℕ
next state =
    let a = bit_xor state (state / 2 ^ 12) in
    let b = bit_xor a (a * 2 ^ 25 % 2 ^ 64) in
    let c = bit_xor b (b / 2 ^ 27) in (c, c * 2685821657736338717 % 2 ^ 64)

abbrev pub at {ℓ} : {A : Type ℓ} → List A → ℕ → Option A
at [] i = none
at (x ∷ xs) zero = some x
at (x ∷ xs) (suc i) = at xs i

abbrev pub starting_fen : Text
starting_fen = codes "rnbqkbnr/pppppppp/8/8/8/8/PPPPPPPP/RNBQKBNR w KQkq - 0 1"

unfoldable pub base_opening : MatchConfig → ℕ → Reading Text
base_opening c pair =
    if length c.openings == 0
    then reads starting_fen
    else or_panics (at c.openings (pair % length c.openings))

unfoldable pub random_moves : Keys → Magics → ℕ → ℕ → Position → Reading Position
unfolding next
random_moves z g zero r p = reads p
random_moves z g (suc plies) r p = or_panics (generate_legal_moves g p) >>= λ moves.
    let (r', number) = next r in
    if length moves == 0
    then reads p
    else or_panics (at moves (number % length moves)) >>= λ m.
        or_panics (make_move z g p m) >>= λ q. random_moves z g plies r' q

unfoldable pub opening : Keys → Magics → MatchConfig → ℕ → Reading Text
unfolding base_opening new_rng random_moves
opening z g c pair = base_opening c pair >>= λ base.
    if leb_ℤ c.random_plies (pos 0)
    then reads base
    else parse_fen z g false base >>= λ p.
        random_moves z g (pos_part c.random_plies)
          (new_rng ((c.seed + pair * 0x9e3779b97f4a7c15) % 2 ^ 64)) p
        >>= λ q. or_panics (outcome g q) >>= λ o. elim (o.0) [
          | ongoing ↦ or_panics (print_fen q)
          | _ ↦ reads base
        ]

pub data GameOutcome : Type 0 where
  white_won black_won drawn : GameOutcome

-- `result.Best` and `result.Info.Nodes`.
pub record Found : Type 0 where
  pub best : ℕ
  pub nodes : ℕ

abbrev pub over : Outcome → Option GameOutcome
over ongoing = none
over white_wins = some white_won
over black_wins = some black_won
over draw = some drawn

pub record PairResult : Type 0 where
  pub index : ℕ
  pub wins : ℕ
  pub losses : ℕ
  pub draws : ℕ
  pub nodes : ℕ

-- `Duration` is left out.
pub record MatchResult : Type 0 where
  pub wins : ℕ
  pub losses : ℕ
  pub draws : ℕ
  pub games : ℕ
  pub nodes : ℕ

unfoldable pub add_result : MatchResult → PairResult → MatchResult
add_result m r = record {
  wins = m.wins + r.wins;
  losses = m.losses + r.losses;
  draws = m.draws + r.draws;
  games = m.games + (r.wins + r.losses + r.draws);
  nodes = (m.nodes + r.nodes) % 2 ^ 64;
}

-- The result of RunMatch from the results of the pairs, in the order in which they arrive.
unfoldable pub add_results : MatchResult → List PairResult → MatchResult
unfolding add_result
add_results m [] = m
add_results m (r ∷ rs) = add_results (add_result m r) rs

abbrev pub no_results : MatchResult
no_results = record { wins = 0; losses = 0; draws = 0; games = 0; nodes = 0 }

abbrev pub no_games : ℕ → PairResult
no_games pair = record { index = pair; wins = 0; losses = 0; draws = 0; nodes = 0 }

module _ (z : Keys) (g : Magics) (cfg : MatchConfig) {S : Type 0}
    (search : ℤ → Bool → S → Position → Found × S) where
  -- The side to move is asked for a move; of the two searchers White's is the first.
  unfoldable pub ask : Bool → S × S → Position → Found × (S × S)
  ask ends engines p =
      let (found, searched) =
        search cfg.nodes_per_move ends (if p.side == white then engines.0 else engines.1) p in
      (found, if p.side == white then (searched, engines.1) else (engines.0, searched))

  -- `left` plies before the cap.
  unfoldable pub play_on : (ℕ → Bool) → ℕ → ℕ → S × S → Position → ℕ → Reading (GameOutcome × ℕ)
  unfolding ask
  play_on ends zero ply engines p nodes = reads (drawn, nodes)
  play_on ends (suc left) ply engines p nodes =
      let (found, engines') = ask (ends (suc ply)) engines p in
      let move : Reading (GameOutcome × ℕ) = or_panics (make_move z g p found.best) >>= λ q.
      play_on ends left (suc ply) engines' q ((nodes + found.nodes) % 2 ^ 64) in
      let go : Reading (GameOutcome × ℕ) = or_panics (outcome g p) >>= λ o. elim (over (o.0)) [
        | some result ↦ reads (result, nodes)
        | none ↦ if is_none found.best then reads (drawn, nodes) else move
      ] in
      if ends ply then refuses else go

  unfoldable pub play_game : (ℕ → Bool) → S → S → Text → Reading (GameOutcome × ℕ)
  unfolding play_on
  play_game ends whites blacks fen =
      parse_fen z g false fen >>= λ p. play_on ends (pos_part cfg.max_plies) 0 (whites, blacks) p 0

  unfoldable pub add_game : Bool → PairResult → GameOutcome × ℕ → PairResult
  add_game candidate_is_white r (o, nodes) =
      let s = record r { nodes = (r.nodes + nodes) % 2 ^ 64 } in
      let won = record s { wins = suc r.wins } in
      let lost = record s { losses = suc r.losses } in
      elim o [
        | drawn ↦ record s { draws = suc r.draws }
        | white_won ↦ if candidate_is_white then won else lost
        | black_won ↦ if candidate_is_white then lost else won
      ]

  -- What a pair comes to when its opening is known.
  unfoldable pub play_both : (ℕ → ℕ → Bool) → S → S → ℕ → Text → Reading PairResult
  unfolding play_game add_game
  play_both ends candidate incumbent pair fen =
      play_game (ends 0) candidate incumbent fen >>= λ first.
      play_game (ends 1) incumbent candidate fen >>= λ second.
      reads (add_game false (add_game true (no_games pair) first) second)

  unfoldable pub play_pair : (ℕ → ℕ → Bool) → S → S → ℕ → Reading PairResult
  unfolding opening play_both
  play_pair ends candidate incumbent pair =
      opening z g cfg pair >>= λ fen. play_both ends candidate incumbent pair fen

-- ===== src/Gate/Match/Mirror.antt =====
-- The two games of a pair, with the candidate and the incumbent exchanged.
use native.Mathlib.Omega.{arith}
use novachess.Prelude.{ℕ, ◌+◌, ◌%◌, ◌^◌, Bool, true, false, ◌==◌, ◌≡◌, refl, ap, ◌∙◌, if◌then◌else◌}
use novachess.Prelude.Int.{ℤ}
use novachess.Prelude.Text.{Text}
use novachess.Chess.Attacks.{Magics}
use novachess.Chess.Zobrist.{Keys}
use novachess.Chess.Position.{Position}
use novachess.Chess.Fen.{reads, >>=-eq-reads}
use novachess.Gate.Match.{
  MatchConfig, GameOutcome, PairResult, no_games, Found, opening, play_game, add_game, play_both,
  play_pair,
}

-- A tally from the other side's point of view.
abbrev pub mirrored : PairResult → PairResult
mirrored r = record r { wins = r.losses; losses = r.wins }

-- What the context answers, with the two games exchanged.
abbrev pub exchanged : (ℕ → ℕ → Bool) → ℕ → ℕ → Bool
exchanged ends game = if game == 0 then ends 1 else ends 0

nodes_either_way : (n m : ℕ) → ((0 + m) % 2 ^ 64 + n) % 2 ^ 64 ≡ ((0 + n) % 2 ^ 64 + m) % 2 ^ 64
nodes_either_way n m = omega arith

module _ (z : Keys) (g : Magics) (cfg : MatchConfig) {S : Type 0}
    (search : ℤ → Bool → S → Position → Found × S) where
  -- The tally of two games, the first with the candidate White.
  abbrev tally : ℕ → GameOutcome × ℕ → GameOutcome × ℕ → PairResult
  tally pair first second =
      add_game z g cfg search false (add_game z g cfg search true (no_games pair) first) second

  both_games :
      (pair : ℕ) (first second : GameOutcome × ℕ)
      → tally pair second first ≡ mirrored (tally pair first second)
  unfolding add_game
  both_games pair (o, n) (o', n') = ground (arith, nodes_either_way n n')

  play_both-mirrored :
      (ends : ℕ → ℕ → Bool) (candidate incumbent : S) (pair : ℕ) (fen : Text) {r : PairResult}
      → play_both z g cfg search ends candidate incumbent pair fen ≡ reads r
      → play_both z g cfg search (exchanged ends) incumbent candidate pair fen ≡ reads (mirrored r)
  unfolding play_both
  play_both-mirrored ends candidate incumbent pair fen {r} h =
      let (first, played, rest) =
        >>=-eq-reads (play_game z g cfg search (ends 0) candidate incumbent fen) _ h in
      let (second, played', result) =
        >>=-eq-reads (play_game z g cfg search (ends 1) incumbent candidate fen) _ rest in
      let exchanged_games : play_both z g cfg search (exchanged ends) incumbent candidate pair fen
          ≡ reads (tally pair second first) =
        rw (played, played') refl in
      let same : tally pair first second ≡ r = grind arith in
      exchanged_games ∙ ap reads (both_games pair first second ∙ ap mirrored same)

  -- When a pair ends with a tally, the pair with the candidate and the incumbent exchanged, and what
  -- the context answers in the two games exchanged with them, ends with the same tally from the other
  -- side: wins and losses exchanged, the same draws and nodes.
  pub play_pair-mirrored :
      (ends : ℕ → ℕ → Bool) (candidate incumbent : S) (pair : ℕ) {r : PairResult}
      → play_pair z g cfg search ends candidate incumbent pair ≡ reads r
      → play_pair z g cfg search (exchanged ends) incumbent candidate pair ≡ reads (mirrored r)
  unfolding play_pair
  play_pair-mirrored ends candidate incumbent pair h =
      let (fen, opened, played) = >>=-eq-reads (opening z g cfg pair) _ h in
      rw opened (play_both-mirrored ends candidate incumbent pair fen played)

-- ===== src/Gate/Match/Ending.antt =====
-- How a game between two searchers ends.
use novachess.Prelude.{ℕ, suc, ◌+◌, ◌^◌, ◌%◌, Bool, true, false, none, some, ◌≡◌}
use novachess.Prelude.Int.{ℤ}
use novachess.Prelude.Text.{Text}
use novachess.Chess.Move.{is_none}
use novachess.Chess.Attacks.{Magics}
use novachess.Chess.Zobrist.{Keys}
use novachess.Chess.Position.{Position}
use novachess.Chess.Position.Make.{make_move}
use novachess.Chess.Rules.Outcome.{Outcome, TerminationReason, outcome}
use novachess.Gate.Match.{MatchConfig, GameOutcome, drawn, over, Found, ask}

-- What a game carries from ply to ply: the two searchers, White's first, and the nodes searched.
pub record Game (S : Type 0) : Type 0 where
  pub ply : ℕ
  pub engines : S × S
  pub position : Position
  pub nodes : ℕ

module _ (z : Keys) (g : Magics) (cfg : MatchConfig) {S : Type 0}
    (search : ℤ → Bool → S → Position → Found × S) (ends : ℕ → Bool) where
  -- What the side to move finds.
  abbrev pub answer_at : Game S → Found × (S × S)
  answer_at a = ask z g cfg search (ends (suc a.ply)) a.engines a.position

  -- The context is alive, and the rules let the game go on.
  pub record IsOpen (a : Game S) : Type 0 where
    pub alive : ends a.ply ≡ false
    pub verdict : Outcome
    pub why : TerminationReason
    pub known : outcome g a.position ≡ some (verdict, why)
    pub goes_on : over verdict ≡ none

  -- The game after the move that was found.
  abbrev pub advanced : Game S → Position → Game S
  advanced a q = record {
    ply = suc a.ply;
    engines = (answer_at a).1;
    position = q;
    nodes = (a.nodes + ((answer_at a).0).nodes) % 2 ^ 64;
  }

  -- A game from one state to another, in a number of plies: at each the game is open, and the move
  -- that the search found is made.
  pub data Played : Game S → ℕ → Game S → Type 0 where
    nothing : (a : Game S) → Played a 0 a
    and_then :
        {a b : Game S} {n : ℕ} {q : Position}
        → IsOpen a
        → is_none ((answer_at a).0).best ≡ false
        → make_move z g a.position ((answer_at a).0).best ≡ some q
        → Played (advanced a q) n b
        → Played a (suc n) b

  -- Why a game has a result, `left` plies before the cap: the rules end it, the cap is reached, or the
  -- search found no move in an open game.
  pub data Reason (a : Game S) (left : ℕ) : GameOutcome → Type 0 where
    by_rules :
        {o : GameOutcome} (x : Outcome) (why : TerminationReason)
        → ends a.ply ≡ false
        → outcome g a.position ≡ some (x, why)
        → over x ≡ some o
        → Reason a left o
    by_cap : left ≡ 0 → Reason a left drawn
    no_move_found : IsOpen a → is_none ((answer_at a).0).best ≡ true → Reason a left drawn

  pub record Ending (cap : ℕ) (a : Game S) (o : GameOutcome) (n : ℕ) : Type 0 where
    pub last : Game S
    pub made : ℕ
    pub left : ℕ
    pub played : Played a made last
    pub plies : made + left ≡ cap
    pub reason : Reason last left o
    pub nodes_are : n ≡ last.nodes

  abbrev pub opened : S → S → Position → Game S
  opened whites blacks p = record { ply = 0; engines = (whites, blacks); position = p; nodes = 0 }

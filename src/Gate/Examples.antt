-- ===== src/Gate/Examples.antt =====
-- A match of one pair that the theorems on the gate are applied to.
use native.Mathlib.Omega.{arith}
use novachess.Prelude.{ℕ, ◌⊎◌, ◌-◌, Bool, false, List, [], ◌∷◌, ◌≡◌, refl, leb, if◌then◌else◌}
use novachess.Chess.Position.{Position}
use novachess.Chess.Position.Examples.{keys, magics}
use novachess.Chess.Fen.{reads}
use novachess.Pipeline.Coordinator.Interleaving.{here}
use novachess.Gate.Match.{PairResult, play_pair}
use novachess.Gate.Match.Ending.{Ending}
use novachess.Gate.Match.Mirror.{mirrored, exchanged, play_pair-mirrored}
use novachess.Gate.Games.{cfg, asks, ends_never, two_draws, one_pair}
use novachess.Gate.Report.{Verdict, inconclusive, accept, reject, new_report, fold_all}
use novachess.Gate.Report.Latched.{Decides, Counts, first_crossing, fold_all-Decides}
use novachess.Gate.Runner.{
  Runner, pairs, workers, start, take_index, deliver, Reach, starts, takes, delivers, IsOver,
}
use novachess.Gate.Runner.Complete.{CanStep, InTurn, Reach-InTurn}

play_pair-mirrored_example :
    play_pair keys magics cfg asks (exchanged ends_never) 5 0 0 ≡ reads (mirrored two_draws)
play_pair-mirrored_example = play_pair-mirrored keys magics cfg asks ends_never 0 5 0 (one_pair.1)

-- A test by the difference of the games won and lost.
abbrev by_lead : ℕ → ℕ → ℕ → Verdict × ℕ
by_lead w l d =
    if leb 2 (w - l)
    then (accept, w - l)
    else if leb 2 (l - w)
    then (reject, w - l)
    else (inconclusive, w - l)

-- Two pairs won, then two lost that were in flight.
abbrev swept : PairResult
swept = record { index = 1; wins = 2; losses = 0; draws = 0; nodes = 50 }

abbrev arrived : List PairResult
arrived = two_draws ∷ swept ∷ mirrored swept ∷ mirrored swept ∷ []

fold_all-Decides_example :
    Decides by_lead (first_crossing by_lead 0 0 0 arrived) (fold_all by_lead (new_report 0) arrived)
    × Counts (new_report 0) arrived (fold_all by_lead (new_report 0) arrived)
fold_all-Decides_example = fold_all-Decides by_lead 0 arrived

abbrev goes_on : List PairResult → PairResult → Bool
goes_on rs r = false

abbrev taken : Runner
taken = take_index (start cfg) 0

abbrev played : Runner
played = deliver false taken [] two_draws

played-Reach : Reach keys magics cfg asks 0 5 goes_on played
unfolding pairs workers start take_index
played-Reach =
    delivers 0 [] two_draws ends_never (takes 0 starts (omega arith) refl) here
      (λ alive game ply. refl) (one_pair.1)

played_alive : played.cancelled ≡ false
unfolding start take_index deliver
played_alive = refl

Reach-InTurn_example :
    CanStep cfg played ⊎ (IsOver cfg played × InTurn keys magics cfg asks 0 5 goes_on played)
Reach-InTurn_example = Reach-InTurn keys magics cfg asks 0 5 goes_on played-Reach played_alive

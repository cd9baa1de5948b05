-- ===== src/Gate/Report.antt =====
-- internal/gate/gate.go: how the results of a match are folded into its report. The log-likelihood
-- ratio is floating point, so the sequential test of internal/gate/sprt.go is an argument.
pub mod Latched
use novachess.Prelude.{ℕ, ◌+◌, ◌%◌, ◌^◌, Bool, true, false, List, [], ◌∷◌, ◌≡◌, ◌≢◌}
use novachess.Gate.Match.{PairResult}

pub data Verdict : Type 0 where
  inconclusive accept reject : Verdict

abbrev pub is_conclusive : Verdict → Bool
is_conclusive inconclusive = false
is_conclusive accept = true
is_conclusive reject = true

-- `L` is the type of the ratio.
pub record Report (L : Type 0) : Type 0 where
  pub verdict : Verdict
  pub wins : ℕ
  pub losses : ℕ
  pub draws : ℕ
  pub games : ℕ
  pub llr : L
  pub nodes : ℕ

abbrev pub new_report : {L : Type 0} → L → Report L
new_report zero_llr = record {
  verdict = inconclusive;
  wins = 0;
  losses = 0;
  draws = 0;
  games = 0;
  llr = zero_llr;
  nodes = 0;
}

unfoldable pub promoted : {L : Type 0} → Report L → Bool
promoted r = elim (r.verdict) [ accept ↦ true | _ ↦ false ]

unfoldable pub add_pair : {L : Type 0} → Report L → PairResult → Report L
add_pair report r = record report {
  wins = report.wins + r.wins;
  losses = report.losses + r.losses;
  draws = report.draws + r.draws;
  games = report.games + (r.wins + r.losses + r.draws);
  nodes = (report.nodes + r.nodes) % 2 ^ 64;
}

module _ {L : Type 0} (test : ℕ → ℕ → ℕ → Verdict × L) where
  -- With whether the match is decided.
  unfoldable pub fold : Report L → PairResult → Report L × Bool
  unfolding add_pair
  fold report r =
      let added = add_pair report r in
      let (verdict, llr) = test added.wins added.losses added.draws in
      elim (report.verdict) [
        | inconclusive ↦ (record added { verdict = verdict; llr = llr }, is_conclusive verdict)
        | _ ↦ (added, true)
      ]

  unfoldable pub fold_all : Report L → List PairResult → Report L
  unfolding fold
  fold_all report [] = report
  fold_all report (r ∷ rs) = fold_all ((fold report r).0) rs

-- ===== src/Gate/Report/Latched.antt =====
-- The verdict of a match is the one at the first pair that crosses a bound.
use native.Mathlib.Omega.{arith}
use novachess.Prelude.{
  ℕ, ◌+◌, ◌%◌, ◌^◌, true, false, List, [], ◌∷◌, ◌≡◌, refl, ap, ◌∙◌, if◌then◌else◌, Option, none,
  some, Bool-cases, inl, inr,
}
use novachess.Gate.Match.{PairResult}
use novachess.Gate.Report.{
  Verdict, inconclusive, accept, reject, is_conclusive, Report, new_report, add_pair, fold,
  fold_all,
}

-- The games of a list of results, won, lost and drawn.
abbrev pub total : (PairResult → ℕ) → List PairResult → ℕ
total f [] = 0
total f (r ∷ rs) = f r + total f rs

abbrev pub wins_of : PairResult → ℕ
wins_of r = r.wins

abbrev pub losses_of : PairResult → ℕ
losses_of r = r.losses

abbrev pub draws_of : PairResult → ℕ
draws_of r = r.draws

abbrev pub games_of : PairResult → ℕ
games_of r = r.wins + r.losses + r.draws

abbrev pub nodes_of : PairResult → ℕ
nodes_of r = r.nodes

-- A report has the totals of a list in front of what it had.
pub record Counts {L : Type 0} (from : Report L) (rs : List PairResult) (report : Report L)
    : Type 0 where
  pub wins_are : report.wins ≡ from.wins + total wins_of rs
  pub losses_are : report.losses ≡ from.losses + total losses_of rs
  pub draws_are : report.draws ≡ from.draws + total draws_of rs
  pub games_are : report.games ≡ from.games + total games_of rs
  pub nodes_are : report.nodes % 2 ^ 64 ≡ (from.nodes + total nodes_of rs) % 2 ^ 64

inconclusive_of : (v : Verdict) → is_conclusive v ≡ false → v ≡ inconclusive
inconclusive_of inconclusive h = refl
inconclusive_of accept h = cc
inconclusive_of reject h = cc

module _ {L : Type 0} (test : ℕ → ℕ → ℕ → Verdict × L) where
  fold_adds :
      (report : Report L) (r : PairResult) (rs : List PairResult) (end : Report L)
      → Counts ((fold test report r).0) rs end
      → Counts report (r ∷ rs) end
  unfolding fold add_pair
  fold_adds report r rs end c = record {
    wins_are = ground (arith, c.wins_are);
    losses_are = ground (arith, c.losses_are);
    draws_are = ground (arith, c.draws_are);
    games_are = ground (arith, c.games_are);
    nodes_are = ground (arith, c.nodes_are);
  }

  fold_all-Counts :
      (report : Report L) (rs : List PairResult) → Counts report rs (fold_all test report rs)
  unfolding fold_all
  fold_all-Counts report [] = record {
    wins_are = omega arith;
    losses_are = omega arith;
    draws_are = omega arith;
    games_are = omega arith;
    nodes_are = omega arith;
  }
  fold_all-Counts report (r ∷ rs) =
      fold_adds report r rs _ (fold_all-Counts ((fold test report r).0) rs)

  -- The sequential test of a list, from totals so far: what is said where a bound is first crossed.
  abbrev pub first_crossing : ℕ → ℕ → ℕ → List PairResult → Option (Verdict × L)
  first_crossing w l d [] = none
  first_crossing w l d (r ∷ rs) =
      let said = test (w + r.wins) (l + r.losses) (d + r.draws) in
      let later = first_crossing (w + r.wins) (l + r.losses) (d + r.draws) rs in
      if is_conclusive (said.0) then some said else later

  -- A report has the verdict and the ratio of what was said, and no verdict when nothing was.
  abbrev pub Decides : Option (Verdict × L) → Report L → Type 0
  Decides none report = report.verdict ≡ inconclusive
  Decides (some (v, llr)) report = (report.verdict ≡ v) × (report.llr ≡ llr)

  fold_latched :
      (report : Report L) (r : PairResult)
      → is_conclusive report.verdict ≡ true
      → (((fold test report r).0).verdict ≡ report.verdict)
        × (((fold test report r).0).llr ≡ report.llr)
  unfolding fold add_pair
  fold_latched report r h = (ground arith, ground arith)

  fold_all_latched :
      (report : Report L) (rs : List PairResult)
      → is_conclusive report.verdict ≡ true
      → ((fold_all test report rs).verdict ≡ report.verdict)
        × ((fold_all test report rs).llr ≡ report.llr)
  unfolding fold_all
  fold_all_latched report [] h = (refl, refl)
  fold_all_latched report (r ∷ rs) h =
      let (verdict, llr) = fold_latched report r h in
      let (verdicts, llrs) =
        fold_all_latched ((fold test report r).0) rs (ap is_conclusive verdict ∙ h) in
      (verdicts ∙ verdict, llrs ∙ llr)

  -- The report after a pair when there was no verdict before it.
  abbrev tested : Report L → PairResult → Report L
  tested report r =
      let (v, llr) =
        test (report.wins + r.wins) (report.losses + r.losses) (report.draws + r.draws) in
      record (add_pair report r) { verdict = v; llr = llr }

  fold_open :
      (report : Report L) (r : PairResult)
      → report.verdict ≡ inconclusive
      → (fold test report r).0 ≡ tested report r
  unfolding fold add_pair
  fold_open report r h = rw h refl

  fold_all_from_open :
      (report : Report L) (rs : List PairResult)
      → report.verdict ≡ inconclusive
      → Decides (first_crossing report.wins report.losses report.draws rs) (fold_all test report rs)
  unfolding fold_all add_pair
  fold_all_from_open report [] h = h
  fold_all_from_open report (r ∷ rs) h =
      let said = test (report.wins + r.wins) (report.losses + r.losses) (report.draws + r.draws) in
      elim (Bool-cases (is_conclusive (said.0))) [
        | inl crossed ↦
            rw (fold_open report r h, crossed) (fold_all_latched (tested report r) rs crossed)
        | inr within ↦
            rw (fold_open report r h, within)
              (fold_all_from_open (tested report r) rs (inconclusive_of (said.0) within))
      ]

  -- Whatever the test, the verdict and the ratio of a report into which results have been folded are
  -- those that the test gives where it is first conclusive on the running totals, and the verdict is
  -- inconclusive if it never is; and the report counts all the games, those after the verdict too.
  pub fold_all-Decides :
      (zero_llr : L) (rs : List PairResult)
      → Decides (first_crossing 0 0 0 rs) (fold_all test (new_report zero_llr) rs)
        × Counts (new_report zero_llr) rs (fold_all test (new_report zero_llr) rs)
  fold_all-Decides zero_llr rs =
      (fold_all_from_open (new_report zero_llr) rs refl, fold_all-Counts (new_report zero_llr) rs)

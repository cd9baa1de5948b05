-- ===== src/Search/Mate.antt =====
-- Mate scores, which are stored relative to the node: `adjustMateScoreToTT` and
-- `adjustMateScoreFromTT` of internal/search/tt.go, with the bounds of internal/eval/eval.go.
use native.Mathlib.Omega.{arith}
use novachess.Prelude.{ℕ, ◌≤◌, ◌≡◌, if◌then◌else◌}
use novachess.Prelude.Int.{ℤ, pos, negsuc, ◌+ℤ◌, ◌-ℤ◌, ◌≤ℤ◌, leb_ℤ}

abbrev pub mate_score : ℕ
mate_score = 31000

abbrev pub max_mate_depth : ℕ
max_mate_depth = 256

-- MateScore-MaxMateDepth and its negation.
abbrev pub winning_from : ℤ
winning_from = pos 30744

abbrev pub losing_from : ℤ
losing_from = negsuc 30743

unfoldable pub adjust_mate_score_to_tt : ℤ → ℤ → ℤ
adjust_mate_score_to_tt score ply =
    if leb_ℤ winning_from score
    then score +ℤ ply
    else if leb_ℤ score losing_from
    then score -ℤ ply
    else score

unfoldable pub adjust_mate_score_from_tt : ℤ → ℤ → ℤ
adjust_mate_score_from_tt score ply =
    if leb_ℤ winning_from score
    then score -ℤ ply
    else if leb_ℤ score losing_from
    then score +ℤ ply
    else score

-- At a ply that is not negative, what is stored for a score reads back as that score.
pub adjust_mate_score_from_tt-to_tt :
    (score : ℤ) (ply : ℕ)
    → adjust_mate_score_from_tt (adjust_mate_score_to_tt score (pos ply)) (pos ply) ≡ score
unfolding adjust_mate_score_from_tt adjust_mate_score_to_tt ◌+ℤ◌ ◌-ℤ◌
adjust_mate_score_from_tt-to_tt (pos n) ply = ground arith
adjust_mate_score_from_tt-to_tt (negsuc n) ply = ground arith

-- `int16`, as the numbers it holds.
abbrev pub FitsInt16 : ℤ → Type 0
FitsInt16 n = (negsuc 32767 ≤ℤ n) × (n ≤ℤ pos 32767)

-- A score of at most a mate, at a ply of at most 1,767, is stored without overflowing.
pub adjust_mate_score_to_tt-FitsInt16 :
    (score : ℤ) (ply : ℕ)
    → negsuc 30999 ≤ℤ score
    → score ≤ℤ pos mate_score
    → ply ≤ 1767
    → FitsInt16 (adjust_mate_score_to_tt score (pos ply))
unfolding adjust_mate_score_to_tt ◌+ℤ◌ ◌-ℤ◌
adjust_mate_score_to_tt-FitsInt16 (pos n) ply lo hi h = (ground arith, ground arith)
adjust_mate_score_to_tt-FitsInt16 (negsuc n) ply lo hi h = (ground arith, ground arith)

-- ===== src/Gate/Runner/Sums.antt =====
-- Sums over the pairs of a match.
use native.Mathlib.Omega.{arith}
use novachess.Prelude.{
  ℕ, zero, suc, ◌+◌, ◌<◌, ◌%◌, ◌^◌, List, [], ◌∷◌, ◌++◌, ◌==◌, ◌≡◌, ◌≢◌, refl, sym, ◌∙◌, inl, inr,
  if◌then◌else◌, Bool-cases,
}
use novachess.Pipeline.Coordinator.Interleaving.{Taken, here, there}
use novachess.Gate.Match.{PairResult, MatchResult, add_result, add_results, no_results}
use novachess.Gate.Report.Latched.{total, wins_of, losses_of, draws_of, games_of, nodes_of}

abbrev pub weigh : (ℕ → ℕ) → List ℕ → ℕ
weigh F [] = 0
weigh F (i ∷ is) = F i + weigh F is

-- The weight of the indices below a number.
abbrev pub below : (ℕ → ℕ) → ℕ → ℕ
below F zero = 0
below F (suc n) = below F n + F n

abbrev pub indices : List PairResult → List ℕ
indices [] = []
indices (r ∷ rs) = r.index ∷ indices rs

pub weigh-Taken :
    (F : ℕ → ℕ) {i : ℕ} {is others : List ℕ} → Taken i is others → weigh F is ≡ F i + weigh F others
weigh-Taken F here = refl
weigh-Taken F (there t) = omega (arith, weigh-Taken F t)

pub weigh-append :
    (F : ℕ → ℕ) (rs : List PairResult) (r : PairResult)
    → weigh F (indices (rs ++ r ∷ [])) ≡ weigh F (indices rs) + F (r.index)
weigh-append F [] r = omega arith
weigh-append F (x ∷ rs) r = omega (arith, weigh-append F rs r)

pub total-append :
    (f : PairResult → ℕ) (rs : List PairResult) (r : PairResult)
    → total f (rs ++ r ∷ []) ≡ total f rs + f r
total-append f [] r = omega arith
total-append f (x ∷ rs) r = omega (arith, total-append f rs r)

abbrev pub is_index : ℕ → ℕ → ℕ
is_index i j = if i == j then 1 else 0

pub below-is_index : (i n : ℕ) → i < n → below (is_index i) n ≢ 0
below-is_index i zero h e = omega arith
below-is_index i (suc n) h e = elim (Bool-cases (i == n)) [
  | inl same ↦ grind arith
  | inr other ↦ below-is_index i n (ground arith) (ground arith)
]

-- The tally of a match is made of its totals.
abbrev totals : MatchResult → List PairResult → MatchResult
totals m rs = record {
  wins = m.wins + total wins_of rs;
  losses = m.losses + total losses_of rs;
  draws = m.draws + total draws_of rs;
  games = m.games + total games_of rs;
  nodes = (m.nodes + total nodes_of rs) % 2 ^ 64;
}

abbrev IsWrapped : MatchResult → Type 0
IsWrapped m = m.nodes % 2 ^ 64 ≡ m.nodes

same_result :
    (m n : MatchResult)
    → m.wins ≡ n.wins
    → m.losses ≡ n.losses
    → m.draws ≡ n.draws
    → m.games ≡ n.games
    → m.nodes ≡ n.nodes
    → m ≡ n
same_result m n a b c d e =
    λ i. record { wins = a i; losses = b i; draws = c i; games = d i; nodes = e i }

add_results-totals :
    (m : MatchResult) (rs : List PairResult) → IsWrapped m → add_results m rs ≡ totals m rs
unfolding add_results add_result
add_results-totals m [] w =
    same_result m (totals m []) (omega arith) (omega arith) (omega arith) (omega arith)
      (omega (arith, w))
add_results-totals m (r ∷ rs) w =
    add_results-totals (add_result m r) rs (omega arith)
    ∙ same_result (totals (add_result m r) rs) (totals m (r ∷ rs)) (omega arith) (omega arith)
        (omega arith) (omega arith) (omega arith)

-- Two lists of results with the same totals make the same tally.
pub add_results-same :
    (rs ts : List PairResult)
    → ((f : PairResult → ℕ) → total f rs ≡ total f ts)
    → add_results no_results rs ≡ add_results no_results ts
add_results-same rs ts h =
    add_results-totals no_results rs refl
    ∙ same_result (totals no_results rs) (totals no_results ts) (omega (arith, h wins_of))
        (omega (arith, h losses_of)) (omega (arith, h draws_of)) (omega (arith, h games_of))
        (omega (arith, h nodes_of))
    ∙ sym (add_results-totals no_results ts refl)

-- ===== src/Gate/Runner/Complete.antt =====
-- A match that is never cancelled plays every pair once.
use native.Mathlib.Omega.{arith}
use novachess.Prelude.{
  subst, ℕ, zero, suc, ◌+◌, ◌-◌, ◌⊎◌, ◌≤◌, ◌<◌, Bool, false, List, [], ◌∷◌, ◌++◌, ◌==◌, ◌≡◌, ◌≢◌,
  refl, sym, ap, ◌∙◌, fun_ext, inl, inr, Bool-cases, ==_iff,
}
use novachess.Prelude.Int.{ℤ}
use novachess.Chess.Attacks.{Magics}
use novachess.Chess.Zobrist.{Keys}
use novachess.Chess.Position.{Position}
use novachess.Chess.Fen.{Reading, reads, refuses, panics, ◌>>=◌, >>=-eq-reads}
use novachess.Pipeline.Coordinator.Interleaving.{Taken, here, there}
use novachess.Gate.Match.{
  MatchConfig, PairResult, add_results, no_results, Found, opening, play_both, play_pair, add_game,
  play_game,
}
use novachess.Gate.Report.Latched.{total}
use novachess.Gate.Runner.{
  Runner, pairs, workers, start, take_index, deliver, fail, Reach, starts, takes, delivers, fails,
  cancels, IsOver,
}
use novachess.Gate.Runner.Sums.{
  weigh, below, indices, is_index, weigh-Taken, weigh-append, total-append, below-is_index,
  add_results-same,
}

-- What a pair adds to a total.
abbrev score : (PairResult → ℕ) → Reading PairResult → ℕ
score f (reads r) = f r
score f refuses = 0
score f panics = 0

-- A context that does not end.
abbrev pub never : ℕ → ℕ → Bool
never game ply = false

abbrev at_work : List ℕ → ℕ
at_work [] = 0
at_work (i ∷ is) = suc (at_work is)

at_work-Taken : {i : ℕ} {is others : List ℕ} → Taken i is others → at_work is ≡ suc (at_work others)
at_work-Taken here = refl
at_work-Taken (there t) = ap suc (at_work-Taken t)

workers-pos : (cfg : MatchConfig) → 1 ≤ workers cfg
unfolding workers
workers-pos cfg = ground arith

-- A pair is being played, or there is one to take and a worker that waits for it.
abbrev pub CanStep : MatchConfig → Runner → Type 0
CanStep cfg s =
    ((i : ℕ) × (others : List ℕ) × Taken i s.playing others)
    ⊎ ((waiting : ℕ) × (s.idle ≡ suc waiting) × (s.next < pairs cfg))

module _ (z : Keys) (g : Magics) (cfg : MatchConfig) {S : Type 0}
    (search : ℤ → Bool → S → Position → Found × S) (candidate incumbent : S)
    (on_result : List PairResult → PairResult → Bool) where
  -- What a pair comes to in a match that is not cancelled.
  abbrev pub plays : ℕ → Reading PairResult
  plays i = play_pair z g cfg search never candidate incumbent i

  abbrev AllPlayed : List PairResult → Type 0
  AllPlayed [] = Unit
  AllPlayed (r ∷ rs) = (plays r.index ≡ reads r) × AllPlayed rs

  record IsExact (s : Runner) : Type 0 where
    balanced : (F : ℕ → ℕ) → weigh F s.playing + weigh F (indices s.results) ≡ below F s.next
    played : AllPlayed s.results
    within : s.next ≤ pairs cfg
    held : at_work s.playing + s.idle ≡ workers cfg

  play_pair-index :
      (ends : ℕ → ℕ → Bool) (i : ℕ) {r : PairResult}
      → play_pair z g cfg search ends candidate incumbent i ≡ reads r
      → r.index ≡ i
  unfolding play_pair play_both add_game
  play_pair-index ends i {r} h =
      let (fen, opened, both) = >>=-eq-reads (opening z g cfg i) _ h in
      let (first, won, rest) =
        >>=-eq-reads (play_game z g cfg search (ends 0) candidate incumbent fen) _ both in
      let (second, won', result) =
        >>=-eq-reads (play_game z g cfg search (ends 1) incumbent candidate fen) _ rest in
      ground arith

  AllPlayed-append :
      (rs : List PairResult) (r : PairResult)
      → AllPlayed rs
      → plays r.index ≡ reads r
      → AllPlayed (rs ++ r ∷ [])
  AllPlayed-append [] r all h = (h, tt)
  AllPlayed-append (x ∷ rs) r (it, all) h = (it, AllPlayed-append rs r all h)

  Reach-IsExact :
      {s : Runner}
      → Reach z g cfg search candidate incumbent on_result s
      → s.cancelled ≡ false
      → IsExact s
  unfolding start take_index deliver fail
  Reach-IsExact starts h = record {
    balanced = λ F. refl;
    played = tt;
    within = omega arith;
    held = omega arith;
  }
  Reach-IsExact (takes waiting reach more idle) h =
      let before = Reach-IsExact reach h in
      record {
        balanced = λ F. omega (arith, before.balanced F);
        played = before.played;
        within = omega (arith, more);
        held = omega (arith, before.held, idle);
      }
  Reach-IsExact (delivers {s} i others r ends reach taken whole done) h =
      let alive : s.cancelled ≡ false = ground arith in
      let before = Reach-IsExact reach alive in
      let same : ends ≡ never = fun_ext (λ game. fun_ext (λ ply. whole alive game ply)) in
      let at : r.index ≡ i = play_pair-index ends i done in
      let now : plays r.index ≡ reads r =
        ap plays at
        ∙ ap (λ e. play_pair z g cfg search e candidate incumbent i) (sym same)
        ∙ done in
      record {
        balanced = λ F.
            omega
              (arith, before.balanced F, weigh-Taken F taken, weigh-append F s.results r, ap F at);
        played = AllPlayed-append s.results r before.played now;
        within = before.within;
        held = omega (arith, before.held, at_work-Taken taken);
      }
  Reach-IsExact (fails i others ends reach taken whole done) h = cc
  Reach-IsExact (cancels reach) h = cc

  -- The pairs below a number, played one after the other.
  abbrev pub in_turn : ℕ → Reading (List PairResult)
  in_turn zero = reads []
  in_turn (suc n) = in_turn n >>= λ rs. plays n >>= λ r. reads (rs ++ r ∷ [])

  abbrev worth : (PairResult → ℕ) → ℕ → ℕ
  worth f i = score f (plays i)

  total-worth :
      (f : PairResult → ℕ) (rs : List PairResult)
      → AllPlayed rs
      → total f rs ≡ weigh (worth f) (indices rs)
  total-worth f [] all = refl
  total-worth f (r ∷ rs) (it, all) =
      let here : worth f r.index ≡ f r = ap (score f) it in
      omega (arith, here, total-worth f rs all)

  -- An index that weighs something among the results has been played.
  was_played :
      (i : ℕ) (rs : List PairResult)
      → AllPlayed rs
      → weigh (is_index i) (indices rs) ≢ 0
      → (r : PairResult) × (plays i ≡ reads r)
  was_played i [] all h = elim (h refl) [ ]
  was_played i (r ∷ rs) (it, all) h = elim (Bool-cases (i == r.index)) [
    | inl same ↦ (r, ap plays ((==_iff i r.index).0 same) ∙ it)
    | inr other ↦ was_played i rs all (λ e. h (ground arith))
  ]

  in_turn-plays :
      (n : ℕ)
      → ((i : ℕ) → i < n → (r : PairResult) × (plays i ≡ reads r))
      → (rs : List PairResult) × (in_turn n ≡ reads rs)
        × ((f : PairResult → ℕ) → total f rs ≡ below (worth f) n)
  in_turn-plays zero each = ([], refl, λ f. refl)
  in_turn-plays (suc n) each =
      let (rs, before, sums) = in_turn-plays n (λ i h. each i (omega arith)) in
      let (r, now) = each n (omega arith) in
      let adds : (f : PairResult → ℕ) → worth f n ≡ f r = λ f. ap (score f) now in
      (rs ++ r ∷ [], rw (before, now) refl, λ f. omega (arith, total-append f rs r, sums f, adds f))

  -- A match that is over and was not cancelled has the results of the pairs played one after the
  -- other.
  Reach-in_turn :
      {s : Runner}
      → Reach z g cfg search candidate incumbent on_result s
      → IsOver cfg s
      → s.cancelled ≡ false
      → (rs : List PairResult) × (in_turn (pairs cfg) ≡ reads rs)
        × ((f : PairResult → ℕ) → total f s.results ≡ total f rs)
        × (add_results no_results s.results ≡ add_results no_results rs)
  Reach-in_turn {s} reach (idle, stopped) alive =
      let exact = Reach-IsExact reach alive in
      let all_taken : s.next ≡ pairs cfg = elim stopped [ inl e ↦ e | inr e ↦ cc ] in
      let sums : (F : ℕ → ℕ) → weigh F (indices s.results) ≡ below F (pairs cfg) =
        λ F. omega (arith, exact.balanced F, ap (weigh F) idle, ap (below F) all_taken) in
      let (rs, ran, totals) = in_turn-plays (pairs cfg) (λ i h.
        was_played i s.results exact.played
          (λ e. below-is_index i (pairs cfg) h (sym (sums (is_index i)) ∙ e))) in
      let same : (f : PairResult → ℕ) → total f s.results ≡ total f rs =
        λ f. omega (arith, total-worth f s.results exact.played, sums (worth f), totals f) in
      (rs, ran, same, add_results-same s.results rs same)

  abbrev pub InTurn : Runner → Type 0
  InTurn s =
      (rs : List PairResult) × (in_turn (pairs cfg) ≡ reads rs)
      × ((f : PairResult → ℕ) → total f s.results ≡ total f rs)
      × (add_results no_results s.results ≡ add_results no_results rs)

  CanStep-IsOver : (s : Runner) → IsExact s → CanStep cfg s ⊎ IsOver cfg s
  CanStep-IsOver s exact = split s.playing refl
    where
      split : (is : List ℕ) → s.playing ≡ is → CanStep cfg s ⊎ IsOver cfg s
      split (i ∷ is) e = inl (inl (i, is, subst (λ l. Taken i l is) (sym e) here))
      split [] e = elim (Bool-cases (s.next == pairs cfg)) [
        | inl all ↦ inr (e, inl ((==_iff s.next (pairs cfg)).0 all))
        | inr some_left ↦
            let idle = ap at_work e in
            inl (
              inr (
                s.idle - 1,
                omega (arith, idle, exact.held, workers-pos cfg),
                ground (arith, exact.within, some_left),
              ))
      ]

  -- However the workers of a match are scheduled: while it is not cancelled, a pair is being played,
  -- or a worker can take the next one, or the match is over and has received the results of the pairs
  -- that playing them one after the other gives, so that every sum over the results is the same, and
  -- so is the tally of RunMatch.
  pub Reach-InTurn :
      {s : Runner}
      → Reach z g cfg search candidate incumbent on_result s
      → s.cancelled ≡ false
      → CanStep cfg s ⊎ (IsOver cfg s × InTurn s)
  Reach-InTurn {s} reach alive = elim (CanStep-IsOver s (Reach-IsExact reach alive)) [
    | inl steps ↦ inl steps
    | inr over ↦ inr (over, Reach-in_turn reach over alive)
  ]

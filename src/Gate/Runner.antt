-- ===== src/Gate/Runner.antt =====
-- runPairs of internal/gate/match.go: the goroutines of a match as steps. The consumer is told of
-- results in `results`, in the order in which they arrive.
pub mod Sums
pub mod Complete
use novachess.Prelude.{
  ℕ, suc, ◌/◌, ◌<◌, ◌⊎◌, Bool, true, false, ◌||◌, List, [], ◌∷◌, ◌++◌, ◌≡◌, ltb, if◌then◌else◌,
}
use novachess.Prelude.Int.{ℤ, pos_part}
use novachess.Chess.Attacks.{Magics}
use novachess.Chess.Zobrist.{Keys}
use novachess.Chess.Position.{Position}
use novachess.Chess.Fen.{Reading, reads, refuses}
use novachess.Pipeline.Coordinator.Interleaving.{Taken}
use novachess.Gate.Match.{MatchConfig, PairResult, Found, play_pair}

-- `next` is the index that the feeder offers, `idle` the number of workers that wait for one.
pub record Runner : Type 0 where
  pub next : ℕ
  pub playing : List ℕ
  pub idle : ℕ
  pub results : List PairResult
  pub cancelled : Bool
  pub failed : Bool

unfoldable pub pairs : MatchConfig → ℕ
pairs cfg = pos_part cfg.max_games / 2

unfoldable pub workers : MatchConfig → ℕ
unfolding pairs
workers cfg =
    let most =
      if ltb (pairs cfg) (pos_part cfg.concurrency) then pairs cfg else pos_part cfg.concurrency in
    if ltb most 1 then 1 else most

unfoldable pub start : MatchConfig → Runner
unfolding workers
start cfg = record {
  next = 0;
  playing = [];
  idle = workers cfg;
  results = [];
  cancelled = false;
  failed = false;
}

unfoldable pub take_index : Runner → ℕ → Runner
take_index s waiting = record s { next = suc s.next; playing = s.next ∷ s.playing; idle = waiting }

-- `stop` is what `onResult` returns.
unfoldable pub deliver : Bool → Runner → List ℕ → PairResult → Runner
deliver stop s others r = record s {
  playing = others;
  idle = suc s.idle;
  results = s.results ++ r ∷ [];
  cancelled = s.cancelled || stop;
}

-- The worker whose pair fails is gone.
unfoldable pub fail : Runner → List ℕ → Runner
fail s others = record s { playing = others; cancelled = true; failed = true }

module _ (z : Keys) (g : Magics) (cfg : MatchConfig) {S : Type 0}
    (search : ℤ → Bool → S → Position → Found × S) (candidate incumbent : S)
    (on_result : List PairResult → PairResult → Bool) where
  -- The states of a match. The context can have ended in a pair only if it is cancelled when the pair
  -- is done.
  pub data Reach : Runner → Type 0 where
    starts : Reach (start cfg)
    takes :
        {s : Runner} (waiting : ℕ)
        → Reach s
        → s.next < pairs cfg
        → s.idle ≡ suc waiting
        → Reach (take_index s waiting)
    delivers :
        {s : Runner} (i : ℕ) (others : List ℕ) (r : PairResult) (ends : ℕ → ℕ → Bool)
        → Reach s
        → Taken i s.playing others
        → (s.cancelled ≡ false → (game ply : ℕ) → ends game ply ≡ false)
        → play_pair z g cfg search ends candidate incumbent i ≡ reads r
        → Reach (deliver (on_result s.results r) s others r)
    fails :
        {s : Runner} (i : ℕ) (others : List ℕ) (ends : ℕ → ℕ → Bool)
        → Reach s
        → Taken i s.playing others
        → (s.cancelled ≡ false → (game ply : ℕ) → ends game ply ≡ false)
        → play_pair z g cfg search ends candidate incumbent i ≡ refuses
        → Reach (fail s others)
    cancels : {s : Runner} → Reach s → Reach (record s { cancelled = true })

-- No worker plays, and the feeder has nothing left to offer or has been told to stop.
abbrev pub IsOver : MatchConfig → Runner → Type 0
IsOver cfg s = (s.playing ≡ []) × ((s.next ≡ pairs cfg) ⊎ (s.cancelled ≡ true))

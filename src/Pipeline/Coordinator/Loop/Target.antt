-- ===== src/Pipeline/Coordinator/Loop/Target.antt =====
-- A dataset is announced with as many positions as a generation is to have.
use native.Mathlib.Omega.{arith}
use novachess.Prelude.{
  ℕ, ◌+◌, ◌<◌, ◌^◌, Bool, true, false, none, some, List, [], ◌∷◌, ◌++◌, ◌≡◌, sym, ◌≢◌, subst, ◌∙◌,
  inl, inr, Bool-cases, Option-cases, ◌>>=◌,
}
use novachess.Prelude.Int.{ℤ, ◌≤ℤ◌, leb_ℤ}
use novachess.Prelude.Text.{Text, codes, print_int}
use novachess.Pipeline.Events.{GameBatch}
use novachess.Pipeline.Store.{Store}
use novachess.Pipeline.Coordinator.{Config, Coordinator, new, handle_batch}
use novachess.Pipeline.Coordinator.Issue.{Round, top_up}
use novachess.Pipeline.Coordinator.Resume.{scan, resume}
use novachess.Pipeline.Coordinator.Loop.{
  Event, delivers, ticks, finds_done, context_ends, announce, after_top_up, select, run_early,
  resumed, run_generation,
}
use novachess.Pipeline.Coordinator.Loop.Honest.{
  AllAdd, EventsAdd, offered, events_offer, records, Honest, new-Honest, handle_batch-Honest,
  run_early-Honest, resume-Honest, run_early-generation, new-generation,
}
use novachess.Pipeline.Coordinator.Loop.Waiting.{
  AllAccept, AreCalm, ends_checked, MeetsTarget, calmer, announce-MeetsTarget, Waiting,
  after_top_up-MeetsTarget, if-MeetsTarget, checked_or_short, open_still,
}

module _ (sum : Text → Text) (s : Store) where
  handle_batch-closes :
      (target : ℤ) (c : Coordinator) (b : GameBatch)
      → c.cfg.positions_per_generation ≡ target
      → (leb_ℤ target c.positions ≡ true → c.done ≡ true)
      → leb_ℤ target (handle_batch sum s c b).positions ≡ true
      → (handle_batch sum s c b).done ≡ true
  unfolding handle_batch
  handle_batch-closes target c b aims closes h = ground arith

  select-MeetsTarget :
      (target : ℤ) (checked : Bool) (c : Coordinator) (es : List Event)
      → EventsAdd es
      → Waiting target (events_offer es) checked c
      → MeetsTarget target (AreCalm es) (ends_checked checked es) (select sum s c es)
  unfolding select
  select-MeetsTarget target checked c [] a v = checked_or_short target _ checked c v
  select-MeetsTarget target checked c (delivers b ∷ es) (add, a) v =
      select-MeetsTarget target false (handle_batch sum s c b) es a (record {
        honest = handle_batch-Honest sum s c b add v.honest;
        closes = handle_batch-closes target c b v.honest.aims v.closes;
        unseen = λ e. cc;
      })
  select-MeetsTarget target checked c (ticks world ∷ es) a v =
      after_top_up-MeetsTarget target (events_offer es) checked (ends_checked checked es)
        (AreCalm es) world c (λ d. select sum s d es) v
        (λ d h. select-MeetsTarget target checked d es a h)
  select-MeetsTarget target checked c (finds_done takes ∷ es) a v =
      if-MeetsTarget target (AreCalm (finds_done takes ∷ es)) (ends_checked true es) c.done
        (some (announce takes c)) (select sum s c es)
        (λ closed. announce-MeetsTarget target _ _ takes c (λ m. m.0) (v.honest.reached closed))
        (λ still_open.
          calmer target (AreCalm es) (AreCalm (finds_done takes ∷ es)) (ends_checked true es)
            (select sum s c es) (λ m. m.1)
            (select-MeetsTarget target true c es a
              (record { honest = v.honest; closes = v.closes; unseen = λ e. still_open })))
  select-MeetsTarget target checked c (context_ends ∷ es) a v = λ m. m

  resumed-MeetsTarget :
      (target : ℤ) (takes : Bool) (world : ℕ → Round) (d : Coordinator) (es : List Event)
      → EventsAdd es
      → Honest target (events_offer es) d
      → MeetsTarget target
          ((takes ≡ true) × AllAccept world × AreCalm es)
          (ends_checked true es)
          (resumed sum s takes world d es)
  unfolding resumed
  resumed-MeetsTarget target takes world d es a v =
      elim (Bool-cases (leb_ℤ d.cfg.positions_per_generation d.positions)) [
        | inl enough ↦
            let below : d.cfg.positions_per_generation ≤ℤ d.positions = ground arith in
            rw enough (
              announce-MeetsTarget target _ _ takes d (λ m. m.0)
                (subst (λ t. t ≤ℤ d.positions) v.aims below))
        | inr short ↦
            let few : leb_ℤ target d.positions ≡ false =
              subst (λ t. leb_ℤ t d.positions ≡ false) v.aims short in
            rw short (
              calmer target (AllAccept world × AreCalm es)
                ((takes ≡ true) × AllAccept world × AreCalm es) (ends_checked true es)
                (top_up world d >>= λ o. after_top_up o (λ e. select sum s e es))
                (λ (_, w, m). (w, m))
                (after_top_up-MeetsTarget target (events_offer es) true (ends_checked true es)
                  (AreCalm es) world d (λ e. select sum s e es) (starts few)
                  (λ e h. select-MeetsTarget target true e es a h)))
      ]
    where
      starts : leb_ℤ target d.positions ≡ false → Waiting target (events_offer es) true d
      starts few = record {
        honest = v;
        closes = λ e. cc;
        unseen = λ e. (let reached = v.reached in open_still target d d.done reached few);
      }

  -- The listing of the generation's artifacts is answered, and nothing else goes wrong.
  abbrev pub IsCalm : Config → Bool → Bool → Bool → (ℕ → Round) → List Event → Type 0
  IsCalm cfg subscribed interrupted takes world es =
      (subscribed ≡ true)
      × (interrupted ≡ false)
      × (s.list (codes "gen" ++ print_int cfg.generation) ≢ none)
      × (takes ≡ true)
      × AllAccept world
      × AreCalm es

  resume-stops :
      (interrupted : Bool) (c : Coordinator)
      → resume s interrupted c ≡ none
      → interrupted ≡ false
      → s.list (codes "gen" ++ print_int c.generation) ≢ none
      → ⊥
  unfolding resume
  resume-stops interrupted c h e listed = ground arith

  -- Whatever happens while a generation runs, in whatever order, it does not want for rounds. It
  -- announces a dataset only with at least as many positions as the configuration asks for; it is
  -- left waiting only when the channel has not been looked at since the last batch, or with fewer
  -- positions than that; and it returns an error only when it could not subscribe or list the
  -- artifacts, the context ended, or the bus refused a unit or the announcement. All this when no
  -- batch has a negative number of positions, and those of the batches and of the artifacts that
  -- resume finds are together less than 2 ^ 63.
  pub run_generation-MeetsTarget :
      (cfg : Config) (c : Coordinator) (subscribed interrupted takes : Bool)
      (early : List GameBatch) (world : ℕ → Round) (es : List Event)
      → new cfg ≡ some c
      → AllAdd early
      → EventsAdd es
      → ((uris : List Text)
          → s.list (codes "gen" ++ print_int cfg.generation) ≡ some uris
          → offered early + (records (scan s cfg.generation uris) + events_offer es) < 2 ^ 63)
      → MeetsTarget cfg.positions_per_generation
          (IsCalm cfg subscribed interrupted takes world es)
          (ends_checked true es)
          (run_generation sum s subscribed early interrupted takes world c es)
  unfolding run_generation
  run_generation-MeetsTarget cfg c false interrupted takes early world es h ae a fits =
      λ m. (let e = m.0 in cc)
  run_generation-MeetsTarget cfg c true interrupted takes early world es h ae a fits =
      elim (Option-cases (resume s interrupted (run_early sum s c early))) [
        | inl stops ↦ rw stops (λ m.
            resume-stops interrupted (run_early sum s c early) stops m.1
              (subst (λ g. s.list (codes "gen" ++ print_int g) ≢ none) (sym same) m.2))
        | inr (d, e) ↦ rw e (
            calmer cfg.positions_per_generation ((takes ≡ true) × AllAccept world × AreCalm es)
              (IsCalm cfg true interrupted takes world es) (ends_checked true es)
              (resumed sum s takes world d es) (λ (_, _, _, t, w, m). (t, w, m))
              (resumed-MeetsTarget cfg.positions_per_generation takes world d es a
                (resume-Honest sum s interrupted (run_early sum s c early) d e honest)))
      ]
    where
      same : (run_early sum s c early).generation ≡ cfg.generation
      same = run_early-generation sum s c early ∙ new-generation cfg c h

      honest :
          (uris : List Text)
          → s.list (codes "gen" ++ print_int ((run_early sum s c early).generation)) ≡ some uris
          → Honest cfg.positions_per_generation
              (records (scan s (run_early sum s c early).generation uris) + events_offer es)
              (run_early sum s c early)
      honest uris listed = rw same (
          run_early-Honest sum s c early ae (
            new-Honest cfg c _ h (
              fits uris
                (subst (λ g. s.list (codes "gen" ++ print_int g) ≡ some uris) same listed))))

-- ===== src/Pipeline/Coordinator/Loop.antt =====
-- RunGeneration of internal/coordinator/coordinator.go. What happens while it waits is a list of
-- events: the case that `select` took, or a batch that was handled meanwhile. A generation that is
-- still waiting after the last event has not returned.
pub mod Honest
pub mod Waiting
pub mod Target
use novachess.Prelude.{
  ℕ, Bool, true, false, Option, none, some, List, [], ◌∷◌, if◌then◌else◌, ◌>>=◌,
}
use novachess.Prelude.Int.{leb_ℤ}
use novachess.Prelude.Text.{Text}
use novachess.Pipeline.Events.{GameBatch, DatasetReady}
use novachess.Pipeline.Store.{Store}
use novachess.Pipeline.Coordinator.{Coordinator, handle_batch, announcement}
use novachess.Pipeline.Coordinator.Issue.{Round, Result, Issued, filled, stopped, failed, top_up}
use novachess.Pipeline.Coordinator.Resume.{resume}

-- `finds_done` is the case of the closed channel, with whether the bus takes the announcement.
pub data Event : Type 0 where
  delivers : GameBatch → Event
  ticks : (ℕ → Round) → Event
  finds_done : Bool → Event
  context_ends : Event

pub data Status : Type 0 where
  waits : Coordinator → Status
  announced : DatasetReady → Coordinator → Status
  errs : Coordinator → Status

unfoldable pub announce : Bool → Coordinator → Status
unfolding announcement
announce takes c = if takes then announced (announcement c) c else errs c

-- What RunGeneration does with the result of topUp.
abbrev pub after_top_up : Issued → (Coordinator → Option Status) → Option Status
after_top_up o next = elim o.result [
  | filled ↦ next o.after
  | stopped ↦ some (errs o.after)
  | failed ↦ some (errs o.after)
]

module _ (sum : Text → Text) (s : Store) where
  -- The case of a channel that is not closed is never taken.
  unfoldable pub select : Coordinator → List Event → Option Status
  unfolding handle_batch top_up announce
  select c [] = some (waits c)
  select c (delivers b ∷ es) = select (handle_batch sum s c b) es
  select c (ticks world ∷ es) = top_up world c >>= λ o. after_top_up o (λ d. select d es)
  select c (finds_done takes ∷ es) =
      let rest = select c es in if c.done then some (announce takes c) else rest
  select c (context_ends ∷ es) = some (errs c)

  -- `early` are the batches handled after Subscribe and before resume applies what it found.
  unfoldable pub run_early : Coordinator → List GameBatch → Coordinator
  unfolding handle_batch
  run_early c [] = c
  run_early c (b ∷ bs) = run_early (handle_batch sum s c b) bs

  unfoldable pub resumed : Bool → (ℕ → Round) → Coordinator → List Event → Option Status
  unfolding announce top_up select
  resumed takes world d es =
      if leb_ℤ d.cfg.positions_per_generation d.positions
      then some (announce takes d)
      else top_up world d >>= λ o. after_top_up o (λ e. select e es)

  unfoldable pub run_generation :
      Bool → List GameBatch → Bool → Bool → (ℕ → Round) → Coordinator → List Event → Option Status
  unfolding run_early resume resumed
  run_generation subscribed early interrupted takes world c es =
      if subscribed
      then (let c' = run_early c early in
          elim (resume s interrupted c') [
            | none ↦ some (errs c')
            | some d ↦ resumed takes world d es
          ])
      else some (errs c)

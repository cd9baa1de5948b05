-- ===== src/Pipeline/Coordinator.antt =====
-- internal/coordinator/coordinator.go: the configuration, the state, and handleBatch with the two
-- sections that it runs under the lock. The sums of positions and games
-- wrap as a Go `int` of 64 bits does; the maps are lists of their keys. Logging is left out.
pub mod Naming
pub mod Issue
pub mod Resume
pub mod Loop
pub mod Reports
pub mod Interleaving
pub mod Examples
use novachess.Prelude.{
  ℕ, ◌+◌, Bool, true, false, not, ◌&&◌, ◌||◌, Option, none, some, List, [], ◌∷◌, ◌++◌,
  if◌then◌else◌,
}
use novachess.Prelude.Int.{ℤ, pos, add_int, ◌==ℤ◌, ltb_ℤ, leb_ℤ}
use novachess.Prelude.Text.{Text, ◌==*◌}
use novachess.Pipeline.Events.{Envelope, GameBatch, DatasetReady, unmarshal}
use novachess.Pipeline.Store.{Artifact, Store, verify, length}

pub record Config : Type 0 where
  pub generation : ℤ
  pub positions_per_generation : ℤ
  pub games_per_unit : ℤ
  pub nodes_per_move : ℤ
  pub random_plies : ℤ
  pub units_in_flight : ℤ
  pub seed : ℕ
  pub network_uri : Text

unfoldable pub validate : Config → Bool
validate c = not (
    ltb_ℤ c.generation (pos 0)
    || leb_ℤ c.positions_per_generation (pos 0)
    || leb_ℤ c.games_per_unit (pos 0)
    || leb_ℤ c.nodes_per_move (pos 0)
    || leb_ℤ c.units_in_flight (pos 0))

-- `done` is whether the channel is closed; `covered` holds indices of units.
pub record Coordinator : Type 0 where
  pub cfg : Config
  pub resolved : List Text
  pub artifacts : List Text
  pub positions : ℤ
  pub games : ℤ
  pub issued : ℕ
  pub generation : ℤ
  pub done : Bool
  pub next_index : ℕ
  pub covered : List ℕ

-- The bus and the store are given in the model, so only the configuration can be refused.
unfoldable pub new : Config → Option Coordinator
unfolding validate
new cfg =
    if validate cfg
    then some (record {
      cfg = cfg;
      resolved = [];
      artifacts = [];
      positions = pos 0;
      games = pos 0;
      issued = 0;
      generation = cfg.generation;
      done = false;
      next_index = 0;
      covered = [];
    })
    else none

abbrev pub among : Text → List Text → Bool
among t [] = false
among t (x ∷ xs) = x ==* t || among t xs

-- The first section under the lock: whether the batch is new, with its unit marked if so.
unfoldable pub begin_batch : Coordinator → GameBatch → Coordinator × Bool
unfolding ◌==*◌
begin_batch c b =
    if not (b.generation ==ℤ c.generation)
    then (c, false)
    else if among b.work_unit_id c.resolved
    then (c, false)
    else (record c { resolved = b.work_unit_id ∷ c.resolved }, true)

unfoldable pub has_positions : GameBatch → Bool
unfolding ◌==*◌
has_positions b = not (b.positions ==ℤ pos 0 || b.artifact_uri ==* [])

unfoldable pub artifact_of : GameBatch → Artifact
artifact_of b = record { uri = b.artifact_uri; size = b.size_bytes; checksum = b.checksum }

-- The second section under the lock, and the channel that is closed when the target is reached.
unfoldable pub count_batch : Coordinator → GameBatch → Coordinator
count_batch c b =
    let positions = add_int c.positions b.positions in
    record c {
      artifacts = c.artifacts ++ b.artifact_uri ∷ [];
      positions = positions;
      games = add_int c.games b.games;
      done = c.done || leb_ℤ c.cfg.positions_per_generation positions;
    }

-- The hash and the store of the coordinator.
module _ (sum : Text → Text) (s : Store) where
  unfoldable pub is_good : GameBatch → Bool
  unfolding has_positions artifact_of verify
  is_good b = has_positions b && verify sum s (artifact_of b)

  unfoldable pub finish_batch : Coordinator → GameBatch → Coordinator
  unfolding count_batch is_good
  finish_batch c b = if is_good b then count_batch c b else c

  unfoldable pub handle_batch : Coordinator → GameBatch → Coordinator
  unfolding begin_batch finish_batch
  handle_batch c b = let (c', new) = begin_batch c b in if new then finish_batch c' b else c'

  -- An envelope that cannot be read is dropped.
  unfoldable pub handle_message : (Text → Option GameBatch) → Coordinator → Envelope → Coordinator
  unfolding handle_batch unmarshal
  handle_message decode c env = elim (unmarshal decode env) [ none ↦ c | some b ↦ handle_batch c b ]

pub record Progress : Type 0 where
  pub generation : ℤ
  pub positions : ℤ
  pub games : ℤ
  pub batches : ℕ
  pub issued : ℕ
  pub complete : Bool

unfoldable pub progress : Coordinator → Progress
progress c = record {
  generation = c.generation;
  positions = c.positions;
  games = c.games;
  batches = length c.artifacts;
  issued = c.issued;
  complete = false;
}

-- The message that `announce` publishes.
unfoldable pub announcement : Coordinator → DatasetReady
announcement c = record {
  generation = c.generation;
  artifact_uris = c.artifacts;
  positions = c.positions;
  baseline_network_uri = c.cfg.network_uri;
}

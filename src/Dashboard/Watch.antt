-- ===== src/Dashboard/Watch.antt =====
-- WatchEvents of internal/dashboard/eventswatch.go: the progress of a generation, and the facts that
-- are noted in the history, each delivered any number of times.
pub mod Replayed
pub mod Synced
use novachess.Prelude.{
  ℕ, suc, Bool, true, false, not, ◌&&◌, ◌||◌, Option, none, some, List, [], ◌∷◌, if◌then◌else◌,
}
use novachess.Prelude.Int.{ℤ, pos, add_int, ◌==ℤ◌}
use novachess.Prelude.Text.{Text, codes, ◌==*◌}
use novachess.Pipeline.Events.{GameBatch}
use novachess.Pipeline.Coordinator.{among}
use novachess.Dashboard.History.{Record, History, Write, append_if_absent}

-- GenProgress, without its target and its time.
pub record GenProgress : Type 0 where
  pub generation : ℤ
  pub positions : ℤ
  pub batches : ℕ

-- The progress, and the units seen of its generation.
pub record Watcher : Type 0 where
  pub progress : GenProgress
  pub seen : List Text

-- With the progress that is noted in the state, if any.
unfoldable pub watch_batch : Watcher → GameBatch → Watcher × Option GenProgress
unfolding ◌==*◌
watch_batch w b =
    let fresh : Watcher = record {
      progress = record { generation = b.generation; positions = pos 0; batches = 0 };
      seen = [];
    } in
    let w' = if b.generation ==ℤ w.progress.generation then w else fresh in
    let counted = record (w'.progress) {
      positions = add_int w'.progress.positions b.positions;
      batches = suc w'.progress.batches;
    } in
    if among b.work_unit_id w'.seen
    then (w', none)
    else (record { progress = counted; seen = b.work_unit_id ∷ w'.seen }, some counted)

-- A dataset that is ready, or a verdict on a network.
pub data Fact : Type 0 where
  dataset : ℤ → ℤ → Fact
  verdict : Bool → ℤ → Text → Text → Fact

unfoldable pub record_of : Fact → Record
record_of (dataset generation positions) = record {
  type_name = codes "dataset";
  generation = generation;
  positions = positions;
  is_promoted = false;
  reason = [];
  network_uri = [];
}
record_of (verdict promoted generation uri reason) = record {
  type_name = codes "gate";
  generation = generation;
  positions = pos 0;
  is_promoted = promoted;
  reason = reason;
  network_uri = uri;
}

unfoldable pub matches_of : Fact → Record → Bool
unfolding ◌==*◌
matches_of (dataset generation positions) r =
    r.type_name ==* codes "dataset" && r.generation ==ℤ generation
matches_of (verdict promoted generation uri reason) r =
    r.type_name ==* codes "gate" && r.generation ==ℤ generation && r.network_uri ==* uri

module _ (encode : Record → Text) where
  unfoldable pub note : Write → History → Fact → History × Bool
  unfolding append_if_absent record_of matches_of
  note write h f = append_if_absent encode write h (record_of f) (matches_of f)

  -- Facts that are delivered one after the other, with what the file system answers each time.
  unfoldable pub note_all : History → List (Write × Fact) → History
  unfolding note
  note_all h [] = h
  note_all h ((write, f) ∷ fs) = note_all ((note write h f).0) fs

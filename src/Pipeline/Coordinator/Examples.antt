-- ===== src/Pipeline/Coordinator/Examples.antt =====
-- A small generation that the theorems of the coordinator are applied to.
use native.Mathlib.Omega.{arith}
use novachess.Prelude.{
  ℕ, ◌+◌, ◌<◌, ◌^◌, List, subst, true, false, none, some, [], ◌∷◌, ◌++◌, ◌≡◌, ◌≢◌, refl, inl,
  if◌then◌else◌,
}
use novachess.Prelude.Int.{pos, add_int}
use novachess.Prelude.Text.{Text, codes, print_int, ◌==*◌, max_int}
use novachess.Pipeline.Events.{GameBatch}
use novachess.Pipeline.Store.{Store}
use novachess.Pipeline.Framing.{header, file_extension}
use novachess.Pipeline.Coordinator.{
  Config, Coordinator, new, among, begin_batch, count_batch, is_good,
}
use novachess.Pipeline.Coordinator.Naming.{unit_id, unit_index, unit_seed, unit}
use novachess.Pipeline.Coordinator.Naming.RoundTrip.{unit_index-unit_id}
use novachess.Pipeline.Coordinator.Naming.Seeds.{unit_seed-apart}
use novachess.Pipeline.Coordinator.Issue.{Round, accepts, filled, Issued, needed, top_up}
use novachess.Pipeline.Coordinator.Issue.Published.{Ran, top_up-Ran}
use novachess.Pipeline.Coordinator.Resume.{Found, check, scan, resume}
use novachess.Pipeline.Coordinator.Resume.Rebuilt.{Rebuilt, resume-Rebuilt}
use novachess.Pipeline.Coordinator.Resume.Fresh.{AllUnits, resume-top_up}
use novachess.Pipeline.Coordinator.Reports.{run, run_redelivered, Counts, counted, run-Counts}
use novachess.Pipeline.Coordinator.Interleaving.{tally_of, here, start, arrives, counts, IsSound}
use novachess.Pipeline.Coordinator.Interleaving.Once.{Reach-IsSound}
use novachess.Pipeline.Coordinator.Loop.{Event, delivers, ticks, finds_done, run_generation}
use novachess.Pipeline.Coordinator.Loop.Honest.{offered, records, events_offer}
use novachess.Pipeline.Coordinator.Loop.Waiting.{MeetsTarget, ends_checked}
use novachess.Pipeline.Coordinator.Loop.Target.{IsCalm, run_generation-MeetsTarget}

abbrev config : Config
config = record {
  generation = pos 0;
  positions_per_generation = pos 2;
  games_per_unit = pos 1;
  nodes_per_move = pos 100;
  random_plies = pos 8;
  units_in_flight = pos 2;
  seed = 1;
  network_uri = [];
}

abbrev fresh : Coordinator
fresh = record {
  cfg = config;
  resolved = [];
  artifacts = [];
  positions = pos 0;
  games = pos 0;
  issued = 0;
  generation = pos 0;
  done = false;
  next_index = 0;
  covered = [];
}

new-config : new config ≡ some fresh
unfolding new
new-config = refl

abbrev directory : Text
directory = codes "/data/gen0"

abbrev stored_at : Text
stored_at = codes "/data/gen0/g0-u000001.novadata"

abbrev zeros32 : Text
zeros32 =
    0 ∷ 0 ∷ 0 ∷ 0 ∷ 0 ∷ 0 ∷ 0 ∷ 0 ∷ 0 ∷ 0 ∷ 0 ∷ 0 ∷ 0 ∷ 0 ∷ 0 ∷ 0 ∷ 0 ∷ 0 ∷ 0 ∷ 0 ∷ 0 ∷ 0 ∷ 0 ∷ 0
    ∷ 0 ∷ 0 ∷ 0 ∷ 0 ∷ 0 ∷ 0 ∷ 0 ∷ 0 ∷ []

-- One record.
abbrev file : Text
file = header ++ zeros32

abbrev disk : Store
disk = record {
  get = λ uri. if uri ==* stored_at then some file else none;
  list = λ prefix. some (stored_at ∷ []);
}

-- A hash that suffices here.
abbrev hash : Text → Text
hash contents = contents

abbrev batch : GameBatch
batch = record {
  work_unit_id = codes "g0-u000001";
  generation = pos 0;
  artifact_uri = stored_at;
  size_bytes = pos 48;
  positions = pos 1;
  games = pos 1;
  checksum = file;
}

abbrev open_bus : ℕ → Round
open_bus n = accepts

abbrev marked : Coordinator
marked = record fresh { resolved = codes "g0-u000001" ∷ [] }

batch_begins : begin_batch fresh batch ≡ (marked, true)
unfolding begin_batch
batch_begins = refl

batch_good : is_good hash disk batch ≡ true
unfolding is_good
batch_good = refl

unit_index-unit_id_example :
    unit_index (pos 0) (directory ++ b'/' ∷ (unit_id (pos 0) 1 ++ file_extension)) ≡ some 1
unfolding max_int
unit_index-unit_id_example = unit_index-unit_id (pos 0) 1 directory (omega arith)

unit_seed-apart_example : unit_seed 1 (pos 0) 7 ≢ unit_seed 1 (pos 0) 8
unit_seed-apart_example = unit_seed-apart 1 (pos 0) 7 8 (omega arith) (omega arith) (omega arith)

top_up-Ran_example : (o : Issued) × (top_up open_bus fresh ≡ some o) × Ran fresh (needed fresh) o
top_up-Ran_example = top_up-Ran open_bus fresh

run_redelivered_example :
    run hash disk (run hash disk fresh (batch ∷ [])) (batch ∷ batch ∷ [])
    ≡ run hash disk fresh (batch ∷ [])
run_redelivered_example =
    run_redelivered hash disk fresh (batch ∷ []) (batch ∷ batch ∷ []) (inl refl, (inl refl, tt))

run-Counts_example :
    Counts fresh
      (counted hash disk fresh (batch ∷ batch ∷ []))
      (run hash disk fresh (batch ∷ batch ∷ []))
run-Counts_example = run-Counts hash disk fresh (batch ∷ batch ∷ [])

Reach-IsSound_example : IsSound (count_batch marked batch) [] (tally_of batch ∷ [])
Reach-IsSound_example =
    Reach-IsSound hash
      (counts disk (arrives batch (start config new-config) batch_begins) here batch_good)

abbrev waiting : List Event
waiting = delivers batch ∷ ticks open_bus ∷ finds_done true ∷ []

-- What resume finds on the disk is one record.
disk_holds :
    (uris : List Text)
    → disk.list (codes "gen" ++ print_int (pos 0)) ≡ some uris
    → offered [] + (records (scan disk (pos 0) uris) + events_offer waiting) < 2 ^ 63
unfolding check
disk_holds uris listed =
    let them : stored_at ∷ [] ≡ uris = cc in
    subst (λ us. offered [] + (records (scan disk (pos 0) us) + events_offer waiting) < 2 ^ 63) them
      (omega arith)

run_generation-MeetsTarget_example :
    MeetsTarget
      (pos 2)
      (IsCalm hash disk config true false true open_bus waiting)
      (ends_checked true waiting)
      (run_generation hash disk true [] false true open_bus fresh waiting)
run_generation-MeetsTarget_example =
    run_generation-MeetsTarget hash disk config fresh true false true [] open_bus waiting new-config
      tt (omega arith) disk_holds

abbrev found : Found
found = record { number = 1; uri = stored_at; n = 1 }

stored_itself : among stored_at (stored_at ∷ []) ≡ true
unfolding ◌==*◌
stored_itself = refl

disk_checks : check disk (pos 0) stored_at ≡ some found
unfolding check
disk_checks = refl

abbrev restarted : Coordinator
restarted = record fresh {
  resolved = codes "g0-u000001" ∷ [];
  covered = 1 ∷ [];
  artifacts = stored_at ∷ [];
  positions = pos 1;
  issued = 1;
}

disk_resumes : resume disk false fresh ≡ some restarted
unfolding resume add_int
disk_resumes = refl

resume-Rebuilt_example : Rebuilt disk restarted
resume-Rebuilt_example = resume-Rebuilt disk config false fresh restarted new-config disk_resumes

-- Units 0 and 2.
abbrev topped : Issued
topped = record {
  after = record restarted { next_index = 3; issued = 3 };
  published = unit restarted 0 ∷ unit restarted 2 ∷ [];
  result = filled;
}

tops_up : top_up open_bus restarted ≡ some topped
unfolding top_up unit
tops_up = refl

resume-top_up_example : AllUnits (λ u. u.id ≢ unit_id (pos 0) 1) topped.published
unfolding max_int
resume-top_up_example =
    resume-top_up disk config open_bus fresh restarted topped (stored_at ∷ []) stored_at found
      new-config disk_resumes refl stored_itself disk_checks tops_up (omega arith)

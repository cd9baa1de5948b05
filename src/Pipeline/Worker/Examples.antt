-- ===== src/Pipeline/Worker/Examples.antt =====
-- A worker with a store in memory that the theorem on its handling is applied to.
use novachess.Prelude.{ℕ, false, Option, none, some, List, [], ◌∷◌, ◌++◌, if◌then◌else◌}
use novachess.Prelude.Int.{ℤ, pos}
use novachess.Prelude.Text.{Text, codes, ◌==*◌}
use novachess.Pipeline.Events.{Envelope, WorkUnit}
use novachess.Pipeline.Store.{Artifact, Store, length}
use novachess.Pipeline.Coordinator.{Coordinator}
use novachess.Pipeline.Coordinator.Naming.{zeros, unit}
use novachess.Pipeline.Worker.{Worker}

abbrev hash : Text → Text
hash contents = contents

abbrev uri_of : Text → Text
uri_of key = codes "file:///d" ++ b'/' ∷ key

abbrev written : Text → Text → Artifact
written key contents = record {
  uri = uri_of key;
  size = pos (length contents);
  checksum = hash contents;
}

abbrev with_file : Store → Text → Text → Store
with_file s uri contents = record s { get = λ u. if uri ==* u then some contents else s.get u }

abbrev put_file : Text → Text → Store → Option (Artifact × Store)
put_file key contents s = some (written key contents, with_file s (uri_of key) contents)

-- What can be read of what Put answers.
abbrev content_of : Option (Artifact × Store) → Option Text
content_of none = none
content_of (some (a, s)) = s.get a.uri

abbrev artifact_in : Option (Artifact × Store) → Artifact
artifact_in none = written [] []
artifact_in (some (a, s)) = a

-- A sample is a number; its record has that byte first.
abbrev encode : ℕ → Option Text
encode x = some (x ∷ zeros 31)

abbrev size_of : Option Text → ℕ
size_of none = 0
size_of (some t) = length t

abbrev asking : Coordinator
asking = record {
  cfg = record {
    generation = pos 1;
    positions_per_generation = pos 2;
    games_per_unit = pos 1;
    nodes_per_move = pos 100;
    random_plies = pos 8;
    units_in_flight = pos 2;
    seed = 1;
    network_uri = [];
  };
  resolved = [];
  artifacts = [];
  positions = pos 0;
  games = pos 0;
  issued = 4;
  generation = pos 1;
  done = false;
  next_index = 4;
  covered = [];
}

abbrev no_files : Store
no_files = record { get = λ u. none; list = λ prefix. none }

abbrev idle_worker : Worker ℕ
idle_worker = record {
  cfg = record { id = codes "pod"; hash_mb = pos 16 };
  current = [];
  completed = 0;
  networks = [];
}

abbrev assignment : Envelope
assignment = record { id = codes "m"; schema_version = pos 1; payload = codes "unit 3" }

abbrev decode : Text → Option WorkUnit
decode payload = some (unit asking 3)

abbrev plays_two : ℤ → ℕ → WorkUnit → Option (List ℕ × ℤ)
plays_two mb e u = some (5 ∷ 6 ∷ [], pos 1)

abbrev no_network : Text → Option ℕ
no_network bytes = none

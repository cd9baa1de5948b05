-- ===== src/Pipeline/Worker.antt =====
-- internal/worker/worker.go: what a worker does with a unit, with WriteAll of internal/train/format.go.
-- Put of the store, the games that are played (Generate), the encoding of a sample and the reading of
-- a network are arguments, as is whether the bus takes what is published. Heartbeats are left out.
pub mod Recoverable
pub mod Examples
use novachess.Prelude.{
  ℕ, suc, Bool, true, false, not, ◌||◌, Option, none, some, List, [], ◌∷◌, ◌++◌, if◌then◌else◌,
  ◌>>=◌,
}
use novachess.Prelude.Int.{ℤ, pos, ltb_ℤ}
use novachess.Prelude.Text.{Text, codes, ◌==*◌, print_int}
use novachess.Pipeline.Events.{Envelope, WorkUnit, GameBatch, unmarshal}
use novachess.Pipeline.Store.{Artifact, Store, length}
use novachess.Pipeline.Framing.{header, file_extension}

pub record WorkerConfig : Type 0 where
  pub id : Text
  pub hash_mb : ℤ

unfoldable pub validate : WorkerConfig → Bool
unfolding ◌==*◌
validate c = not (c.id ==* [] || ltb_ℤ c.hash_mb (pos 1))

-- `E` is the type of an evaluation; the networks that are cached stand with their URIs.
pub record Worker (E : Type 0) : Type 0 where
  pub cfg : WorkerConfig
  pub current : Text
  pub completed : ℕ
  pub networks : List (Text × E)

-- What has happened when `handle` returns. A unit is acknowledged when it returns no error.
pub record Handled (E : Type 0) : Type 0 where
  pub acked : Bool
  pub worker : Worker E
  pub files : Store
  pub published : Option GameBatch

unfoldable pub find_network : {E : Type 0} → Text → List (Text × E) → Option E
unfolding ◌==*◌
find_network uri [] = none
find_network uri ((u, e) ∷ rest) =
    let later = find_network uri rest in if u ==* uri then some e else later

unfoldable pub batch_key : WorkUnit → Text
unfolding print_int
batch_key unit = (codes "gen" ++ print_int unit.generation) ++ b'/' ∷ (unit.id ++ file_extension)

abbrev pub no_artifact : Artifact
no_artifact = record { uri = []; size = pos 0; checksum = [] }

unfoldable pub write_all : {A : Type 0} → (A → Option Text) → List A → Option Text
write_all encode [] = some []
write_all encode (x ∷ xs) = encode x >>= λ r. write_all encode xs >>= λ rest. some (r ++ rest)

unfoldable pub batch_of : WorkUnit → Artifact → ℕ → ℤ → GameBatch
batch_of unit a positions games = record {
  work_unit_id = unit.id;
  generation = unit.generation;
  artifact_uri = a.uri;
  size_bytes = a.size;
  positions = pos positions;
  games = games;
  checksum = a.checksum;
}

module _ {Sample : Type 0} (encode : Sample → Option Text)
    (put : Text → Text → Store → Option (Artifact × Store)) where
  unfoldable pub store_batch : Store → WorkUnit → List Sample → Option (Artifact × Store)
  unfolding write_all batch_key
  store_batch s unit samples =
      write_all encode samples >>= λ records. put (batch_key unit) (header ++ records) s

  -- Without a position there is no artifact.
  unfoldable pub store_samples : Store → WorkUnit → List Sample → Option (Artifact × Store)
  unfolding store_batch
  store_samples s unit [] = some (no_artifact, s)
  store_samples s unit (x ∷ xs) = store_batch s unit (x ∷ xs)

module _ {E : Type 0} (hce : E) (read_network : Text → Option E) where
  -- No URI is the evaluation written by hand; a network that is fetched is cached.
  unfoldable pub evaluator : Worker E → Store → Text → Option (E × Worker E)
  unfolding ◌==*◌ find_network
  evaluator w s uri =
      let fetched : Option (E × Worker E) = s.get uri >>= λ bytes.
      read_network bytes >>= λ e. some (e, record w { networks = (uri, e) ∷ w.networks }) in
      if uri ==* []
      then some (hce, w)
      else elim (find_network uri w.networks) [ some e ↦ some (e, w) | none ↦ fetched ]

-- A unit that goes back to the queue.
abbrev pub sent_back : {E : Type 0} → Worker E → Store → Handled E
sent_back w s = record { acked = false; worker = w; files = s; published = none }

unfoldable pub publish :
    {E : Type 0} → (GameBatch → Bool) → Worker E → Store → GameBatch → Handled E
publish takes w s b =
    if takes b
    then record {
      acked = true;
      worker = record w { completed = suc w.completed };
      files = s;
      published = some b;
    }
    else sent_back w s

module _ {E Sample : Type 0} (hce : E) (read_network : Text → Option E)
    (generate : ℤ → E → WorkUnit → Option (List Sample × ℤ)) (encode : Sample → Option Text)
    (put : Text → Text → Store → Option (Artifact × Store)) (takes : GameBatch → Bool) where
  unfoldable pub play_unit : E → Worker E → Store → WorkUnit → Handled E
  unfolding store_samples batch_of publish
  play_unit e w s unit = elim (generate w.cfg.hash_mb e unit) [
    | none ↦ sent_back w s
    | some (samples, games) ↦ elim (store_samples encode put s unit samples) [
      | none ↦ sent_back w s
      | some (artifact, s') ↦ publish takes w s' (batch_of unit artifact (length samples) games)
    ]
  ]

  -- `current` is set while the unit is worked on, and empty again when `handle` returns.
  unfoldable pub handle_unit : Worker E → Store → WorkUnit → Handled E
  unfolding evaluator play_unit
  handle_unit w s unit =
      let busy = record w { current = unit.id } in
      let handled : Handled E = elim (evaluator hce read_network busy s unit.network_uri) [
        | none ↦ sent_back busy s
        | some (e, w') ↦ play_unit e w' s unit
      ] in
      record handled { worker = record (handled.worker) { current = [] } }

  -- A unit that cannot be read is dropped.
  unfoldable pub handle : (Text → Option WorkUnit) → Worker E → Store → Envelope → Handled E
  unfolding handle_unit unmarshal
  handle decode w s env = elim (unmarshal decode env) [
    | none ↦ record { acked = true; worker = w; files = s; published = none }
    | some unit ↦ handle_unit w s unit
  ]

-- ===== src/Pipeline/Worker/Recoverable.antt =====
-- What a worker acknowledges is stored, announced, and found again by a coordinator that resumes.
use novachess.Prelude.{ℕ, suc, Bool, true, false, Option, none, some, List, [], ◌∷◌, ◌++◌, ◌≡◌, ◌⊎◌}
use novachess.Prelude.Int.{ℤ, pos}
use novachess.Prelude.Text.{Text}
use novachess.Pipeline.Events.{WorkUnit, GameBatch}
use novachess.Pipeline.Store.{Artifact, Store, length}
use novachess.Pipeline.Framing.{record_size}
use novachess.Pipeline.Coordinator.{Coordinator, is_good}
use novachess.Pipeline.Coordinator.Naming.{unit_id}
use novachess.Pipeline.Coordinator.Resume.{check}
use novachess.Pipeline.Worker.{Worker, Handled}

-- What Put promises: it keeps the contents where the artifact says, under the key's name, and
-- reports their size and hash.
pub record PutKeeps (sum : Text → Text) (put : Text → Text → Store → Option (Artifact × Store))
    : Type 0 where
  pub keeps :
      (key contents : Text) (s s' : Store) (a : Artifact)
      → put key contents s ≡ some (a, s')
      → s'.get a.uri ≡ some contents
  pub sums :
      (key contents : Text) (s s' : Store) (a : Artifact)
      → put key contents s ≡ some (a, s')
      → a.checksum ≡ sum contents
  pub sizes :
      (key contents : Text) (s s' : Store) (a : Artifact)
      → put key contents s ≡ some (a, s')
      → a.size ≡ pos (length contents)
  pub places :
      (key contents : Text) (s s' : Store) (a : Artifact)
      → put key contents s ≡ some (a, s')
      → (dir : Text) × (a.uri ≡ dir ++ b'/' ∷ key)

-- The batch of a coordinator's unit, in a store.
pub record Recovered (sum : Text → Text) (s : Store) (c : Coordinator) (i : ℕ) (b : GameBatch)
    : Type 0 where
  pub unit_is : b.work_unit_id ≡ unit_id c.generation i
  pub generation_is : b.generation ≡ c.generation
  pub content :
      ((b.positions ≡ pos 0) × (b.artifact_uri ≡ []))
      ⊎ ((n : ℕ) × (b.positions ≡ pos (suc n))
          × (is_good sum s b ≡ true)
          × (check s c.generation b.artifact_uri
              ≡ some (record { number = i; uri = b.artifact_uri; n = suc n })))

module _ (sum : Text → Text) {E Sample : Type 0} (hce : E) (read_network : Text → Option E)
    (generate : ℤ → E → WorkUnit → Option (List Sample × ℤ)) (encode : Sample → Option Text)
    (put : Text → Text → Store → Option (Artifact × Store)) (takes : GameBatch → Bool)
    (sized : (x : Sample) (r : Text) → encode x ≡ some r → length r ≡ record_size)
    (put_keeps : PutKeeps sum put) where
  -- An acknowledged unit has been announced and is found again; any other has not been announced.
  abbrev pub Finds : Coordinator → ℕ → Handled E → Type 0
  Finds c i h =
      (h.acked ≡ true → (b : GameBatch) × (h.published ≡ some b) × Recovered sum h.files c i b)
      × (h.acked ≡ false → h.published ≡ none)

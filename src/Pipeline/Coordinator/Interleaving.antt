-- ===== src/Pipeline/Coordinator/Interleaving.antt =====
-- The coordinator's goroutines, interleaved at the sections that run under its lock: messages that
-- arrive, artifacts that turn out good or not while other messages are handled, the rounds of topUp
-- and the results that resume applies, in any order.
pub mod Once
use native.Mathlib.Omega.{arith}
use novachess.Prelude.{
  ℕ, zero, suc, Bool, true, false, not, ◌||◌, Option, none, some, List, [], ◌∷◌, ◌++◌, map, ◌≡◌,
  ◌≢◌, refl, sym, ap, subst, ◌∙◌, ◌⊎◌, inl, inr, if◌then◌else◌, Bool-cases, ◌==◌,
}
use novachess.Prelude.Int.{ℤ, pos, add_int, ◌==ℤ◌, leb_ℤ}
use novachess.Prelude.Text.{Text, ◌==*◌, ==*-refl}
use novachess.Pipeline.Events.{GameBatch}
use novachess.Pipeline.Store.{Store}
use novachess.Pipeline.Coordinator.{
  Config, Coordinator, new, among, begin_batch, count_batch, is_good,
}
use novachess.Pipeline.Coordinator.Naming.{unit_id}
use novachess.Pipeline.Coordinator.Resume.{Found, apply_found}

-- What has been counted: a unit, its artifact and the positions that were added for it.
pub record Tally : Type 0 where
  pub unit_name : Text
  pub uri : Text
  pub positions : ℤ

abbrev pub tally_of : GameBatch → Tally
tally_of b = record { unit_name = b.work_unit_id; uri = b.artifact_uri; positions = b.positions }

abbrev pub tally_found : ℤ → Found → Tally
tally_found g f = record { unit_name = unit_id g f.number; uri = f.uri; positions = pos f.n }

-- One member of a list that is taken out of it.
pub data Taken {ℓ} {A : Type ℓ} (x : A) : List A → List A → Type ℓ where
  here : {xs : List A} → Taken x (x ∷ xs) xs
  there : {y : A} {xs rest : List A} → Taken x xs rest → Taken x (y ∷ xs) (y ∷ rest)

-- The states that a coordinator can be in, with the batches that are being verified and what has
-- been counted, the newest first. The store may answer differently each time.
pub data Reach (sum : Text → Text) : Coordinator → List GameBatch → List Tally → Type 0 where
  start : (cfg : Config) {c : Coordinator} → new cfg ≡ some c → Reach sum c [] []
  arrives :
      {c d : Coordinator} {p : List GameBatch} {k : List Tally} (b : GameBatch)
      → Reach sum c p k
      → begin_batch c b ≡ (d, true)
      → Reach sum d (b ∷ p) k
  ignored :
      {c d : Coordinator} {p : List GameBatch} {k : List Tally} (b : GameBatch)
      → Reach sum c p k
      → begin_batch c b ≡ (d, false)
      → Reach sum d p k
  counts :
      {c : Coordinator} {p q : List GameBatch} {k : List Tally} {b : GameBatch} (s : Store)
      → Reach sum c p k
      → Taken b p q
      → is_good sum s b ≡ true
      → Reach sum (count_batch c b) q (tally_of b ∷ k)
  drops :
      {c : Coordinator} {p q : List GameBatch} {k : List Tally} {b : GameBatch} (s : Store)
      → Reach sum c p k
      → Taken b p q
      → is_good sum s b ≡ false
      → Reach sum c q k
  issues :
      {c : Coordinator} {p : List GameBatch} {k : List Tally}
      → Reach sum c p k
      → Reach sum (record c { next_index = suc c.next_index; issued = suc c.issued }) p k
  passes :
      {c : Coordinator} {p : List GameBatch} {k : List Tally}
      → Reach sum c p k
      → Reach sum (record c { next_index = suc c.next_index }) p k
  restores :
      {c : Coordinator} {p : List GameBatch} {k : List Tally} (f : Found)
      → Reach sum c p k
      → among (unit_id c.generation f.number) c.resolved ≡ false
      → Reach sum (apply_found c f) p (tally_found c.generation f ∷ k)
  reappears :
      {c : Coordinator} {p : List GameBatch} {k : List Tally} (f : Found)
      → Reach sum c p k
      → among (unit_id c.generation f.number) c.resolved ≡ true
      → Reach sum (apply_found c f) p k

abbrev pub uris : List Tally → List Text
uris [] = []
uris (e ∷ k) = uris k ++ e.uri ∷ []

abbrev pub total : List Tally → ℤ
total [] = pos 0
total (e ∷ k) = add_int (total k) e.positions

-- The units counted, then those being verified.
abbrev pub names : List Tally → List GameBatch → List Text
names k p = map (λ (e : Tally). e.unit_name) k ++ map (λ (b : GameBatch). b.work_unit_id) p

abbrev pub Fresh : Text → List Text → Type 0
Fresh id [] = Unit
Fresh id (x ∷ xs) = (x ≢ id) × Fresh id xs

abbrev pub AreDistinct : List Text → Type 0
AreDistinct [] = Unit
AreDistinct (x ∷ xs) = Fresh x xs × AreDistinct xs

abbrev pub AreMarked : List Text → List Text → Type 0
AreMarked ids [] = Unit
AreMarked ids (x ∷ xs) = (among x ids ≡ true) × AreMarked ids xs

-- The units counted and those being verified are different units, all of them marked, and the
-- artifacts and positions are those of what was counted.
pub record IsSound (c : Coordinator) (p : List GameBatch) (k : List Tally) : Type 0 where
  pub distinct : AreDistinct (names k p)
  pub marked : AreMarked c.resolved (names k p)
  pub artifacts_are : c.artifacts ≡ uris k
  pub positions_are : c.positions ≡ total k

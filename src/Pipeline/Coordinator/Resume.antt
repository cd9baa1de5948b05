-- ===== src/Pipeline/Coordinator/Resume.antt =====
-- resume of internal/coordinator/coordinator.go, with countPositions. The artifacts are checked at
-- once in the source, each into its own slot, and then applied in the order of the listing: here
-- they are checked in that order.
pub mod Rebuilt
pub mod Fresh
use novachess.Prelude.{
  ℕ, suc, ◌+◌, Bool, true, false, Option, none, some, List, [], ◌∷◌, ◌++◌, if◌then◌else◌, ◌>>=◌,
}
use novachess.Prelude.Int.{ℤ, pos, add_int}
use novachess.Prelude.Text.{Text, codes, print_int}
use novachess.Pipeline.Store.{Store}
use novachess.Pipeline.Framing.{new_reader, count_records}
use novachess.Pipeline.Coordinator.{Coordinator, among}
use novachess.Pipeline.Coordinator.Naming.{unit_id, unit_index}

pub record Found : Type 0 where
  pub number : ℕ
  pub uri : Text
  pub n : ℕ

unfoldable pub count_positions : Store → Text → Option ℕ
unfolding new_reader count_records
count_positions s uri = s.get uri >>= λ bytes. new_reader bytes >>= count_records

unfoldable pub check : Store → ℤ → Text → Option Found
unfolding unit_index count_positions
check s generation uri = unit_index generation uri >>= λ index.
    count_positions s uri >>= λ n. some (record { number = index; uri = uri; n = n })

abbrev pub keep_found : Option Found → List Found → List Found
keep_found none fs = fs
keep_found (some f) fs = f ∷ fs

abbrev pub scan : Store → ℤ → List Text → List Found
scan s generation [] = []
scan s generation (uri ∷ uris) = keep_found (check s generation uri) (scan s generation uris)

-- `issued` grows with `resolved`, so that the unit is not outstanding.
unfoldable pub apply_found : Coordinator → Found → Coordinator
unfolding unit_id
apply_found c f =
    let id = unit_id c.generation f.number in
    if among id c.resolved then c else record c {
      resolved = id ∷ c.resolved;
      covered = f.number ∷ c.covered;
      artifacts = c.artifacts ++ f.uri ∷ [];
      positions = add_int c.positions (pos f.n);
      issued = suc c.issued;
    }

abbrev pub apply_all : Coordinator → List Found → Coordinator
apply_all c [] = c
apply_all c (f ∷ fs) = apply_all (apply_found c f) fs

-- `interrupted` is whether the context was seen to end before the scan was over.
unfoldable pub resume : Store → Bool → Coordinator → Option Coordinator
unfolding check apply_found
resume s interrupted c = s.list (codes "gen" ++ print_int c.generation) >>= λ uris.
    if interrupted then none else some (apply_all c (scan s c.generation uris))

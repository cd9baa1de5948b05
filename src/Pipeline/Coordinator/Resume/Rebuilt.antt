-- ===== src/Pipeline/Coordinator/Resume/Rebuilt.antt =====
-- What resume rebuilds.
use native.Mathlib.Omega.{arith}
use novachess.Prelude.{
  ℕ, ◌+◌, ◌≤◌, Bool, Option, none, some, List, [], ◌∷◌, ◌++◌, map, ◌≡◌, refl, sym, ap, subst, ◌∙◌,
  >>=-eq-some, Bool-cases, ==_iff, ◌==◌, false, inl, inr,
}
use novachess.Prelude.Int.{ℤ, pos, add_int, wrap_int, add_int_wrapped}
use novachess.Prelude.Text.{Text, max_int, ◌==*◌, ==*-refl}
use novachess.Pipeline.Store.{Store, length}
use novachess.Pipeline.Coordinator.{Config, Coordinator, new, among}
use novachess.Pipeline.Coordinator.Naming.{unit_id, unit_index}
use novachess.Pipeline.Coordinator.Naming.RoundTrip.{unit_index-le}
use novachess.Pipeline.Coordinator.Issue.{elem}
use novachess.Pipeline.Coordinator.Resume.{
  Found, count_positions, check, keep_found, scan, apply_found, apply_all, resume,
}

abbrev pub counted : Option ℕ → ℕ
counted none = 0
counted (some n) = n

-- The records that the artifacts hold together, as a store has them.
abbrev pub records_in : Store → List Text → ℕ
records_in s [] = 0
records_in s (uri ∷ uris) = counted (count_positions s uri) + records_in s uris

abbrev pub AllAtMost : ℕ → List ℕ → Type 0
AllAtMost n [] = Unit
AllAtMost n (x ∷ xs) = (x ≤ n) × AllAtMost n xs

pub length-append : {A : Type 0} (xs ys : List A) → length (xs ++ ys) ≡ length xs + length ys
length-append [] ys = omega arith
length-append (x ∷ xs) ys = omega (arith, length-append xs ys)

records_in-append :
    (s : Store) (xs ys : List Text) → records_in s (xs ++ ys) ≡ records_in s xs + records_in s ys
records_in-append s [] ys = omega arith
records_in-append s (x ∷ xs) ys = omega (arith, records_in-append s xs ys)

-- The covered units are kept with the newest first, the artifacts with the oldest.
abbrev pub oldest_first : List ℕ → List ℕ
oldest_first [] = []
oldest_first (i ∷ is) = oldest_first is ++ i ∷ []

map-append : {A B : Type 0} (f : A → B) (xs ys : List A) → map f (xs ++ ys) ≡ map f xs ++ map f ys
map-append f [] ys = refl
map-append f (x ∷ xs) ys = ap (λ l. f x ∷ l) (map-append f xs ys)

abbrev pub AreDifferent : List ℕ → Type 0
AreDifferent [] = Unit
AreDifferent (i ∷ is) = (elem i is ≡ false) × AreDifferent is

-- A unit whose name has not reported is not among the covered ones.
not_covered :
    (g : ℤ) (i : ℕ) (is : List ℕ)
    → among (unit_id g i) (map (λ i. unit_id g i) is) ≡ false
    → elem i is ≡ false
not_covered g i [] h = refl
not_covered g i (x ∷ is) h = elim (Bool-cases (x == i)) [
  | inl same ↦
      let it = ap (λ j. unit_id g x ==* unit_id g j) ((==_iff x i).0 same) in
      ground (arith, ==*-refl (unit_id g x), it, h)
  | inr other ↦ ground (arith, other, not_covered g i is (ground (arith, h)))
]

-- The state speaks of the covered units only: their names are what has reported, none is
-- outstanding, the artifacts are read as those of these units, one of each and in the order in which
-- they were covered, no unit is covered twice, and the positions are the records of the artifacts.
pub record Rebuilt (s : Store) (c : Coordinator) : Type 0 where
  pub resolved_are : c.resolved ≡ map (λ i. unit_id c.generation i) c.covered
  pub none_outstanding : c.issued ≡ length c.covered
  pub artifact_each :
      map (unit_index c.generation) c.artifacts ≡ map (λ i. some i) (oldest_first c.covered)
  pub positions_are : c.positions ≡ wrap_int (pos (records_in s c.artifacts))
  pub different : AreDifferent c.covered
  pub indices : AllAtMost max_int c.covered

new-Rebuilt : (s : Store) (cfg : Config) (c : Coordinator) → new cfg ≡ some c → Rebuilt s c
unfolding new wrap_int
new-Rebuilt s cfg c h = ground arith

-- What a check finds is an artifact of the generation with as many records as the store counts.
check_sound :
    (s : Store) (g : ℤ) (uri : Text) (f : Found)
    → check s g uri ≡ some f
    → (unit_index g uri ≡ some f.number) × (count_positions s f.uri ≡ some f.n) × (f.uri ≡ uri)
unfolding check
check_sound s g uri f h =
    let (i, e1, h1) = >>=-eq-some (unit_index g uri) _ h in
    let (n, e2, h2) = >>=-eq-some (count_positions s uri) _ h1 in
    let same : record { number = i; uri = uri; n = n } ≡ f = some_same h2 in
    (
      e1 ∙ ap (λ (x : Found). some x.number) same,
      subst (λ (x : Found). count_positions s x.uri ≡ some x.n) same e2,
      sym (ap (λ (x : Found). x.uri) same),
    )
  where
    some_same : {a b : Found} → some a ≡ some b → a ≡ b
    some_same e = cc

apply_found-Rebuilt :
    (s : Store) (c : Coordinator) (f : Found)
    → count_positions s f.uri ≡ some f.n
    → unit_index c.generation f.uri ≡ some f.number
    → Rebuilt s c
    → Rebuilt s (apply_found c f)
unfolding apply_found
apply_found-Rebuilt s c f held named r =
    elim (Bool-cases (among (unit_id c.generation f.number) c.resolved)) [
      | inl old ↦ rw old r
      | inr fresh ↦ rw fresh (record {
        resolved_are = ap (λ ids. unit_id c.generation f.number ∷ ids) r.resolved_are;
        none_outstanding = omega (arith, r.none_outstanding);
        artifact_each =
            map-append (unit_index c.generation) c.artifacts (f.uri ∷ [])
            ∙ ap (λ l. l ++ unit_index c.generation f.uri ∷ []) r.artifact_each
            ∙ ap (λ o. map (λ i. some i) (oldest_first c.covered) ++ o ∷ []) named
            ∙ sym (map-append (λ i. some i) (oldest_first c.covered) (f.number ∷ []));
        positions_are =
            ap (λ z. add_int z (pos f.n)) r.positions_are
            ∙ add_int_wrapped (records_in s c.artifacts) f.n
            ∙ ap (λ n. wrap_int (pos n))
                (omega (arith, records_in-append s c.artifacts (f.uri ∷ []), ap counted held));
        different = (
          not_covered c.generation f.number c.covered
              (ap (λ ids. among (unit_id c.generation f.number) ids) (sym r.resolved_are) ∙ fresh),
          r.different,
        );
        indices = (unit_index-le c.generation f.uri f.number named, r.indices);
      })
    ]

pub apply_found-generation :
    (c : Coordinator) (f : Found) → (apply_found c f).generation ≡ c.generation
unfolding apply_found
apply_found-generation c f = ground arith

-- Every found artifact is what the store holds under a name of the generation.
abbrev AllHeld : Store → ℤ → List Found → Type 0
AllHeld s g [] = Unit
AllHeld s g (f ∷ fs) =
    (unit_index g f.uri ≡ some f.number) × (count_positions s f.uri ≡ some f.n) × AllHeld s g fs

keep_found-AllHeld :
    (s : Store) (g : ℤ) (uri : Text) (o : Option Found) (fs : List Found)
    → check s g uri ≡ o
    → AllHeld s g fs
    → AllHeld s g (keep_found o fs)
keep_found-AllHeld s g uri none fs e h = h
keep_found-AllHeld s g uri (some f) fs e h =
    let (named, held, same) = check_sound s g uri f e in (ap (unit_index g) same ∙ named, held, h)

scan-AllHeld : (s : Store) (g : ℤ) (uris : List Text) → AllHeld s g (scan s g uris)
scan-AllHeld s g [] = tt
scan-AllHeld s g (uri ∷ uris) =
    keep_found-AllHeld s g uri (check s g uri) (scan s g uris) refl (scan-AllHeld s g uris)

apply_all-Rebuilt :
    (s : Store) (c : Coordinator) (fs : List Found)
    → AllHeld s c.generation fs
    → Rebuilt s c
    → Rebuilt s (apply_all c fs)
apply_all-Rebuilt s c [] h r = r
apply_all-Rebuilt s c (f ∷ fs) (named, held, h) r =
    apply_all-Rebuilt s (apply_found c f) fs
      (subst (λ g. AllHeld s g fs) (sym (apply_found-generation c f)) h)
      (apply_found-Rebuilt s c f held named r)

-- A new coordinator that resumes has nothing outstanding; the artifacts that it takes are read as
-- those of the units that it takes for done, one of each and in the same order, and these are
-- different units; the names of these units are what it takes for reported; and its positions are
-- the records that the store has in the artifacts, as an `int` of 64 bits.
pub resume-Rebuilt :
    (s : Store) (cfg : Config) (interrupted : Bool) (c d : Coordinator)
    → new cfg ≡ some c
    → resume s interrupted c ≡ some d
    → Rebuilt s d
unfolding resume
resume-Rebuilt s cfg interrupted c d h e =
    let (uris, listed, e1) = >>=-eq-some (s.list _) _ e in rebuilt uris (ground arith)
  where
    rebuilt : (uris : List Text) → apply_all c (scan s c.generation uris) ≡ d → Rebuilt s d
    rebuilt uris same = subst (Rebuilt s) same (
        apply_all-Rebuilt s c (scan s c.generation uris) (scan-AllHeld s c.generation uris)
          (new-Rebuilt s cfg c h))

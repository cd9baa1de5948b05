-- ===== src/Pipeline/Coordinator/Resume/Fresh.antt =====
-- A unit whose artifact is on disk is not played again.
use native.Mathlib.Omega.{arith}
use novachess.Prelude.{
  ℕ, zero, suc, ◌+◌, ◌≤◌, true, false, Option, none, some, List, [], ◌∷◌, ◌++◌, map, ◌≡◌, ◌≢◌, refl,
  sym, ap, subst, ◌∙◌, Bool-cases, inl, inr,
}
use novachess.Prelude.Int.{ℤ}
use novachess.Prelude.Text.{Text, codes, print_int, ◌==*◌, ==*-refl, ==*-sound, max_int}
use novachess.Pipeline.Events.{WorkUnit}
use novachess.Pipeline.Store.{Store}
use novachess.Pipeline.Coordinator.{Config, Coordinator, new, among}
use novachess.Pipeline.Coordinator.Naming.{unit_id, unit}
use novachess.Pipeline.Coordinator.Naming.RoundTrip.{unit_id-injective}
use novachess.Pipeline.Coordinator.Issue.{Round, Issued, elem, top_up}
use novachess.Pipeline.Coordinator.Issue.Published.{uncovered, top_up-Ran, some-same}
use novachess.Pipeline.Coordinator.Resume.{
  Found, check, keep_found, scan, apply_found, apply_all, resume,
}
use novachess.Pipeline.Coordinator.Resume.Rebuilt.{
  AllAtMost, apply_found-generation, resume-Rebuilt,
}

-- A name that has reported stays reported.
among-apply_all :
    (c : Coordinator) (fs : List Found) (id : Text)
    → among id c.resolved ≡ true
    → among id (apply_all c fs).resolved ≡ true
unfolding apply_found
among-apply_all c [] id h = h
among-apply_all c (f ∷ fs) id h = among-apply_all (apply_found c f) fs id (ground arith)

among-apply_found :
    (c : Coordinator) (f : Found)
    → among (unit_id c.generation f.number) (apply_found c f).resolved ≡ true
unfolding apply_found
among-apply_found c f = ground (arith, ==*-refl (unit_id c.generation f.number))

module _ (s : Store) (uris : List Text) (f : Found) where
  -- The rest of the listing, from any state of the generation.
  among-keep_found_found :
      (c : Coordinator) (o : Option Found)
      → ((d : Coordinator)
          → d.generation ≡ c.generation
          → among (unit_id c.generation f.number) (apply_all d (scan s c.generation uris)).resolved
            ≡ true)
      → among
          (unit_id c.generation f.number)
          (apply_all c (keep_found o (scan s c.generation uris))).resolved
        ≡ true
  among-keep_found_found c none rest = rest c refl
  among-keep_found_found c (some g) rest = rest (apply_found c g) (apply_found-generation c g)

-- Every artifact of the listing that checks is marked as reported.
among-scan :
    (s : Store) (c : Coordinator) (uris : List Text) (uri : Text) (f : Found)
    → among uri uris ≡ true
    → check s c.generation uri ≡ some f
    → among (unit_id c.generation f.number) (apply_all c (scan s c.generation uris)).resolved ≡ true
among-scan s c [] uri f h e = cc
among-scan s c (x ∷ uris) uri f h e = elim (Bool-cases (x ==* uri)) [
  | inl here ↦
      let e' : check s c.generation x ≡ some f =
        ap (check s c.generation) (==*-sound x uri here) ∙ e in
      subst
        (λ o.
          among (unit_id c.generation f.number)
            (apply_all c (keep_found o (scan s c.generation uris))).resolved
          ≡ true)
        (sym e')
        (among-apply_all (apply_found c f) (scan s c.generation uris)
          (unit_id c.generation f.number) (among-apply_found c f))
  | inr other ↦ among-keep_found_found s uris f c (check s c.generation x) (λ d same.
      subst (λ t. among (unit_id t f.number) (apply_all d (scan s t uris)).resolved ≡ true) same
        (among-scan s d uris uri f (rw other at h) (ap (λ t. check s t uri) same ∙ e)))
]

apply_all-generation :
    (c : Coordinator) (fs : List Found) → (apply_all c fs).generation ≡ c.generation
apply_all-generation c [] = refl
apply_all-generation c (f ∷ fs) =
    apply_all-generation (apply_found c f) fs ∙ apply_found-generation c f

-- An index whose name is among the names of others is among the others.
elem-among :
    (g : ℤ) (j : ℕ) (covered : List ℕ)
    → j ≤ max_int
    → AllAtMost max_int covered
    → among (unit_id g j) (map (λ i. unit_id g i) covered) ≡ true
    → elem j covered ≡ true
elem-among g j [] hj h e = cc
elem-among g j (x ∷ xs) hj (hx, h) e = elim (Bool-cases (unit_id g x ==* unit_id g j)) [
  | inl here ↦
      let same = unit_id-injective g x j hx hj (==*-sound (unit_id g x) (unit_id g j) here) in
      ground arith
  | inr other ↦ let rest = elem-among g j xs hj h (rw other at e) in ground arith
]

abbrev pub AllUnits : (WorkUnit → Type 0) → List WorkUnit → Type 0
AllUnits P [] = Unit
AllUnits P (u ∷ us) = P u × AllUnits P us

-- No uncovered unit bears a name that the covered ones bear.
uncovered-AllUnits :
    (d : Coordinator) (id : Text) (covered : List ℕ) (first n : ℕ)
    → first + n ≤ max_int
    → AllAtMost max_int covered
    → among id (map (λ i. unit_id d.generation i) covered) ≡ true
    → AllUnits (λ u. u.id ≢ id) (map (λ i. unit d i) (uncovered covered first n))
unfolding unit
uncovered-AllUnits d id covered first zero fits h e = tt
uncovered-AllUnits d id covered first (suc n) fits h e =
    let rest = uncovered-AllUnits d id covered (suc first) n (omega arith) h e in
    elim (Bool-cases (elem first covered)) [
      | inl over ↦ rw over rest
      | inr free ↦ rw free ((λ same. clash free same), rest)
    ]
  where
    clash : elem first covered ≡ false → unit_id d.generation first ≢ id
    clash free same =
        let there =
          elem-among d.generation first covered (omega arith) h (
            subst (λ t. among t (map (λ i. unit_id d.generation i) covered) ≡ true) (sym same) e) in
        cc

-- When a coordinator resumes, and one of the artifacts listed is read as that of unit `i` and is
-- well framed, no unit that topUp publishes is unit `i`, while the indices fit an `int`.
pub resume-top_up :
    (s : Store) (cfg : Config) (world : ℕ → Round) (c d : Coordinator) (o : Issued)
    (uris : List Text) (uri : Text) (f : Found)
    → new cfg ≡ some c
    → resume s false c ≡ some d
    → s.list (codes "gen" ++ print_int c.generation) ≡ some uris
    → among uri uris ≡ true
    → check s c.generation uri ≡ some f
    → top_up world d ≡ some o
    → o.after.next_index ≤ max_int
    → AllUnits (λ u. u.id ≢ unit_id c.generation f.number) o.published
unfolding resume
resume-top_up s cfg world c d o uris uri f start resumed listed member checked topped fits =
    let rebuilt = resume-Rebuilt s cfg false c d start resumed in
    let is_d : apply_all c (scan s c.generation uris) ≡ d = some-same (rw listed at resumed) in
    let reported =
      subst (λ x. among (unit_id c.generation f.number) x.resolved ≡ true) is_d
        (among-scan s c uris uri f member checked) in
    let (p, ran, r) = top_up-Ran world d in
    let same : p ≡ o = some-same (sym ran ∙ topped) in
    let bounded : d.next_index + r.passed ≤ max_int =
      subst (λ (x : ℕ). x ≤ max_int)
        (ap (λ (q : Issued). q.after.next_index) (sym same)
          ∙ ap (λ (x : Coordinator). x.next_index) r.after_is)
        fits in
    let named =
      uncovered-AllUnits d (unit_id c.generation f.number) d.covered d.next_index r.passed bounded
        rebuilt.indices
        (subst (λ ids. among (unit_id c.generation f.number) ids ≡ true) rebuilt.resolved_are
          reported) in
    subst (λ us. AllUnits (λ u. u.id ≢ unit_id c.generation f.number) us)
      (sym r.published_are ∙ ap (λ (q : Issued). q.published) same) named

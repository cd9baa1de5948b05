-- ===== src/Pipeline/Coordinator/Issue/Published.antt =====
-- Which units topUp publishes.
use native.Mathlib.Omega.{arith}
use novachess.Prelude.{
  ℕ, zero, suc, ◌+◌, ◌≤◌, ◌<◌, true, false, Option, none, some, List, [], ◌∷◌, map, ◌≡◌, ◌≢◌, refl,
  sym, ap, subst, ◌∙◌, ◌⊎◌, inl, inr, if◌then◌else◌, Bool-cases,
}
use novachess.Pipeline.Events.{WorkUnit}
use novachess.Pipeline.Store.{length}
use novachess.Pipeline.Coordinator.{Coordinator}
use novachess.Pipeline.Coordinator.Naming.{unit}
use novachess.Pipeline.Coordinator.Issue.{
  Round, ended, accepts, refuses, Result, filled, stopped, failed, Issued, ends_with, elem,
  covered_ahead, prepend, issue_units, needed, top_up,
}

-- The indices among the `n` from `first` that are not covered, in order.
abbrev pub uncovered : List ℕ → ℕ → ℕ → List ℕ
uncovered covered first zero = []
uncovered covered first (suc n) =
    let rest = uncovered covered (suc first) n in if elem first covered then rest else first ∷ rest

-- What a run of the loop from `c` has done, when `left` units were asked for.
pub record Ran (c : Coordinator) (left : ℕ) (o : Issued) : Type 0 where
  pub passed : ℕ
  pub after_is : o.after ≡ record c {
    next_index = c.next_index + passed;
    issued = c.issued + length (uncovered c.covered c.next_index passed);
  }
  pub published_are : o.published ≡ map (λ i. unit c i) (uncovered c.covered c.next_index passed)
  pub at_most : length (uncovered c.covered c.next_index passed) ≤ left
  pub when_filled : o.result ≡ filled → length (uncovered c.covered c.next_index passed) ≡ left

Round-cases : (r : Round) → (r ≡ ended) ⊎ ((r ≡ accepts) ⊎ (r ≡ refuses))
Round-cases ended = inl refl
Round-cases accepts = inr (inl refl)
Round-cases refuses = inr (inr refl)

pub some-same {ℓ} : {A : Type ℓ} {a b : A} → some a ≡ some b → a ≡ b
some-same e = cc

-- A loop that ends at once.
Ran-stopped :
    (c : Coordinator) (left : ℕ) (r : Result)
    → (r ≡ filled → left ≡ 0)
    → Ran c left (record { after = c; published = []; result = r })
Ran-stopped c left r h = record {
  passed = 0;
  after_is = λ i. record c { next_index = zero_more c.next_index i; issued = zero_more c.issued i };
  published_are = refl;
  at_most = omega arith;
  when_filled = λ e. sym (h e);
}
  where
    zero_more : (n : ℕ) → n ≡ n + 0
    zero_more n = omega arith

-- A round that passes over a covered index.
Ran-skip :
    (c : Coordinator) (left : ℕ) (o : Issued)
    → elem c.next_index c.covered ≡ true
    → Ran (record c { next_index = suc c.next_index }) left o
    → Ran c left o
unfolding unit
Ran-skip c left o over r =
    let rest = uncovered c.covered (suc c.next_index) r.passed in
    let list : uncovered c.covered c.next_index (suc r.passed) ≡ rest = rw over refl in
    record {
      passed = suc r.passed;
      after_is = r.after_is ∙ λ i. record c {
        next_index = shift c.next_index r.passed i;
        issued = c.issued + length (sym list i);
      };
      published_are = r.published_are ∙ ap (map (λ i. unit c i)) (sym list);
      at_most = rw list r.at_most;
      when_filled = rw list r.when_filled;
    }
  where
    shift : (n k : ℕ) → suc n + k ≡ n + suc k
    shift n k = omega arith

-- A round that publishes.
Ran-publish :
    (c : Coordinator) (left : ℕ) (o : Issued)
    → elem c.next_index c.covered ≡ false
    → Ran (record c { next_index = suc c.next_index; issued = suc c.issued }) left o
    → Ran c (suc left) (record o { published = unit c c.next_index ∷ o.published })
unfolding unit
Ran-publish c left o free r =
    let rest = uncovered c.covered (suc c.next_index) r.passed in
    let list : uncovered c.covered c.next_index (suc r.passed) ≡ c.next_index ∷ rest =
      rw free refl in
    record {
      passed = suc r.passed;
      after_is =
          r.after_is
          ∙ (λ i. record c {
            next_index = shift c.next_index r.passed i;
            issued = shift c.issued (length rest) i;
          })
          ∙ λ i. record c {
            next_index = c.next_index + suc r.passed;
            issued = c.issued + length (sym list i);
          };
      published_are =
          ap (λ us. unit c c.next_index ∷ us) r.published_are ∙ ap (map (λ i. unit c i)) (sym list);
      at_most = rw list (omega (arith, r.at_most));
      when_filled = rw list (λ e. omega (arith, r.when_filled e));
    }
  where
    shift : (n k : ℕ) → suc n + k ≡ n + suc k
    shift n k = omega arith

pub prepend-some :
    {u : WorkUnit} (m : Option Issued) (o : Issued)
    → prepend u m ≡ some o
    → (p : Issued) × (m ≡ some p) × (record p { published = u ∷ p.published } ≡ o)
prepend-some none o h = cc
prepend-some (some p) o h = (p, refl, some-same h)

-- The four ways that a round goes.
module _ (fuel left : ℕ) (world : ℕ → Round) (k : ℕ) (c : Coordinator) where
  abbrev pub taken : Coordinator
  taken = record c { next_index = suc c.next_index }

  round_ended : world k ≡ ended → issue_units (suc fuel) (suc left) world k c ≡ ends_with c stopped
  unfolding issue_units
  round_ended w = rw (w, issue_units)

  pub round_skips :
      world k ≢ ended
      → elem c.next_index c.covered ≡ true
      → issue_units (suc fuel) (suc left) world k c
        ≡ issue_units fuel (suc left) world (suc k) taken
  unfolding issue_units
  round_skips w over = elim (Round-cases (world k)) [
    | inl e ↦ absurd (w e)
    | inr (inl e) ↦ rw (e, over, issue_units)
    | inr (inr e) ↦ rw (e, over, issue_units)
  ]

  pub round_publishes :
      world k ≡ accepts
      → elem c.next_index c.covered ≡ false
      → issue_units (suc fuel) (suc left) world k c
        ≡ prepend
            (unit c c.next_index)
            (issue_units fuel left world (suc k) (record taken { issued = suc c.issued }))
  unfolding issue_units
  round_publishes w free = ground arith

  round_fails :
      world k ≡ refuses
      → elem c.next_index c.covered ≡ false
      → issue_units (suc fuel) (suc left) world k c ≡ ends_with c failed
  unfolding issue_units
  round_fails w free = ground arith

issue_units-Ran :
    (fuel left : ℕ) (world : ℕ → Round) (k : ℕ) (c : Coordinator) (o : Issued)
    → issue_units fuel left world k c ≡ some o
    → Ran c left o
unfolding issue_units
issue_units-Ran zero left world k c o h = cc
issue_units-Ran (suc fuel) zero world k c o h =
    subst (Ran c 0) (some-same h) (Ran-stopped c 0 filled (λ e. refl))
issue_units-Ran (suc fuel) (suc left) world k c o h = elim (Round-cases (world k)) [
  | inl w ↦
      subst (Ran c (suc left)) (some-same (sym (round_ended fuel left world k c w) ∙ h))
        (Ran-stopped c (suc left) stopped (λ f. cc))
  | inr live ↦ elim (Bool-cases (elem c.next_index c.covered)) [
    | inl over ↦ Ran-skip c (suc left) o over (
        issue_units-Ran fuel (suc left) world (suc k) (record c { next_index = suc c.next_index }) o
          (sym (round_skips fuel left world k c (not_ended live) over) ∙ h))
    | inr free ↦ elim live [
      | inl w ↦
          let (p, ran, same) =
            prepend-some _ o (sym (round_publishes fuel left world k c w free) ∙ h) in
          subst (Ran c (suc left)) same (
            Ran-publish c left p free (
              issue_units-Ran fuel left world (suc k)
                (record c { next_index = suc c.next_index; issued = suc c.issued }) p ran))
      | inr w ↦
          subst (Ran c (suc left)) (some-same (sym (round_fails fuel left world k c w free) ∙ h))
            (Ran-stopped c (suc left) failed (λ f. cc))
    ]
  ]
]
  where
    not_ended : (world k ≡ accepts) ⊎ (world k ≡ refuses) → world k ≢ ended
    not_ended (inl w) = λ e. cc
    not_ended (inr w) = λ e. cc

covered_ahead-suc-le :
    (n : ℕ) (covered : List ℕ) → covered_ahead (suc n) covered ≤ covered_ahead n covered
covered_ahead-suc-le n [] = omega arith
covered_ahead-suc-le n (x ∷ xs) = ground (arith, covered_ahead-suc-le n xs)

covered_ahead-suc-lt :
    (n : ℕ) (covered : List ℕ)
    → elem n covered ≡ true
    → covered_ahead (suc n) covered < covered_ahead n covered
covered_ahead-suc-lt n [] h = cc
covered_ahead-suc-lt n (x ∷ xs) h =
    ground (arith, covered_ahead-suc-le n xs, covered_ahead-suc-lt n xs)

prepend-total :
    (u : WorkUnit) (m : Option Issued)
    → (p : Issued) × (m ≡ some p)
    → (o : Issued) × (prepend u m ≡ some o)
prepend-total u m (p, e) = (record p { published = u ∷ p.published }, rw e refl)

-- Every round publishes a unit or passes a covered index, so the fuel suffices.
issue_units_total :
    (fuel left : ℕ) (world : ℕ → Round) (k : ℕ) (c : Coordinator)
    → left + covered_ahead c.next_index c.covered < fuel
    → (o : Issued) × (issue_units fuel left world k c ≡ some o)
unfolding issue_units
issue_units_total zero left world k c h = absurd (omega arith)
issue_units_total (suc fuel) zero world k c h =
    (record { after = c; published = []; result = filled }, refl)
issue_units_total (suc fuel) (suc left) world k c h = elim (Round-cases (world k)) [
  | inl w ↦
      (record { after = c; published = []; result = stopped }, round_ended fuel left world k c w)
  | inr live ↦ elim (Bool-cases (elem c.next_index c.covered)) [
    | inl over ↦
        let (o, e) =
          issue_units_total fuel (suc left) world (suc k)
            (record c { next_index = suc c.next_index })
            (omega (arith, covered_ahead-suc-lt c.next_index c.covered over)) in
        (o, round_skips fuel left world k c (not_ended live) over ∙ e)
    | inr free ↦ elim live [
      | inl w ↦
          let (o, e) = prepend-total (unit c c.next_index) _ (
            issue_units_total fuel left world (suc k)
              (record c { next_index = suc c.next_index; issued = suc c.issued })
              (omega (arith, covered_ahead-suc-le c.next_index c.covered))) in
          (o, round_publishes fuel left world k c w free ∙ e)
      | inr w ↦ (
        record { after = c; published = []; result = failed },
        round_fails fuel left world k c w free,
      )
    ]
  ]
]
  where
    not_ended : (world k ≡ accepts) ⊎ (world k ≡ refuses) → world k ≢ ended
    not_ended (inl w) = λ e. cc
    not_ended (inr w) = λ e. cc

-- Whatever the context and the bus answer, topUp returns, and the units that it has published are
-- those of the indices passed that are not covered, in order, each once and no more than are
-- needed, as many as are needed if it says that it is done. It has counted what it published and
-- moved the next index, and changed nothing else.
pub top_up-Ran :
    (world : ℕ → Round) (c : Coordinator)
    → (o : Issued) × (top_up world c ≡ some o) × Ran c (needed c) o
unfolding top_up
top_up-Ran world c =
    let fuel = suc (needed c + covered_ahead c.next_index c.covered) in
    let (o, e) = issue_units_total fuel (needed c) world 0 c (omega arith) in
    (o, e, issue_units-Ran fuel (needed c) world 0 c o e)

-- ===== src/Pipeline/Coordinator/Reports.antt =====
-- Batches that are delivered one after the other.
use native.Mathlib.Omega.{arith}
use mathlib.Core.List.{append-nil, append_assoc}
use novachess.Prelude.{
  Bool, true, false, not, ◌||◌, List, [], ◌∷◌, ◌++◌, map, ◌≡◌, refl, sym, ap, subst, ◌∙◌, ◌⊎◌, inl,
  inr, if◌then◌else◌, Bool-cases,
}
use novachess.Prelude.Int.{ℤ, add_int, ◌==ℤ◌, leb_ℤ}
use novachess.Prelude.Text.{Text, ==*-refl}
use novachess.Pipeline.Events.{GameBatch}
use novachess.Pipeline.Store.{Store}
use novachess.Pipeline.Coordinator.{
  Coordinator, among, count_batch, is_good, finish_batch, handle_batch,
}

abbrev pub Delivered : GameBatch → List GameBatch → Type 0
Delivered b [] = ⊥
Delivered b (x ∷ xs) = (x ≡ b) ⊎ Delivered b xs

abbrev pub AllDelivered : List GameBatch → List GameBatch → Type 0
AllDelivered [] bs = Unit
AllDelivered (b ∷ rest) bs = Delivered b bs × AllDelivered rest bs

-- Of another generation, or of a unit that has reported.
abbrev is_settled : Coordinator → GameBatch → Bool
is_settled c b = not (b.generation ==ℤ c.generation) || among b.work_unit_id c.resolved

-- The first reports of units of a generation, in order, from what has reported before.
abbrev pub first_reports : ℤ → List Text → List GameBatch → List GameBatch
first_reports g seen [] = []
first_reports g seen (b ∷ bs) =
    let later = first_reports g seen bs in
    let new = first_reports g (b.work_unit_id ∷ seen) bs in
    if not (b.generation ==ℤ g) || among b.work_unit_id seen then later else b ∷ new

abbrev pub only_good : (GameBatch → Bool) → List GameBatch → List GameBatch
only_good good [] = []
only_good good (b ∷ bs) = let rest = only_good good bs in if good b then b ∷ rest else rest

abbrev pub add_positions : ℤ → List GameBatch → ℤ
add_positions n [] = n
add_positions n (b ∷ bs) = add_positions (add_int n b.positions) bs

abbrev pub uri_of : GameBatch → Text
uri_of b = b.artifact_uri

module _ (sum : Text → Text) (s : Store) where
  abbrev pub run : Coordinator → List GameBatch → Coordinator
  run c [] = c
  run c (b ∷ bs) = run (handle_batch sum s c b) bs

  handle_settled :
      (c : Coordinator) (b : GameBatch) → is_settled c b ≡ true → handle_batch sum s c b ≡ c
  unfolding handle_batch
  handle_settled c b h = ground arith

  -- A batch that was handled is settled.
  settles : (c : Coordinator) (b : GameBatch) → is_settled (handle_batch sum s c b) b ≡ true
  unfolding handle_batch
  settles c b = ground (arith, ==*-refl b.work_unit_id)

  stays_settled :
      (c : Coordinator) (b x : GameBatch)
      → is_settled c b ≡ true
      → is_settled (handle_batch sum s c x) b ≡ true
  unfolding handle_batch
  stays_settled c b x h = ground arith

  run_stays_settled :
      (c : Coordinator) (bs : List GameBatch) (b : GameBatch)
      → is_settled c b ≡ true
      → is_settled (run c bs) b ≡ true
  run_stays_settled c [] b h = h
  run_stays_settled c (x ∷ bs) b h =
      run_stays_settled (handle_batch sum s c x) bs b (stays_settled c b x h)

  run_settles :
      (c : Coordinator) (bs : List GameBatch) (b : GameBatch)
      → Delivered b bs
      → is_settled (run c bs) b ≡ true
  run_settles c [] b h = absurd h
  run_settles c (x ∷ bs) b (inl here) =
      run_stays_settled (handle_batch sum s c x) bs b
        (subst (λ y. is_settled (handle_batch sum s c x) y ≡ true) here (settles c x))
  run_settles c (x ∷ bs) b (inr later) = run_settles (handle_batch sum s c x) bs b later

  -- Delivered again, in any order and any number of times, batches change nothing.
  pub run_redelivered :
      (c : Coordinator) (bs rest : List GameBatch)
      → AllDelivered rest bs
      → run (run c bs) rest ≡ run c bs
  run_redelivered c bs [] h = refl
  run_redelivered c bs (b ∷ rest) (here, h) =
      ap (λ d. run d rest) (handle_settled (run c bs) b (run_settles c bs b here))
      ∙ run_redelivered c bs rest h

-- Whether the sum reaches the target after one of the batches.
abbrev pub reaches : ℤ → ℤ → List GameBatch → Bool
reaches target n [] = false
reaches target n (b ∷ bs) =
    leb_ℤ target (add_int n b.positions) || reaches target (add_int n b.positions) bs

-- The state `d` after the good batches `ks` have been counted from the state `c`.
pub record Counts (c : Coordinator) (ks : List GameBatch) (d : Coordinator) : Type 0 where
  pub artifacts_are : d.artifacts ≡ c.artifacts ++ map uri_of ks
  pub positions_are : d.positions ≡ add_positions c.positions ks
  pub done_is : d.done ≡ (c.done || reaches c.cfg.positions_per_generation c.positions ks)
  pub issued_is : d.issued ≡ c.issued
  pub next_index_is : d.next_index ≡ c.next_index

or_assoc : (x y z : Bool) → ((x || y) || z) ≡ (x || (y || z))
or_assoc x y z = ground arith

or_false : (x : Bool) → x ≡ (x || false)
or_false x = ground arith

Counts-none : (c : Coordinator) → Counts c [] c
Counts-none c = record {
  artifacts_are = sym (append-nil c.artifacts);
  positions_are = refl;
  done_is = or_false c.done;
  issued_is = refl;
  next_index_is = refl;
}

Counts-marked :
    (c : Coordinator) (ids : List Text) (ks : List GameBatch) (d : Coordinator)
    → Counts (record c { resolved = ids }) ks d
    → Counts c ks d
Counts-marked c ids ks d k = record {
  artifacts_are = k.artifacts_are;
  positions_are = k.positions_are;
  done_is = k.done_is;
  issued_is = k.issued_is;
  next_index_is = k.next_index_is;
}

Counts-counted :
    (c : Coordinator) (ids : List Text) (b : GameBatch) (ks : List GameBatch) (d : Coordinator)
    → Counts (count_batch (record c { resolved = ids }) b) ks d
    → Counts c (b ∷ ks) d
unfolding count_batch
Counts-counted c ids b ks d k = record {
  artifacts_are = k.artifacts_are ∙ append_assoc c.artifacts (b.artifact_uri ∷ []) (map uri_of ks);
  positions_are = k.positions_are;
  done_is = k.done_is ∙ or_assoc c.done _ _;
  issued_is = k.issued_is;
  next_index_is = k.next_index_is;
}

module _ (sum : Text → Text) (s : Store) where
  handle_new :
      (c : Coordinator) (b : GameBatch)
      → is_settled c b ≡ false
      → handle_batch sum s c b
        ≡ finish_batch sum s (record c { resolved = b.work_unit_id ∷ c.resolved }) b
  unfolding handle_batch
  handle_new c b h = ground arith

  -- What counts towards the dataset: the good ones among the first reports of the generation's
  -- units, in the order of delivery.
  abbrev pub counted : Coordinator → List GameBatch → List GameBatch
  counted c bs = only_good (is_good sum s) (first_reports c.generation c.resolved bs)

  -- Delivered one after the other, batches are counted as the specification says: the artifacts
  -- and positions are those of the batches that count, and the channel is closed when their sum, as
  -- an `int` of 64 bits, has reached the target.
  pub run-Counts :
      (c : Coordinator) (bs : List GameBatch) → Counts c (counted c bs) (run sum s c bs)
  unfolding finish_batch
  run-Counts c [] = Counts-none c
  run-Counts c (b ∷ bs) =
      let marked = record c { resolved = b.work_unit_id ∷ c.resolved } in
      elim (Bool-cases (is_settled c b)) [
        | inl old ↦ rw old (
            subst (λ d. Counts c (counted c bs) (run sum s d bs))
              (sym (handle_settled sum s c b old)) (run-Counts c bs))
        | inr new ↦ elim (Bool-cases (is_good sum s b)) [
          | inl good ↦
              let counts : handle_batch sum s c b ≡ count_batch marked b =
                handle_new c b new ∙ (rw good) in
              rw (new, good)
                (subst (λ d. Counts c (b ∷ counted marked bs) (run sum s d bs)) (sym counts)
                  (Counts-counted c marked.resolved b (counted marked bs) _
                    (run-Counts (count_batch marked b) bs)))
          | inr bad ↦
              let drops : handle_batch sum s c b ≡ marked = handle_new c b new ∙ (rw bad) in
              rw (new, bad)
                (subst (λ d. Counts c (counted marked bs) (run sum s d bs)) (sym drops)
                  (Counts-marked c marked.resolved (counted marked bs) _ (run-Counts marked bs)))
        ]
      ]

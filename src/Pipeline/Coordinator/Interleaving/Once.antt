-- ===== src/Pipeline/Coordinator/Interleaving/Once.antt =====
-- No unit is counted twice, however the coordinator's goroutines interleave.
use native.Mathlib.Omega.{arith}
use novachess.Prelude.{true, false, some, List, [], ◌∷◌, ◌++◌, map, ◌≡◌, ◌≢◌, sym, ap, subst}
use novachess.Prelude.Int.{pos, add_int}
use novachess.Prelude.Text.{Text, ==*-refl}
use novachess.Pipeline.Events.{GameBatch}
use novachess.Pipeline.Coordinator.{Config, Coordinator, new, among, begin_batch, count_batch}
use novachess.Pipeline.Coordinator.Naming.{unit_id}
use novachess.Pipeline.Coordinator.Resume.{Found, apply_found}
use novachess.Pipeline.Coordinator.Interleaving.{
  Tally, tally_of, tally_found, Taken, here, there, Reach, start, arrives, ignored, counts, drops,
  issues, passes, restores, reappears, names, Fresh, AreDistinct, AreMarked, IsSound,
}

Fresh-Taken : {x y : Text} {l m : List Text} → Taken x l m → Fresh y l → (x ≢ y) × Fresh y m
Fresh-Taken here (h, hs) = (h, hs)
Fresh-Taken (there t) (h, hs) = let (apart, rest) = Fresh-Taken t hs in (apart, (h, rest))

AreDistinct-Taken :
    {x : Text} {l m : List Text} → Taken x l m → AreDistinct l → Fresh x m × AreDistinct m
AreDistinct-Taken here h = h
AreDistinct-Taken (there t) (h, hs) =
    let (fresh, rest) = AreDistinct-Taken t hs in
    let (apart, others) = Fresh-Taken t h in (((λ e. apart (sym e)), fresh), (others, rest))

AreMarked-Taken :
    (ids : List Text) {x : Text} {l m : List Text}
    → Taken x l m
    → AreMarked ids l
    → (among x ids ≡ true) × AreMarked ids m
AreMarked-Taken ids here h = h
AreMarked-Taken ids (there t) (h, hs) = let (it, rest) = AreMarked-Taken ids t hs in (it, (h, rest))

Taken-map :
    {b : GameBatch} {p q : List GameBatch}
    → Taken b p q
    → Taken b.work_unit_id
        (map (λ (b : GameBatch). b.work_unit_id) p)
        (map (λ (b : GameBatch). b.work_unit_id) q)
Taken-map here = here
Taken-map (there t) = there (Taken-map t)

Taken-names :
    (k : List Tally) {b : GameBatch} {p q : List GameBatch}
    → Taken b p q
    → Taken b.work_unit_id (names k p) (names k q)
Taken-names [] t = Taken-map t
Taken-names (e ∷ k) t = there (Taken-names k t)

-- A name that is not marked is new.
Fresh-marked :
    (ids : List Text) (id : Text) (xs : List Text)
    → among id ids ≡ false
    → AreMarked ids xs
    → Fresh id xs
Fresh-marked ids id [] h m = tt
Fresh-marked ids id (x ∷ xs) h (known, m) =
    ((λ e. cc (ap (λ t. among t ids) e)), Fresh-marked ids id xs h m)

AreMarked-more :
    (ids : List Text) (id : Text) (xs : List Text) → AreMarked ids xs → AreMarked (id ∷ ids) xs
AreMarked-more ids id [] m = tt
AreMarked-more ids id (x ∷ xs) (known, m) = (ground arith, AreMarked-more ids id xs m)

-- A name put between the counted ones and those being verified.
Fresh-middle :
    (ks : List Text) (x y : Text) (ps : List Text)
    → x ≢ y
    → Fresh y (ks ++ ps)
    → Fresh y (ks ++ (x ∷ ps))
Fresh-middle [] x y ps apart h = (apart, h)
Fresh-middle (k ∷ ks) x y ps apart (h, hs) = (h, Fresh-middle ks x y ps apart hs)

AreDistinct-middle :
    (ks : List Text) (x : Text) (ps : List Text)
    → Fresh x (ks ++ ps)
    → AreDistinct (ks ++ ps)
    → AreDistinct (ks ++ (x ∷ ps))
AreDistinct-middle [] x ps f d = (f, d)
AreDistinct-middle (k ∷ ks) x ps (apart, f) (h, d) =
    (Fresh-middle ks x k ps (λ e. apart (sym e)) h, AreDistinct-middle ks x ps f d)

AreMarked-middle :
    (ids : List Text) (ks : List Text) (x : Text) (ps : List Text)
    → among x ids ≡ true
    → AreMarked ids (ks ++ ps)
    → AreMarked ids (ks ++ (x ∷ ps))
AreMarked-middle ids [] x ps m ms = (m, ms)
AreMarked-middle ids (k ∷ ks) x ps m (h, ms) = (h, AreMarked-middle ids ks x ps m ms)

among_self : (id : Text) (ids : List Text) → among id (id ∷ ids) ≡ true
among_self id ids = ground (arith, ==*-refl id)

-- The first section under the lock either leaves the state or marks a new unit.
begin_cases :
    (c d : Coordinator) (b : GameBatch)
    → begin_batch c b ≡ (d, true)
    → (among b.work_unit_id c.resolved ≡ false)
      × (record c { resolved = b.work_unit_id ∷ c.resolved } ≡ d)
unfolding begin_batch
begin_cases c d b h = ground arith

begin_ignored : (c d : Coordinator) (b : GameBatch) → begin_batch c b ≡ (d, false) → c ≡ d
unfolding begin_batch
begin_ignored c d b h = ground arith

new-IsSound : (cfg : Config) (c : Coordinator) → new cfg ≡ some c → IsSound c [] []
unfolding new
new-IsSound cfg c h = ground arith

arrives-IsSound :
    (c : Coordinator) (p : List GameBatch) (k : List Tally) (b : GameBatch)
    → among b.work_unit_id c.resolved ≡ false
    → IsSound c p k
    → IsSound (record c { resolved = b.work_unit_id ∷ c.resolved }) (b ∷ p) k
arrives-IsSound c p k b fresh v =
    let ks = map (λ (e : Tally). e.unit_name) k in
    let ps = map (λ (x : GameBatch). x.work_unit_id) p in
    let id = b.work_unit_id in
    record {
      distinct =
          AreDistinct-middle ks id ps (Fresh-marked c.resolved id (ks ++ ps) fresh v.marked)
            v.distinct;
      marked =
          AreMarked-middle (id ∷ c.resolved) ks id ps (among_self id c.resolved)
            (AreMarked-more c.resolved id (ks ++ ps) v.marked);
      artifacts_are = v.artifacts_are;
      positions_are = v.positions_are;
    }

counts-IsSound :
    (c : Coordinator) (p q : List GameBatch) (k : List Tally) (b : GameBatch)
    → Taken b p q
    → IsSound c p k
    → IsSound (count_batch c b) q (tally_of b ∷ k)
unfolding count_batch
counts-IsSound c p q k b t v = record {
  distinct = AreDistinct-Taken (Taken-names k t) v.distinct;
  marked = AreMarked-Taken c.resolved (Taken-names k t) v.marked;
  artifacts_are = ap (λ us. us ++ b.artifact_uri ∷ []) v.artifacts_are;
  positions_are = ap (λ n. add_int n b.positions) v.positions_are;
}

restores-IsSound :
    (c : Coordinator) (p : List GameBatch) (k : List Tally) (f : Found)
    → among (unit_id c.generation f.number) c.resolved ≡ false
    → IsSound c p k
    → IsSound (apply_found c f) p (tally_found c.generation f ∷ k)
unfolding apply_found
restores-IsSound c p k f fresh v =
    let id = unit_id c.generation f.number in
    rw fresh (record {
      distinct = (Fresh-marked c.resolved id (names k p) fresh v.marked, v.distinct);
      marked = (among_self id c.resolved, AreMarked-more c.resolved id (names k p) v.marked);
      artifacts_are = ap (λ us. us ++ f.uri ∷ []) v.artifacts_are;
      positions_are = ap (λ n. add_int n (pos f.n)) v.positions_are;
    })

repeats_unchanged :
    (c : Coordinator) (f : Found)
    → among (unit_id c.generation f.number) c.resolved ≡ true
    → c ≡ apply_found c f
unfolding apply_found
repeats_unchanged c f h = ground arith

-- However messages, verifications, topUp and resume interleave, the units that have been counted
-- and those that are being verified are different units, each marked as reported, and the artifacts
-- and positions of the coordinator, as an `int` of 64 bits, are those of what was counted, a unit
-- once.
pub Reach-IsSound :
    (sum : Text → Text) {c : Coordinator} {p : List GameBatch} {k : List Tally}
    → Reach sum c p k
    → IsSound c p k
Reach-IsSound sum (start cfg {c} e) = new-IsSound cfg c e
Reach-IsSound sum (arrives {c} {d} {p} {k} b r e) =
    let (fresh, same) = begin_cases c d b e in
    subst (λ x. IsSound x (b ∷ p) k) same (arrives-IsSound c p k b fresh (Reach-IsSound sum r))
Reach-IsSound sum (ignored {c} {d} {p} {k} b r e) =
    subst (λ x. IsSound x p k) (begin_ignored c d b e) (Reach-IsSound sum r)
Reach-IsSound sum (counts {c} {p} {q} {k} {b} s r t good) =
    counts-IsSound c p q k b t (Reach-IsSound sum r)
Reach-IsSound sum (drops {c} {p} {q} {k} {b} s r t bad) =
    let v = Reach-IsSound sum r in
    record {
      distinct = (AreDistinct-Taken (Taken-names k t) v.distinct).1;
      marked = (AreMarked-Taken c.resolved (Taken-names k t) v.marked).1;
      artifacts_are = v.artifacts_are;
      positions_are = v.positions_are;
    }
Reach-IsSound sum (issues r) =
    let v = Reach-IsSound sum r in
    record {
      distinct = v.distinct;
      marked = v.marked;
      artifacts_are = v.artifacts_are;
      positions_are = v.positions_are;
    }
Reach-IsSound sum (passes r) =
    let v = Reach-IsSound sum r in
    record {
      distinct = v.distinct;
      marked = v.marked;
      artifacts_are = v.artifacts_are;
      positions_are = v.positions_are;
    }
Reach-IsSound sum (restores {c} {p} {k} f r fresh) =
    restores-IsSound c p k f fresh (Reach-IsSound sum r)
Reach-IsSound sum (reappears {c} {p} {k} f r old) =
    subst (λ x. IsSound x p k) (repeats_unchanged c f old) (Reach-IsSound sum r)

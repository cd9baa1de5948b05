-- ===== src/Pipeline/Coordinator/Loop/Honest.antt =====
-- The positions of a coordinator, while those that can still be added fit an `int`.
use native.Mathlib.Omega.{arith}
use novachess.Prelude.{
  ℕ, ◌+◌, ◌<◌, ◌^◌, Bool, true, some, List, [], ◌∷◌, ◌++◌, ◌≡◌, refl, subst, ◌∙◌, inl, inr,
  Bool-cases, >>=-eq-some,
}
use novachess.Prelude.Int.{ℤ, pos, pos_part, ◌≤ℤ◌, add_int, add_int_fits}
use novachess.Prelude.Text.{Text, codes, print_int}
use novachess.Pipeline.Events.{GameBatch}
use novachess.Pipeline.Store.{Store}
use novachess.Pipeline.Coordinator.{Config, Coordinator, new, among, count_batch, handle_batch}
use novachess.Pipeline.Coordinator.Naming.{unit_id}
use novachess.Pipeline.Coordinator.Resume.{Found, scan, apply_found, apply_all, resume}
use novachess.Pipeline.Coordinator.Loop.{
  Event, delivers, ticks, finds_done, context_ends, run_early,
}

-- No batch takes positions away.
abbrev pub AllAdd : List GameBatch → Type 0
AllAdd [] = Unit
AllAdd (b ∷ bs) = (pos 0 ≤ℤ b.positions) × AllAdd bs

abbrev pub EventsAdd : List Event → Type 0
EventsAdd [] = Unit
EventsAdd (delivers b ∷ es) = (pos 0 ≤ℤ b.positions) × EventsAdd es
EventsAdd (ticks _ ∷ es) = EventsAdd es
EventsAdd (finds_done _ ∷ es) = EventsAdd es
EventsAdd (context_ends ∷ es) = EventsAdd es

-- The positions that batches, events and found artifacts can add together.
abbrev pub offered : List GameBatch → ℕ
offered [] = 0
offered (b ∷ bs) = pos_part b.positions + offered bs

abbrev pub events_offer : List Event → ℕ
events_offer [] = 0
events_offer (delivers b ∷ es) = pos_part b.positions + events_offer es
events_offer (ticks _ ∷ es) = events_offer es
events_offer (finds_done _ ∷ es) = events_offer es
events_offer (context_ends ∷ es) = events_offer es

abbrev pub records : List Found → ℕ
records [] = 0
records (f ∷ fs) = f.n + records fs

-- The channel is closed only when the target has been reached, and as many positions as `room` can
-- be added without an overflow.
pub record Honest (target : ℤ) (room : ℕ) (c : Coordinator) : Type 0 where
  pub aims : c.cfg.positions_per_generation ≡ target
  pub reached : c.done ≡ true → target ≤ℤ c.positions
  pub positive : pos 0 ≤ℤ c.positions
  pub fits : pos_part c.positions + room < 2 ^ 63

pub Honest-issued :
    {target : ℤ} {room : ℕ} (c : Coordinator) (next issued : ℕ)
    → Honest target room c
    → Honest target room (record c { next_index = next; issued = issued })
Honest-issued c next issued h = record {
  aims = h.aims;
  reached = h.reached;
  positive = h.positive;
  fits = h.fits;
}

-- A sum that fits is no less than what it was.
pub le-add_int :
    (t p q : ℤ) (room : ℕ)
    → pos 0 ≤ℤ p
    → pos 0 ≤ℤ q
    → pos_part p + (pos_part q + room) < 2 ^ 63
    → (t ≤ℤ p → t ≤ℤ add_int p q)
      × (pos 0 ≤ℤ add_int p q)
      × (pos_part (add_int p q) + room < 2 ^ 63)
le-add_int t p q room hp hq fits =
    let sum = add_int_fits p q hp hq (omega arith) in
    rw sum ((λ h. omega arith), omega arith, omega arith)

pub count_batch-Honest :
    {target : ℤ} {room : ℕ} (c : Coordinator) (b : GameBatch)
    → pos 0 ≤ℤ b.positions
    → Honest target (pos_part b.positions + room) c
    → Honest target room (count_batch c b)
unfolding count_batch
count_batch-Honest {target} {room} c b add h =
    let (more, positive, fits) =
      le-add_int target c.positions b.positions room h.positive add h.fits in
    let aims = h.aims in
    let reached = h.reached in
    record { aims = aims; reached = ground arith; positive = positive; fits = fits }

pub Honest-idle :
    {target : ℤ} {room : ℕ} (more : ℕ) (c : Coordinator)
    → Honest target (more + room) c
    → Honest target room c
Honest-idle more c h = record {
  aims = h.aims;
  reached = h.reached;
  positive = h.positive;
  fits = let fits = h.fits in omega arith;
}

pub Honest-marked :
    {target : ℤ} {room : ℕ} (c : Coordinator) (ids : List Text)
    → Honest target room c
    → Honest target room (record c { resolved = ids })
Honest-marked c ids h = record {
  aims = h.aims;
  reached = h.reached;
  positive = h.positive;
  fits = h.fits;
}

pub apply_found-Honest :
    {target : ℤ} {room : ℕ} (c : Coordinator) (f : Found)
    → Honest target (f.n + room) c
    → Honest target room (apply_found c f)
unfolding apply_found
apply_found-Honest {target} {room} c f h =
    let (more, positive, fits) =
      le-add_int target c.positions (pos f.n) room h.positive (omega arith) h.fits in
    elim (Bool-cases (among (unit_id c.generation f.number) c.resolved)) [
      | inl old ↦ rw old (Honest-idle f.n c h)
      | inr fresh ↦ rw fresh (record {
        aims = h.aims;
        reached = λ d. more (h.reached d);
        positive = positive;
        fits = fits;
      })
    ]

pub apply_all-Honest :
    {target : ℤ} {room : ℕ} (c : Coordinator) (fs : List Found)
    → Honest target (records fs + room) c
    → Honest target room (apply_all c fs)
apply_all-Honest c [] h = Honest-idle 0 c h
apply_all-Honest {target} {room} c (f ∷ fs) h =
    apply_all-Honest (apply_found c f) fs
      (apply_found-Honest c f (subst (λ n. Honest target n c) (omega arith) h))

pub new-Honest :
    (cfg : Config) (c : Coordinator) (room : ℕ)
    → new cfg ≡ some c
    → room < 2 ^ 63
    → Honest cfg.positions_per_generation room c
unfolding new
new-Honest cfg c room h fits = ground arith

pub new-generation :
    (cfg : Config) (c : Coordinator) → new cfg ≡ some c → c.generation ≡ cfg.generation
unfolding new
new-generation cfg c h = ground arith

module _ (sum : Text → Text) (s : Store) where
  pub handle_batch-Honest :
      {target : ℤ} {room : ℕ} (c : Coordinator) (b : GameBatch)
      → pos 0 ≤ℤ b.positions
      → Honest target (pos_part b.positions + room) c
      → Honest target room (handle_batch sum s c b)
  unfolding handle_batch
  handle_batch-Honest c b add h =
      let marked = record c { resolved = b.work_unit_id ∷ c.resolved } in
      let idle = Honest-idle (pos_part b.positions) c h in
      let count = count_batch-Honest marked b add (Honest-marked c marked.resolved h) in
      let drop = Honest-marked c marked.resolved idle in ground (arith, idle, count, drop)

  pub run_early-Honest :
      {target : ℤ} {room : ℕ} (c : Coordinator) (bs : List GameBatch)
      → AllAdd bs
      → Honest target (offered bs + room) c
      → Honest target room (run_early sum s c bs)
  unfolding run_early
  run_early-Honest c [] a h = Honest-idle 0 c h
  run_early-Honest {target} {room} c (b ∷ bs) (add, a) h =
      run_early-Honest (handle_batch sum s c b) bs a
        (handle_batch-Honest c b add (subst (λ n. Honest target n c) (omega arith) h))

  pub resume-Honest :
      {target : ℤ} {room : ℕ} (interrupted : Bool) (c d : Coordinator)
      → resume s interrupted c ≡ some d
      → ((uris : List Text)
          → s.list (codes "gen" ++ print_int c.generation) ≡ some uris
          → Honest target (records (scan s c.generation uris) + room) c)
      → Honest target room d
  unfolding resume
  resume-Honest {target} {room} interrupted c d e v =
      let (uris, listed, e1) = >>=-eq-some (s.list _) _ e in go uris (v uris listed) (ground arith)
    where
      go :
          (uris : List Text)
          → Honest target (records (scan s c.generation uris) + room) c
          → apply_all c (scan s c.generation uris) ≡ d
          → Honest target room d
      go uris h same =
          subst (Honest target room) same (apply_all-Honest c (scan s c.generation uris) h)

  pub handle_batch-generation :
      (c : Coordinator) (b : GameBatch) → (handle_batch sum s c b).generation ≡ c.generation
  unfolding handle_batch
  handle_batch-generation c b = ground arith

  pub run_early-generation :
      (c : Coordinator) (bs : List GameBatch) → (run_early sum s c bs).generation ≡ c.generation
  unfolding run_early
  run_early-generation c [] = refl
  run_early-generation c (b ∷ bs) =
      run_early-generation (handle_batch sum s c b) bs ∙ handle_batch-generation c b

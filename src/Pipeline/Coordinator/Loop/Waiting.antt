-- ===== src/Pipeline/Coordinator/Loop/Waiting.antt =====
-- What a run of a generation may come to, and the states in which it waits.
use native.Mathlib.Omega.{arith}
use novachess.Prelude.{
  ℕ, Bool, true, false, Option, none, some, List, [], ◌∷◌, ◌≡◌, refl, sym, ap, ◌⊎◌, subst, ◌∙◌, inl,
  inr, if◌then◌else◌, Bool-cases, ◌>>=◌,
}
use novachess.Prelude.Int.{ℤ, ◌≤ℤ◌, leb_ℤ}
use novachess.Pipeline.Coordinator.{Coordinator}
use novachess.Pipeline.Coordinator.Issue.{
  Round, accepts, Result, Issued, filled, stopped, failed, top_up,
}
use novachess.Pipeline.Coordinator.Issue.Published.{top_up-Ran, some-same}
use novachess.Pipeline.Coordinator.Issue.Queue.{top_up-outstanding}
use novachess.Pipeline.Coordinator.Loop.{
  Event, delivers, ticks, finds_done, context_ends, Status, waits, announced, errs, announce,
  after_top_up,
}
use novachess.Pipeline.Coordinator.Loop.Honest.{Honest, Honest-issued}

-- The bus accepts, and the context lives.
abbrev pub AllAccept : (ℕ → Round) → Type 0
AllAccept world = (n : ℕ) → world n ≡ accepts

-- No tick meets a bus that refuses or a context that has ended, and the announcement is taken.
abbrev pub AreCalm : List Event → Type 0
AreCalm [] = Unit
AreCalm (delivers _ ∷ es) = AreCalm es
AreCalm (ticks world ∷ es) = AllAccept world × AreCalm es
AreCalm (finds_done takes ∷ es) = (takes ≡ true) × AreCalm es
AreCalm (context_ends ∷ es) = ⊥

-- Whether the channel has been looked at since the last batch, from whether it had before.
abbrev pub ends_checked : Bool → List Event → Bool
ends_checked checked [] = checked
ends_checked checked (delivers _ ∷ es) = ends_checked false es
ends_checked checked (ticks _ ∷ es) = ends_checked checked es
ends_checked checked (finds_done _ ∷ es) = ends_checked true es
ends_checked checked (context_ends ∷ es) = ends_checked checked es

-- What a run may come to. It waits only when the channel has not been looked at since the last
-- batch, or with fewer positions than the target; it returns an error only when it was not calm; and
-- what it announces has at least the target's positions. Nothing is left undone for want of rounds.
abbrev pub MeetsTarget : ℤ → Type 0 → Bool → Option Status → Type 0
MeetsTarget target calm checked none = ⊥
MeetsTarget target calm checked (some (waits c)) =
    (checked ≡ false) ⊎ (leb_ℤ target c.positions ≡ false)
MeetsTarget target calm checked (some (errs c)) = ¬ calm
MeetsTarget target calm checked (some (announced ds c)) = target ≤ℤ ds.positions

pub calmer :
    (target : ℤ) (calm more : Type 0) (checked : Bool) (o : Option Status)
    → (more → calm)
    → MeetsTarget target calm checked o
    → MeetsTarget target more checked o
calmer target calm more checked none f h = h
calmer target calm more checked (some (waits c)) f h = h
calmer target calm more checked (some (errs c)) f h = λ m. h (f m)
calmer target calm more checked (some (announced ds c)) f h = h

pub announce-MeetsTarget :
    (target : ℤ) (calm : Type 0) (checked takes : Bool) (c : Coordinator)
    → (calm → takes ≡ true)
    → target ≤ℤ c.positions
    → MeetsTarget target calm checked (some (announce takes c))
unfolding announce
announce-MeetsTarget target calm checked true c f h = h
announce-MeetsTarget target calm checked false c f h = λ m. (let e = f m in cc)

-- A state that waits: honest, with the channel closed once the target is reached, and not closed if
-- it has been looked at.
pub record Waiting (target : ℤ) (room : ℕ) (checked : Bool) (c : Coordinator) : Type 0 where
  pub honest : Honest target room c
  pub closes : leb_ℤ target c.positions ≡ true → c.done ≡ true
  pub unseen : checked ≡ true → c.done ≡ false

pub Waiting-issued :
    {target : ℤ} {room : ℕ} {checked : Bool} (c : Coordinator) (next issued : ℕ)
    → Waiting target room checked c
    → Waiting target room checked (record c { next_index = next; issued = issued })
Waiting-issued c next issued h = record {
  honest = Honest-issued c next issued h.honest;
  closes = h.closes;
  unseen = h.unseen;
}

pub after_top_up-MeetsTarget :
    (target : ℤ) (room : ℕ) (checked last : Bool) (calm : Type 0) (world : ℕ → Round)
    (c : Coordinator) (next : Coordinator → Option Status)
    → Waiting target room checked c
    → ((d : Coordinator) → Waiting target room checked d → MeetsTarget target calm last (next d))
    → MeetsTarget target (AllAccept world × calm) last (top_up world c >>= λ o. after_top_up o next)
after_top_up-MeetsTarget target room checked last calm world c next v go =
    let (o, ran, r) = top_up-Ran world c in
    let waiting : Waiting target room checked o.after =
      subst (Waiting target room checked) (sym r.after_is) (Waiting-issued c _ _ v) in
    rw ran (by_result o.after o.result waiting (fills o ran))
  where
    fills : (o : Issued) → top_up world c ≡ some o → AllAccept world → o.result ≡ filled
    fills o ran open_ =
        let (o', ran', full, _) = top_up-outstanding world c open_ in
        let same : o' ≡ o = some-same (sym ran' ∙ ran) in
        ap (λ (x : Issued). x.result) (sym same) ∙ full

    by_result :
        (d : Coordinator) (r : Result)
        → Waiting target room checked d
        → (AllAccept world → r ≡ filled)
        → MeetsTarget target
            (AllAccept world × calm)
            last
            (elim r [ filled ↦ next d | stopped ↦ some (errs d) | failed ↦ some (errs d) ])
    by_result d filled h f =
        calmer target calm (AllAccept world × calm) last (next d) (λ m. m.1) (go d h)
    by_result d stopped h f = λ m. (let e = f m.0 in cc)
    by_result d failed h f = λ m. (let e = f m.0 in cc)

pub if-MeetsTarget :
    (target : ℤ) (calm : Type 0) (last b : Bool) (x y : Option Status)
    → (b ≡ true → MeetsTarget target calm last x)
    → (b ≡ false → MeetsTarget target calm last y)
    → MeetsTarget target calm last (if b then x else y)
if-MeetsTarget target calm last true x y h k = h refl
if-MeetsTarget target calm last false x y h k = k refl

pub checked_or_short :
    (target : ℤ) (room : ℕ) (checked : Bool) (c : Coordinator)
    → Waiting target room checked c
    → (checked ≡ false) ⊎ (leb_ℤ target c.positions ≡ false)
checked_or_short target room false c v = inl refl
checked_or_short target room true c v =
    let still_open = v.unseen refl in
    let closes = v.closes in
    elim (Bool-cases (leb_ℤ target c.positions)) [
      | inl reached ↦ (let closed = closes reached in cc)
      | inr short ↦ inr short
    ]

pub open_still :
    (target : ℤ) (c : Coordinator) (done : Bool)
    → (done ≡ true → target ≤ℤ c.positions)
    → leb_ℤ target c.positions ≡ false
    → done ≡ false
open_still target c false reached few = refl
open_still target c true reached few = let below = reached refl in absurd (ground arith)

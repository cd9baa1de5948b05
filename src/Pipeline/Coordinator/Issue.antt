-- ===== src/Pipeline/Coordinator/Issue.antt =====
-- topUp of internal/coordinator/coordinator.go. What the context and the bus answer in each round
-- of its loop is an argument. The rounds touch `next_index` and `issued` alone, which no other
-- section of the coordinator writes while topUp runs, and read `covered`, which only resume writes.
pub mod Published
pub mod Queue
use novachess.Prelude.{
  ℕ, zero, suc, ◌+◌, ◌-◌, Bool, true, false, ◌||◌, Option, none, some, List, [], ◌∷◌, ltb, ◌==◌,
  if◌then◌else◌,
}
use novachess.Prelude.Int.{ℤ, pos, pos_part, ◌-ℤ◌, sub_ℕ}
use novachess.Pipeline.Events.{WorkUnit}
use novachess.Pipeline.Store.{length}
use novachess.Pipeline.Coordinator.{Coordinator}
use novachess.Pipeline.Coordinator.Naming.{unit}

-- In one round: the context has ended, or the bus accepts or refuses what is published.
pub data Round : Type 0 where
  ended accepts refuses : Round

pub data Result : Type 0 where
  filled stopped failed : Result

pub record Issued : Type 0 where
  pub after : Coordinator
  pub published : List WorkUnit
  pub result : Result

abbrev pub elem : ℕ → List ℕ → Bool
elem n [] = false
elem n (x ∷ xs) = x == n || elem n xs

-- The covered indices that are still ahead.
abbrev pub covered_ahead : ℕ → List ℕ → ℕ
covered_ahead n [] = 0
covered_ahead n (x ∷ xs) = let rest = covered_ahead n xs in if ltb x n then rest else suc rest

abbrev pub prepend : WorkUnit → Option Issued → Option Issued
prepend u none = none
prepend u (some o) = some (record o { published = u ∷ o.published })

abbrev pub ends_with : Coordinator → Result → Option Issued
ends_with c r = some (record { after = c; published = []; result = r })

-- `issuedThisCall` counts down to 0 as `left`. A refused unit gives its index back.
unfoldable pub issue_units : ℕ → ℕ → (ℕ → Round) → ℕ → Coordinator → Option Issued
issue_units zero left world k c = none
issue_units (suc fuel) zero world k c = ends_with c filled
issue_units (suc fuel) (suc left) world k c =
    let index = c.next_index in
    let taken = record c { next_index = suc index } in
    let skipped = issue_units fuel (suc left) world (suc k) taken in
    let rest = issue_units fuel left world (suc k) (record taken { issued = suc c.issued }) in
    let publish : Option Issued = elim (world k) [
      | refuses ↦ ends_with c failed
      | _ ↦ prepend (unit c index) rest
    ] in
    elim (world k) [
      | ended ↦ ends_with c stopped
      | _ ↦ if elem index c.covered then skipped else publish
    ]

-- Units that have reported back are not outstanding, however they fared.
unfoldable pub outstanding : Coordinator → ℤ
outstanding c = sub_ℕ c.issued (length c.resolved)

unfoldable pub needed : Coordinator → ℕ
unfolding outstanding ◌-ℤ◌
needed c = pos_part (c.cfg.units_in_flight -ℤ outstanding c)

-- Each round publishes a unit or passes over a covered index.
unfoldable pub top_up : (ℕ → Round) → Coordinator → Option Issued
unfolding issue_units needed
top_up world c =
    issue_units (suc (needed c + covered_ahead c.next_index c.covered)) (needed c) world 0 c

-- ===== src/Pipeline/Coordinator/Issue/Queue.antt =====
-- What topUp leaves in the queue.
use native.Mathlib.Omega.{arith}
use novachess.Prelude.{ℕ, zero, suc, ◌+◌, some, ◌≡◌, ap, ◌∙◌, sym, subst, Bool-cases, inl, inr}
use novachess.Prelude.Int.{ℤ, ◌-ℤ◌, ◌≤ℤ◌, sub_ℕ, pos_part}
use novachess.Pipeline.Store.{length}
use novachess.Pipeline.Coordinator.{Coordinator}
use novachess.Pipeline.Coordinator.Issue.{
  Round, accepts, filled, Issued, elem, covered_ahead, issue_units, outstanding, needed, top_up,
}
use novachess.Pipeline.Coordinator.Issue.Published.{
  uncovered, top_up-Ran, round_skips, round_publishes, prepend-some, some-same,
}

issue_units-filled :
    (fuel left : ℕ) (world : ℕ → Round) (k : ℕ) (c : Coordinator) (o : Issued)
    → ((n : ℕ) → world n ≡ accepts)
    → issue_units fuel left world k c ≡ some o
    → o.result ≡ filled
unfolding issue_units
issue_units-filled zero left world k c o open_ h = cc
issue_units-filled (suc fuel) zero world k c o open_ h = sym (ap (λ p. p.result) (some-same h))
issue_units-filled (suc fuel) (suc left) world k c o open_ h =
    elim (Bool-cases (elem c.next_index c.covered)) [
      | inl over ↦
          issue_units-filled fuel (suc left) world (suc k)
            (record c { next_index = suc c.next_index }) o open_
            (sym (round_skips fuel left world k c (λ e. not_both (open_ k) e) over) ∙ h)
      | inr free ↦
          let (p, ran, same) =
            prepend-some _ o (sym (round_publishes fuel left world k c (open_ k) free) ∙ h) in
          ap (λ (q : Issued). q.result) (sym same)
          ∙ issue_units-filled fuel left world (suc k)
              (record c { next_index = suc c.next_index; issued = suc c.issued }) p open_ ran
    ]
  where
    not_both : {r : Round} → r ≡ accepts → r ≡ Round.ended → ⊥
    not_both a b = cc

needed_fills :
    (flight : ℤ) (issued resolved more : ℕ)
    → more ≡ pos_part (flight -ℤ sub_ℕ issued resolved)
    → flight ≤ℤ sub_ℕ (issued + more) resolved
unfolding ◌-ℤ◌
needed_fills flight issued resolved more h = ground arith

pub top_up-outstanding :
    (world : ℕ → Round) (c : Coordinator)
    → ((n : ℕ) → world n ≡ accepts)
    → (o : Issued) × (top_up world c ≡ some o)
      × (o.result ≡ filled)
      × (c.cfg.units_in_flight ≤ℤ outstanding o.after)
unfolding top_up needed outstanding
top_up-outstanding world c open_ =
    let (o, e, r) = top_up-Ran world c in
    let done =
      issue_units-filled (suc (needed c + covered_ahead c.next_index c.covered)) (needed c) world 0
        c o open_ e in
    let more = length (uncovered c.covered c.next_index r.passed) in
    let fills =
      needed_fills c.cfg.units_in_flight c.issued (length c.resolved) more (r.when_filled done) in
    (o, e, done, subst (λ d. c.cfg.units_in_flight ≤ℤ outstanding d) (sym r.after_is) fills)

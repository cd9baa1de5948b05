-- ===== src/Chess/Rules/Walk.antt =====
-- `kingReachableSquares` returns exactly the squares that a king can walk to.
use native.Mathlib.Omega.{arith}
use novachess.Prelude.{
  ℕ, zero, suc, ◌^◌, ◌<◌, true, false, ◌==◌, ◌≡◌, ◌↔◌, inl, inr, refl, ◌∙◌, sym, ap, subst,
  Bool-cases, ==_iff,
}
use novachess.Prelude.Bits.{test_bit, test_bit_high}
use novachess.Chess.Bitboard.{bb, has, squares}
use novachess.Chess.Bitboard.Members.{has-test_bit, test_bit-bb, bb-lt}
use novachess.Chess.Bitboard.Loop.{elem-squares}
use novachess.Chess.Attacks.{king_attacks}
use novachess.Chess.Rules.{grow, flood, king_reachable_squares}
use novachess.Chess.Rules.Reach.{
  any_attack-of, any_attack-from, test_bit-grow, grow-lt, flood-grow, flood-lt, flood-Subset, Clear,
}

-- A walk of king's steps that never enters a wall.
pub data Walk (walls from : ℕ) : ℕ → Type 0 where
  start : Walk walls from from
  step :
      (s t : ℕ)
      → Walk walls from s
      → t < 64
      → has (king_attacks s) t ≡ true
      → has walls t ≡ false
      → Walk walls from t

member-lt : (reach s : ℕ) → reach < 2 ^ 64 → test_bit reach s ≡ true → s < 64
member-lt reach s w h = ground (arith, test_bit_high 64 s reach w)

module _ (walls from : ℕ) where
  -- Every member can be walked to.
  abbrev Walked : ℕ → Type 0
  Walked reach = (k : ℕ) → k < 64 → test_bit reach k ≡ true → Walk walls from k

  grow-Walked : (reach : ℕ) → reach < 2 ^ 64 → Walked reach → Walked (grow reach walls)
  grow-Walked reach w walked k h member = elim (Bool-cases (test_bit reach k)) [
    | inl there ↦ walked k h there
    | inr new ↦
        let grown = sym (test_bit-grow reach walls k h) ∙ member in
        let free : has walls k ≡ false = has-test_bit walls k h ∙ ground (arith, grown) in
        let (s, among, attacks) = any_attack-from (squares reach) k (ground (arith, grown, new)) in
        let s_in : test_bit reach s ≡ true = sym (elem-squares reach s w) ∙ among in
        step s k (walked s (member-lt reach s w s_in) s_in) h
          (has-test_bit (king_attacks s) k h ∙ attacks) free
  ]

  flood-Walked : (fuel reach : ℕ) → reach < 2 ^ 64 → Walked reach → Walked (flood fuel reach walls)
  unfolding flood
  flood-Walked zero reach w walked = walked
  flood-Walked (suc fuel) reach w walked = elim (Bool-cases (grow reach walls == reach)) [
    | inl stays ↦ rw stays walked
    | inr grows ↦
        rw grows (
          flood-Walked fuel (grow reach walls) (grow-lt reach walls w) (grow-Walked reach w walked))
  ]

  -- A set where nothing grows holds all that can be walked to from a member.
  closed :
      (r t : ℕ)
      → r < 2 ^ 64
      → grow r walls ≡ r
      → test_bit r from ≡ true
      → Walk walls from t
      → test_bit r t ≡ true
  closed r t w fix first start = first
  closed r t w fix first (step s _ walk h attacks free) =
      let s_in = closed r s w fix first walk in
      let reached =
        any_attack-of (squares r) s t (elem-squares r s w ∙ s_in)
          (sym (has-test_bit (king_attacks s) t h) ∙ attacks) in
      let no_wall = sym (has-test_bit walls t h) ∙ free in
      sym (ap (λ r. test_bit r t) fix) ∙ ground (arith, test_bit-grow r walls t h, reached, no_wall)

-- From a square of the board that is no wall, the flood fill ends within its rounds at a set where
-- nothing grows any more, and the set holds exactly the squares that a king can walk to from there
-- without entering a wall.
pub king_reachable_squares-Walk :
    (walls from t : ℕ)
    → from < 64
    → t < 64
    → has walls from ≡ false
    → (grow (king_reachable_squares from walls) walls ≡ king_reachable_squares from walls)
      × ((has (king_reachable_squares from walls) t ≡ true) ↔ Walk walls from t)
unfolding king_reachable_squares
king_reachable_squares-Walk walls from t f h free =
    let w = bb-lt from f in
    let no_wall = sym (has-test_bit walls from f) ∙ free in
    let clear : Clear walls (bb from) = λ k l. elim (Bool-cases (from == k)) [
      | inl e ↦
          let same : from ≡ k = (==_iff from k).0 e in
          rw (test_bit-bb from k f, e, ← same, no_wall) refl
      | inr e ↦ rw (test_bit-bb from k f, e) refl
    ] in
    let r = flood 66 (bb from) walls in
    let fix = flood-grow walls 66 (bb from) w clear (omega arith) in
    let r_lt = flood-lt walls 66 (bb from) w in
    let here : test_bit (bb from) from ≡ true = test_bit-bb from from f ∙ ground arith in
    let first = flood-Subset walls 66 (bb from) w clear from here in
    let walked = flood-Walked walls from 66 (bb from) w (λ k l m.
      let same : from ≡ k = (==_iff from k).0 (sym (test_bit-bb from k f) ∙ m) in
      subst (Walk walls from) same start) in
    (
      fix,
      (
        (λ m. walked t h (sym (has-test_bit r t h) ∙ m)),
        (λ walk. has-test_bit r t h ∙ closed walls from r t r_lt fix first walk),
      ),
    )

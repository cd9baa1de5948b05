-- ===== src/Chess/Movegen/Path.antt =====
-- The loop of `kingPathAttacked`: it ends, and looks at every square of the path.
use native.Mathlib.Omega.{arith}
use novachess.Prelude.{
  ℕ, zero, suc, ◌+◌, ◌<◌, ◌≤◌, Bool, true, false, Option, none, some, ltb, ◌==◌, ◌≡◌, ◌≢◌, ◌⊎◌, inl,
  inr, refl, ◌∙◌, ap, subst, ◌-◌, Bool-cases, ==_iff,
}
use novachess.Prelude.Int.{pos, negsuc, ◌+ℤ◌}
use novachess.Chess.Types.{u8_of_int}
use novachess.Chess.Attacks.{Magics}
use novachess.Chess.Position.{Position}
use novachess.Chess.Movegen.Attackers.{attackers_to, is_attacked}
use novachess.Chess.Movegen.King.{path_from, king_path_attacked}

step_up : (sq : ℕ) → sq < 64 → u8_of_int (pos sq +ℤ pos 1) ≡ sq + 1
unfolding ◌+ℤ◌
step_up sq h = ground arith

step_down : (sq : ℕ) → sq < 63 → u8_of_int (pos (suc sq) +ℤ negsuc 0) ≡ sq
unfolding ◌+ℤ◌
step_down sq h = ground arith

module _ (g : Magics) (p : Position) (by : ℕ) where
  is_attacked-ne-none : (s : ℕ) → s < 64 → is_attacked g p s by ≢ none
  unfolding is_attacked attackers_to
  is_attacked-ne-none s h = ground arith

  is_attacked_answers :
      (s : ℕ) → s < 64 → (is_attacked g p s by ≡ some true) ⊎ (is_attacked g p s by ≡ some false)
  is_attacked_answers s h = either (is_attacked g p s by) (is_attacked-ne-none s h)
    where
      either : (o : Option Bool) → o ≢ none → (o ≡ some true) ⊎ (o ≡ some false)
      either none n = absurd (n refl)
      either (some true) n = inl refl
      either (some false) n = inr refl

  -- An answer that is right for the squares from `lo` to `hi`.
  abbrev Scans : ℕ → ℕ → Option Bool → Type 0
  Scans lo hi o =
      ((o ≡ some true) × (k : ℕ) × (lo ≤ k) × (k ≤ hi) × (is_attacked g p k by ≡ some true))
      ⊎ ((o ≡ some false) × ((k : ℕ) → lo ≤ k → k ≤ hi → is_attacked g p k by ≡ some false))

  at_end : (k sq : ℕ) → sq ≤ k → k ≤ sq → sq ≡ k
  at_end k sq lo hi = omega arith

  scan_up :
      (fuel sq to : ℕ)
      → sq ≤ to
      → to < 64
      → to < sq + fuel
      → Scans sq to (path_from g p fuel sq to (pos 1) by)
  unfolding path_from
  scan_up zero sq to le h enough = absurd (omega arith)
  scan_up (suc fuel) sq to le h enough = elim (is_attacked_answers sq (omega arith)) [
    | inl e ↦ rw e (inl (refl, sq, omega arith, le, e))
    | inr e ↦ elim (Bool-cases (sq == to)) [
      | inl last ↦
          let same : sq ≡ to = (==_iff sq to).0 last in
          rw (e, last)
            (inr (
              refl,
              λ k lo hi.
                  subst (λ k. is_attacked g p k by ≡ some false) (at_end k sq lo (omega arith)) e,
            ))
      | inr before ↦
          rw (e, before, step_up sq (omega arith))
            (elim (scan_up fuel (sq + 1) to (ground arith) h (omega arith)) [
              | inl (found, k, lo, hi, hit) ↦ inl (found, k, omega arith, hi, hit)
              | inr (clear, none_hit) ↦ inr (
                clear,
                λ k lo hi. elim (Bool-cases (sq == k)) [
                  | inl here ↦
                      subst (λ k. is_attacked g p k by ≡ some false) ((==_iff sq k).0 here) e
                  | inr later ↦ none_hit k (ground arith) hi
                ],
              )
            ])
    ]
  ]

  scan_down :
      (fuel sq to : ℕ)
      → to ≤ sq
      → sq < 64
      → sq < to + fuel
      → Scans to sq (path_from g p fuel sq to (negsuc 0) by)
  unfolding path_from
  scan_down zero sq to le h enough = absurd (omega arith)
  scan_down (suc fuel) sq to le h enough = elim (is_attacked_answers sq h) [
    | inl e ↦ rw e (inl (refl, sq, le, omega arith, e))
    | inr e ↦ elim (Bool-cases (sq == to)) [
      | inl last ↦
          let same : sq ≡ to = (==_iff sq to).0 last in
          rw (e, last)
            (inr (
              refl,
              λ k lo hi.
                  subst (λ k. is_attacked g p k by ≡ some false) (at_end k sq (omega arith) hi) e,
            ))
      | inr after ↦
          let n : (n : ℕ) × (sq ≡ suc n) = (sq - 1, ground arith) in
          let back : u8_of_int (pos sq +ℤ negsuc 0) ≡ n.0 =
            ap (λ s. u8_of_int (pos s +ℤ negsuc 0)) n.1 ∙ step_down n.0 (omega (arith, n.1)) in
          rw (e, after, back)
            (elim (scan_down fuel n.0 to (ground (arith, n.1)) (omega (arith, n.1))
              (omega (arith, n.1))) [
                | inl (found, k, lo, hi, hit) ↦ inl (found, k, lo, omega (arith, n.1), hit)
                | inr (clear, none_hit) ↦ inr (
                  clear,
                  λ k lo hi. elim (Bool-cases (sq == k)) [
                    | inl here ↦
                        subst (λ k. is_attacked g p k by ≡ some false) ((==_iff sq k).0 here) e
                    | inr later ↦ none_hit k lo (ground (arith, n.1))
                  ],
                )
              ])
    ]
  ]

abbrev Between : ℕ → ℕ → ℕ → Type 0
Between from to k = ((from ≤ k) × (k ≤ to)) ⊎ ((to ≤ k) × (k ≤ from))

falling :
    (from to k : ℕ) → ltb to from ≡ true → Between from to k → (to ≤ from) × (to ≤ k) × (k ≤ from)
falling from to k d b = (ground arith, ground arith, ground arith)

rising :
    (from to k : ℕ) → ltb to from ≡ false → Between from to k → (from ≤ to) × (from ≤ k) × (k ≤ to)
rising from to k u b = (ground arith, ground arith, ground arith)

-- For two squares of the board and one between them, both ends included, `kingPathAttacked` ends:
-- with true, and then some square between the ends is attacked; or with false, and then the one
-- between them is not.
pub king_path_attacked_answers :
    (g : Magics) (p : Position) (from to by k : ℕ)
    → from < 64
    → to < 64
    → ((from ≤ k) × (k ≤ to)) ⊎ ((to ≤ k) × (k ≤ from))
    → ((king_path_attacked g p from to by ≡ some true)
        × (s : ℕ) × (((from ≤ s) × (s ≤ to)) ⊎ ((to ≤ s) × (s ≤ from)))
        × (is_attacked g p s by ≡ some true))
      ⊎ ((king_path_attacked g p from to by ≡ some false) × (is_attacked g p k by ≡ some false))
unfolding king_path_attacked
king_path_attacked_answers g p from to by k f t between = elim (Bool-cases (ltb to from)) [
  | inl down ↦
      let (order, lo_k, k_hi) = falling from to k down between in
      rw down (elim (scan_down g p by 64 from to order f (omega arith)) [
        | inl (found, s, lo, hi, hit) ↦ inl (found, s, inr (lo, hi), hit)
        | inr (clear, none_hit) ↦ inr (clear, none_hit k lo_k k_hi)
      ])
  | inr up ↦
      let (order, lo_k, k_hi) = rising from to k up between in
      rw up (elim (scan_up g p by 64 from to order t (omega arith)) [
        | inl (found, s, lo, hi, hit) ↦ inl (found, s, inl (lo, hi), hit)
        | inr (clear, none_hit) ↦ inr (clear, none_hit k lo_k k_hi)
      ])
]

-- ===== src/Search/Table/Slots.antt =====
-- The loops of `Store` and `Probe` over a bucket: where the one ends, the other finds.
use native.Mathlib.Omega.{arith}
use novachess.Prelude.{
  ℕ, zero, suc, ◌+◌, Bool, true, false, not, ◌&&◌, ◌||◌, List, [], ◌∷◌, ◌==◌, ◌≡◌, ◌≢◌, ◌⊎◌, inl,
  inr, refl, Bool-cases, if◌then◌else◌,
}
use novachess.Prelude.Int.{ℤ, pos, ltb_ℤ, ◌-ℤ◌}
use novachess.Chess.Move.{is_none}
use novachess.Search.Mate.{adjust_mate_score_from_tt}
use novachess.Search.Entry.{
  Entry, read, write, move_of, score_of, depth_of, bound_of, gen_of, bound_none, bound_exact,
}
use novachess.Search.Entry.Fields.{read-write}
use novachess.Search.Table.{
  Probed, Choice, keep, replace, probe_entries, usable_bound, choose, set_entry,
}

-- A slot of a bucket before which no entry belongs to the key.
pub data Slot (key : ℕ) : List Entry → ℕ → Type 0 where
  here : (e : Entry) (es : List Entry) → Slot key (e ∷ es) 0
  later :
      (e : Entry) (es : List Entry) (n : ℕ)
      → (read e key).1 ≡ false
      → Slot key es n
      → Slot key (e ∷ es) (suc n)

-- What a probe that ends at a word returns.
abbrev pub found : ℕ → ℤ → ℤ → ℤ → ℤ → Probed
found d depth ply alpha beta =
    let score = adjust_mate_score_from_tt (score_of d) ply in
    record {
      move = move_of d;
      score = score;
      hit = true;
      usable = not (ltb_ℤ (pos (depth_of d)) depth) && usable_bound (bound_of d) score alpha beta;
    }

-- A word that is written to such a slot is the one that the probe ends at.
pub probe_entries-set :
    (key : ℕ) (es : List Entry) (v word : ℕ) (depth ply alpha beta : ℤ)
    → Slot key es v
    → word ≢ 0
    → bound_of word ≢ 0
    → probe_entries (set_entry es v (write key word)) key depth ply alpha beta
      ≡ found word depth ply alpha beta
unfolding probe_entries set_entry
probe_entries-set key [] v word depth ply alpha beta slot w b = elim slot [ ]
probe_entries-set key (e ∷ es) zero word depth ply alpha beta (here _ _) w b =
    let (back, _, _) = read-write key key word word w in ground (arith, back)
probe_entries-set key (e ∷ es) (suc v) word depth ply alpha beta (later _ _ _ skip slot) w b =
    let rest = probe_entries-set key es v word depth ply alpha beta slot w b in rw skip rest

module _ (gen key move : ℕ) (depth : ℤ) (bound : ℕ) (some_move : is_none move ≡ false) where
  -- Where the loop of `Store` ends: at a kept entry that a probe can use, at a slot of what is
  -- left of the bucket, or at the victim so far, with nothing left of the bucket for the key.
  abbrev pub Chosen : List Entry → ℕ → ℕ → Choice → Type 0
  Chosen es i victim keep =
      (bound ≢ bound_exact)
      × ((ply alpha beta : ℤ) → (probe_entries es key depth ply alpha beta).usable ≡ true)
  Chosen es i victim (replace v m) =
      (m ≡ move) × ((v ≡ victim) ⊎ ((k : ℕ) × (v ≡ i + k) × Slot key es k))

  skip_Chosen :
      (e : Entry) (es : List Entry) (i victim : ℕ) (better : Bool) (c : Choice)
      → (read e key).1 ≡ false
      → Chosen es (suc i) (if better then i else victim) c
      → Chosen (e ∷ es) i victim c
  unfolding probe_entries
  skip_Chosen e es i victim better keep skip (apart, cuts) =
      (apart, λ ply alpha beta. rw skip (cuts ply alpha beta))
  skip_Chosen e es i victim true (replace v m) skip (same, inl here_is) =
      (same, inr (0, ground arith, here e es))
  skip_Chosen e es i victim false (replace v m) skip (same, inl as_before) = (same, inl as_before)
  skip_Chosen e es i victim better (replace v m) skip (same, inr (k, at, slot)) =
      (same, inr (suc k, omega arith, later e es k skip slot))

  -- Whether an entry of this key is worth more than what is to be stored.
  abbrev worth_keeping : Entry → Bool
  worth_keeping e =
      (read e key).1
      && bound_of (read e key).0 == bound_exact
      && ltb_ℤ depth (pos (depth_of (read e key).0))
      && not (bound == bound_exact)

  kept_use :
      (e : Entry) (es : List Entry)
      → worth_keeping e ≡ true
      → (bound ≢ bound_exact)
        × ((ply alpha beta : ℤ) → (probe_entries (e ∷ es) key depth ply alpha beta).usable ≡ true)
  unfolding probe_entries usable_bound
  kept_use e es k = ((λ b. ground arith), (λ ply alpha beta. ground arith))

  stop_Chosen :
      (e : Entry) (es : List Entry) (i victim : ℕ)
      → Chosen (e ∷ es) i victim (
          if worth_keeping e
          then keep
          else replace i (if (read e key).1 && is_none move then move_of (read e key).0 else move))
  stop_Chosen e es i victim = elim (Bool-cases (worth_keeping e)) [
    | inl k ↦ rw k (kept_use e es k)
    | inr k ↦ rw k (ground (arith, some_move), inr (0, omega arith, here e es))
  ]

  pub choose-Chosen :
      (es : List Entry) (i victim : ℕ) (best : ℤ)
      → Chosen es i victim (choose es i victim best gen key move depth bound)
  unfolding choose
  choose-Chosen [] i victim best = (refl, inl refl)
  choose-Chosen (e ∷ es) i victim best =
      let d = (read e key).0 in
      let value : ℤ = if gen_of d == gen then pos (depth_of d) else pos (depth_of d) -ℤ pos 64 in
      let better = ltb_ℤ value best in
      elim (Bool-cases (bound_of d == bound_none || (read e key).1)) [
        | inl stops ↦ rw stops (stop_Chosen e es i victim)
        | inr goes ↦ rw goes (
            skip_Chosen e es i victim better _ (ground arith) (
              choose-Chosen es (suc i) (if better then i else victim)
                (if better then value else best)))
      ]

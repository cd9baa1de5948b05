-- ===== src/Search/Table/Lookup.antt =====
-- What `Store` writes is what `Probe` finds.
use native.Mathlib.Omega.{arith}
use novachess.Prelude.{
  ℕ, ◌+◌, ◌<◌, ◌^◌, bit_and, true, false, not, ◌&&◌, List, ◌∷◌, ◌≡◌, ◌≢◌, ◌⊎◌, inl, inr, refl, ◌∙◌,
  sym, ap, subst, update,
}
use novachess.Prelude.Int.{ℤ, pos, ltb_ℤ}
use novachess.Chess.Types.{u8}
use novachess.Chess.Move.{is_none}
use novachess.Search.Mate.{
  FitsInt16, adjust_mate_score_to_tt, adjust_mate_score_from_tt, adjust_mate_score_from_tt-to_tt,
}
use novachess.Search.Entry.{Entry, write, pack_entry, bound_of, bound_none, bound_exact}
use novachess.Search.Entry.Fields.{pack_entry-Reads, bound_of_zero}
use novachess.Search.Table.Slots.{Slot, here, probe_entries-set, Chosen, choose-Chosen}
use novachess.Search.Table.{
  Tt, Probed, Choice, keep, replace, probe_entries, probe, usable_bound, set_entry, store_choice,
  store, clamp_to_int16, clamp_depth,
}

clamp_depth-lt : (d : ℤ) → clamp_depth d < 256
unfolding clamp_depth
clamp_depth-lt d = ground arith

-- At a slot before which nothing belongs to the key, `Probe` returns what was stored there.
stored :
    (key v move : ℕ) (es : List Entry) (score static_eval depth : ℤ) (ply bound gen : ℕ)
    (wanted alpha beta : ℤ)
    → Slot key es v
    → move < 65536
    → FitsInt16 (adjust_mate_score_to_tt score (pos ply))
    → bound ≢ 0
    → bound < 4
    → probe_entries
        (set_entry es v (
          write key (
            pack_entry move
              (adjust_mate_score_to_tt score (pos ply))
              static_eval
              (clamp_depth depth)
              bound
              gen)))
        key
        wanted
        (pos ply)
        alpha
        beta
      ≡ record {
        move = move;
        score = score;
        hit = true;
        usable =
            not (ltb_ℤ (pos (clamp_depth depth)) wanted) && usable_bound bound score alpha beta;
      }
stored key v move es score static_eval depth ply bound gen wanted alpha beta slot m fits some_bound
      b =
    let adjusted = adjust_mate_score_to_tt score (pos ply) in
    let word = pack_entry move adjusted static_eval (clamp_depth depth) bound gen in
    let r =
      pack_entry-Reads move adjusted static_eval (clamp_depth depth) bound gen m fits
        (clamp_depth-lt depth) b in
    let real : bound_of word ≢ 0 = λ e. some_bound (sym r.bound_back ∙ e) in
    let some_word : word ≢ 0 = λ e. real (ap bound_of e ∙ bound_of_zero) in
    let score_kept =
      ap (λ s. adjust_mate_score_from_tt s (pos ply)) r.score_back
      ∙ adjust_mate_score_from_tt-to_tt score ply in
    probe_entries-set key es v word wanted (pos ply) alpha beta slot some_word real
    ∙ rw (r.move_back, r.depth_back, r.bound_back, score_kept) refl

-- What a probe for the key finds once a score is stored. Either the table is as it was, the bound
-- is not exact, and a probe for the same key and depth finds a score that may be used; or a probe
-- returns the move and the score that were stored, usable when the stored depth, clamped to a byte,
-- is at least the depth asked for and the bound permits it in the window.
abbrev pub Kept : Tt → Tt → ℕ → ℤ → ℕ → ℕ → ℤ → ℤ → Type 0
Kept t after key depth ply bound alpha beta =
    (after ≡ t) × (bound ≢ bound_exact) × ((probe t key depth (pos ply) alpha beta).usable ≡ true)

abbrev pub answer : ℕ → ℤ → ℤ → ℕ → ℤ → ℤ → ℤ → Probed
answer move score depth bound wanted alpha beta = record {
  move = move;
  score = score;
  hit = true;
  usable = not (ltb_ℤ (pos (clamp_depth depth)) wanted) && usable_bound bound score alpha beta;
}

update_here : {A : Type 0} (f : ℕ → A) (i : ℕ) (v : A) → update f i v i ≡ v
update_here f i v = ground arith

module _ (t : Tt) (key move : ℕ) (score static_eval depth : ℤ) (ply bound : ℕ)
    (wanted alpha beta : ℤ) (some_move : is_none move ≡ false) (m : move < 65536)
    (fits : FitsInt16 (adjust_mate_score_to_tt score (pos ply))) (some_bound : bound ≢ bound_none)
    (b : bound < 4) (e : Entry) (es : List Entry)
    (at : t.buckets (bit_and key t.mask) ≡ e ∷ es) where
  chosen-Slot :
      (v : ℕ)
      → (v ≡ 0) ⊎ ((k : ℕ) × (v ≡ 0 + k) × Slot key (t.buckets (bit_and key t.mask)) k)
      → Slot key (t.buckets (bit_and key t.mask)) v
  chosen-Slot v (inl first) = rw (at, first) (here e es)
  chosen-Slot v (inr (k, is_k, slot)) =
      let e : k ≡ v = omega arith in subst (Slot key (t.buckets (bit_and key t.mask))) e slot

  stored_choice :
      (c : Choice)
      → Chosen (u8 t.gen) key move depth bound some_move (t.buckets (bit_and key t.mask)) 0 0 c
      → Kept t
          (store_choice t key c score static_eval depth (pos ply) bound)
          key
          depth
          ply
          bound
          alpha
          beta
        ⊎ (probe
              (store_choice t key c score static_eval depth (pos ply) bound)
              key
              wanted
              (pos ply)
              alpha
              beta
            ≡ answer move score depth bound wanted alpha beta)
  unfolding store_choice probe
  stored_choice keep (apart, cuts) = inl (refl, apart, cuts (pos ply) alpha beta)
  stored_choice (replace v m') (same, slot) =
      let i = bit_and key t.mask in
      inr (
        ap (λ es. probe_entries es key wanted (pos ply) alpha beta) (update_here t.buckets i _)
        ∙ rw same (
            stored key v move (t.buckets i) score (clamp_to_int16 static_eval) depth ply bound
              (u8 t.gen) wanted alpha beta (chosen-Slot v slot) m fits some_bound b))

-- `Store` of a real move with a real bound, at a ply that is not negative, with a score that fits
-- and in a bucket that is not empty, and a probe at that same ply afterwards: either the table is as
-- it was, the bound is not exact, and a probe for the same key and depth finds a score that may be
-- used whatever the window; or a probe for the key at the same ply returns the move and the score
-- that were stored, usable when the stored depth, clamped to a byte, is at least the depth asked for
-- and the bound permits it in the window.
pub probe-store :
    (t : Tt) (key move : ℕ) (score static_eval depth : ℤ) (ply bound : ℕ) (wanted alpha beta : ℤ)
    (e : Entry) (es : List Entry)
    → t.buckets (bit_and key t.mask) ≡ e ∷ es
    → is_none move ≡ false
    → move < 65536
    → FitsInt16 (adjust_mate_score_to_tt score (pos ply))
    → bound ≢ bound_none
    → bound < 4
    → Kept t
        (store t key move score static_eval depth (pos ply) bound)
        key
        depth
        ply
        bound
        alpha
        beta
      ⊎ (probe
            (store t key move score static_eval depth (pos ply) bound)
            key
            wanted
            (pos ply)
            alpha
            beta
          ≡ answer move score depth bound wanted alpha beta)
unfolding store
probe-store t key move score static_eval depth ply bound wanted alpha beta e es at some_move m fits
      some_bound b =
    stored_choice t key move score static_eval depth ply bound wanted alpha beta some_move m fits
      some_bound b e es at _
      (choose-Chosen (u8 t.gen) key move depth bound some_move (t.buckets (bit_and key t.mask)) 0 0
        (pos (2 ^ 30)))

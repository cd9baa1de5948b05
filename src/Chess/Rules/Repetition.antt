-- ===== src/Chess/Rules/Repetition.antt =====
-- How far back the repetition count looks.
use native.Mathlib.Omega.{arith}
use novachess.Prelude.{
  ℕ, ◌+◌, ◌*◌, ◌-◌, ◌≤◌, List, [], ◌∷◌, ◌≡◌, refl, suc, ◌%◌, ◌==◌, ◌&&◌, true, false, Bool-cases,
  inl, inr, sym, ap, ◌∙◌, if◌then◌else◌,
}
use novachess.Prelude.Int.{ℤ, pos, pos_part, neg_part, ◌-ℤ◌, ltb_ℤ, leb_ℤ, negsuc}
use novachess.Chess.Zobrist.{Keys}
use novachess.Chess.Position.{Position, Undo}
use novachess.Chess.Position.Make.{make_null_move, pass_turn}
use novachess.Chess.Position.NullMove.{make_null_move-eq}
use novachess.Chess.Rules.{history_length, repeats, older, repetition_count}

-- Two indices for each entry that is counted.
repeats-le :
    (key : ℕ) (us : List Undo) (i end : ℤ)
    → 2 * repeats key us i end ≤ pos_part i + 2 + neg_part end - (pos_part end + neg_part i)
unfolding repeats ◌-ℤ◌
repeats-le key [] i end = omega arith
repeats-le key (u ∷ []) i end = ground arith
repeats-le key (u ∷ v ∷ us) i end = ground (arith, repeats-le key us (i -ℤ pos 2) end)

-- Twice the repetition count is at most the length of the history, and at most the halfmove clock
-- (at most 0 when the clock is negative).
pub repetition_count-le :
    (p : Position)
    → (2 * repetition_count p ≤ history_length p.history)
      × (2 * repetition_count p ≤ pos_part p.halfmove)
unfolding repetition_count ◌-ℤ◌
repetition_count-le p =
    let len = pos (history_length p.history) in
    let end : ℤ = if ltb_ℤ (len -ℤ p.halfmove) (pos 0) then pos 0 else len -ℤ p.halfmove in
    let bound = repeats-le p.key (older p.history) (len -ℤ pos 2) end in
    (ground (arith, bound), ground (arith, bound))

-- After a null move nothing counts as a repetition, whatever was played before.
pub repetition_count-null_move :
    (z : Keys) (p : Position) → repetition_count (make_null_move z p) ≡ 0
unfolding pass_turn
repetition_count-null_move z p =
    let (_, by_clock) = repetition_count-le (make_null_move z p) in
    omega (arith, by_clock, null_clock z p)
  where
    null_clock : (z : Keys) (p : Position) → pos_part (make_null_move z p).halfmove ≡ 0
    null_clock z p = rw make_null_move-eq refl

-- Of the entries of a history, the newest `plies` plies ago: how many lie an even number of plies
-- back, no further than the clock, with the key.
abbrev pub occurrences : ℕ → ℤ → ℕ → List Undo → ℕ
occurrences key clock plies [] = 0
occurrences key clock plies (u ∷ us) =
    (if plies % 2 == 0 && leb_ℤ (pos plies) clock && u.key == key then 1 else 0)
    + occurrences key clock (suc plies) us

occurrences_beyond :
    (key : ℕ) (clock : ℤ) (plies : ℕ) (us : List Undo)
    → ltb_ℤ clock (pos plies) ≡ true
    → occurrences key clock plies us ≡ 0
occurrences_beyond key clock plies [] h = refl
occurrences_beyond key clock plies (u ∷ us) h =
    ground (arith, occurrences_beyond key clock (suc plies) us (ground (arith, h)))

-- The index where the loop ends.
abbrev last_index : ℕ → ℤ → ℤ
last_index len clock = let end = pos len -ℤ clock in if ltb_ℤ end (pos 0) then pos 0 else end

-- The loop ends where the clock has run out.
stops :
    (len plies : ℕ) (clock : ℤ)
    → plies ≤ len
    → ltb_ℤ (pos len -ℤ pos plies) (last_index len clock) ≡ ltb_ℤ clock (pos plies)
unfolding ◌-ℤ◌
stops len plies (pos n) h = ground arith
stops len plies (negsuc n) h = ground arith

two_less : (len plies : ℕ) → pos len -ℤ pos plies -ℤ pos 2 ≡ pos len -ℤ pos (suc (suc plies))
unfolding ◌-ℤ◌
two_less len plies = ground arith

-- The loop counts the entries from an even number of plies back on.
repeats-occurrences :
    (key : ℕ) (clock : ℤ) (len plies : ℕ) (us : List Undo)
    → plies % 2 ≡ 0
    → plies + history_length us ≡ suc len
    → repeats key us (pos len -ℤ pos plies) (last_index len clock) ≡ occurrences key clock plies us
unfolding repeats
repeats-occurrences key clock len plies [] even long = refl
repeats-occurrences key clock len plies (u ∷ []) even long =
    let ends = stops len plies clock (omega (arith, long)) in ground (arith, ends, even)
repeats-occurrences key clock len plies (u ∷ v ∷ us) even long =
    let ends = stops len plies clock (omega (arith, long)) in
    let further =
      ap (λ i. repeats key us i (last_index len clock)) (two_less len plies)
      ∙ repeats-occurrences key clock len (suc (suc plies)) us (omega (arith, even))
          (omega (arith, long)) in
    let odd : (suc plies % 2 == 0) ≡ false = ground (arith, even) in
    elim (Bool-cases (ltb_ℤ clock (pos plies))) [
      | inl beyond ↦
          rw (ends, beyond) (sym (occurrences_beyond key clock plies (u ∷ v ∷ us) beyond))
      | inr within ↦ rw (ends, within) (ground (arith, further, odd, even, within))
    ]

-- The loop starts two plies back.
from_history :
    (key : ℕ) (clock : ℤ) (us : List Undo)
    → repeats key
        (older us)
        (pos (history_length us) -ℤ pos 2)
        (last_index (history_length us) clock)
      ≡ occurrences key clock 1 us
unfolding repeats
from_history key clock [] = refl
from_history key clock (u ∷ us) =
    ground (arith, repeats-occurrences key clock (suc (history_length us)) 2 us refl (omega arith))

-- RepetitionCount is the number of positions before this one that have its key and lie an even
-- number of plies back, no further than the halfmove clock.
pub repetition_count-occurrences :
    (p : Position) → repetition_count p ≡ occurrences p.key p.halfmove 1 p.history
unfolding repetition_count
repetition_count-occurrences p = from_history p.key p.halfmove p.history

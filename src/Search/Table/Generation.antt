-- ===== src/Search/Table/Generation.antt =====
-- The generation counter has eight bits where an entry keeps six.
use native.Mathlib.Omega.{arith}
use novachess.Prelude.{ℕ, zero, suc, ◌/◌, ◌^◌, ◌≤◌, ◌<◌, List, [], ◌∷◌, ◌≡◌, ◌≢◌, refl}
use novachess.Prelude.Fields.{and-mask}
use novachess.Chess.Types.{u8}
use novachess.Search.Entry.{Entry, gen_of}
use novachess.Search.Table.{Tt, used_entries, sampled, hashfull}

gen_of-lt : (d : ℕ) → gen_of d < 64
unfolding gen_of
gen_of-lt d = omega (arith, and-mask 6 (u8 (d / 2 ^ 58)))

none_used : (gen : ℕ) (es : List Entry) → 64 ≤ gen → used_entries gen es ≡ 0
unfolding used_entries
none_used gen [] h = refl
none_used gen (e ∷ es) h = ground (arith, gen_of-lt e.word, none_used gen es h)

sampled_none : (t : Tt) (n : ℕ) → 64 ≤ u8 t.gen → (sampled t n).0 ≡ 0
unfolding sampled
sampled_none t zero h = refl
sampled_none t (suc n) h = ground (arith, none_used (u8 t.gen) (t.buckets n) h, sampled_none t n h)

-- While the low byte of the counter is 64 or more, `Hashfull` is 0 and no entry is of the current
-- generation, whatever the table holds.
pub hashfull_after_64 : (t : Tt) (d : ℕ) → 64 ≤ u8 t.gen → (hashfull t ≡ 0) × (gen_of d ≢ u8 t.gen)
unfolding hashfull
hashfull_after_64 t d h = (
  ground (arith, sampled_none t t.len h, sampled_none t 1000 h),
  λ e. absurd (omega (arith, gen_of-lt d, e)),
)

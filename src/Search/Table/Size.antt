-- ===== src/Search/Table/Size.antt =====
-- The size of the table, and that every key has a bucket.
use native.Mathlib.Omega.{arith}
use native.Mathlib.Nat.{pow-suc, one-le-pow}
use novachess.Prelude.{
  ℕ, zero, suc, ◌+◌, ◌*◌, ◌/◌, ◌^◌, ◌≤◌, ◌<◌, bit_and, ◌≡◌, refl, ap, sym, subst, true, inl, inr,
  Bool-cases, leb, if◌then◌else◌,
}
use novachess.Prelude.Int.{ℤ, pos, ltb_ℤ, pos_part}
use novachess.Prelude.Fields.{and-mask}
use novachess.Search.Table.{doubled, bucket_count, new_tt}

add_zero_to : (k : ℕ) → k + 0 ≡ k
add_zero_to k = omega arith

suc_over : (k fuel : ℕ) → k + suc fuel ≡ suc k + fuel
suc_over k fuel = omega arith

-- The loop stops at a power of two that is at most `want`, and twice it is more.
pub record Largest (want count : ℕ) : Type 0 where
  pub exponent : ℕ
  pub power : count ≡ 2 ^ exponent
  pub fits : count ≤ want
  pub tight : want < count * 2

doubled-Largest :
    (fuel want k : ℕ)
    → 2 ^ k ≤ want
    → want < 2 ^ (k + fuel)
    → Largest want (doubled fuel want (2 ^ k))
unfolding doubled
doubled-Largest zero want k le lt = absurd (omega (arith, ap (λ (n : ℕ). 2 ^ n) (add_zero_to k)))
doubled-Largest (suc fuel) want k le lt = elim (Bool-cases (leb (2 ^ k * 2) want)) [
  | inl more ↦
      let twice : 2 ^ k * 2 ≡ 2 ^ suc k = omega (arith, pow-suc 2 k) in
      let below : want < 2 ^ (suc k + fuel) =
        omega (arith, ap (λ (n : ℕ). 2 ^ n) (suc_over k fuel)) in
      rw more (
        subst (λ n. Largest want (doubled fuel want n)) (sym twice)
          (doubled-Largest fuel want (suc k) (ground (arith, twice)) below))
  | inr enough ↦ rw enough (record { exponent = k; power = refl; fits = le; tight = ground arith })
]

-- A table for fewer than 2 ^ 40 megabytes: the loop ends with the largest power of two of buckets
-- that fits the size, which is taken as 1 if it is less, and the bucket of every key is one of them.
pub new_tt-Largest :
    (megabytes : ℤ) (key : ℕ)
    → ltb_ℤ megabytes (pos (2 ^ 40)) ≡ true
    → Largest
        ((if ltb_ℤ megabytes (pos 1) then 1 else pos_part megabytes) * 1024 * 1024 / 64)
        (new_tt megabytes).len
      × (bit_and key (new_tt megabytes).mask < (new_tt megabytes).len)
unfolding new_tt bucket_count
new_tt-Largest megabytes key small =
    let mb : ℕ = if ltb_ℤ megabytes (pos 1) then 1 else pos_part megabytes in
    let some_mb : 1 ≤ mb = ground arith in
    let few : mb < 2 ^ 40 = ground arith in
    let l = doubled-Largest 62 (mb * 1024 * 1024 / 64) 0 (omega arith) (omega arith) in
    (l, ground (arith, l.power, and-mask l.exponent key, one-le-pow l.exponent 2))

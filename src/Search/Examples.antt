-- ===== src/Search/Examples.antt =====
-- Concrete entries and tables that the theorems of the transposition table are applied to.
use native.Mathlib.Omega.{arith}
use novachess.Prelude.{
  ℕ, ◌*◌, ◌/◌, ◌%◌, ◌<◌, bit_and, bit_xor, true, ◌≡◌, ◌≢◌, ◌⊎◌, ◌↔◌, refl, if◌then◌else◌,
}
use novachess.Prelude.Int.{ℤ, pos, negsuc, ltb_ℤ, pos_part}
use novachess.Chess.Types.{u8}
use novachess.Chess.Move.{is_none}
use novachess.Search.Mate.{
  FitsInt16, adjust_mate_score_to_tt, adjust_mate_score_from_tt, adjust_mate_score_from_tt-to_tt,
  adjust_mate_score_to_tt-FitsInt16,
}
use novachess.Search.Entry.{pack_entry, read, write, gen_of}
use novachess.Search.Entry.Fields.{Reads, pack_entry-Reads, read-write}
use novachess.Search.Table.{Tt, empty_entry, empty_bucket, probe, store, new_tt, hashfull}
use novachess.Search.Table.Lookup.{Kept, answer, probe-store}
use novachess.Search.Table.Size.{Largest, new_tt-Largest}
use novachess.Search.Table.Generation.{hashfull_after_64}

-- Mate in five plies, seen from two plies below the root.
abbrev mating : ℤ
mating = pos 30993

adjust_mate_score_from_tt-to_tt_example :
    adjust_mate_score_from_tt (adjust_mate_score_to_tt mating (pos 2)) (pos 2) ≡ mating
adjust_mate_score_from_tt-to_tt_example = adjust_mate_score_from_tt-to_tt mating 2

mating-FitsInt16 : FitsInt16 (adjust_mate_score_to_tt mating (pos 2))
mating-FitsInt16 =
    adjust_mate_score_to_tt-FitsInt16 mating 2 (omega arith) (omega arith) (omega arith)

pack_entry-Reads_example :
    Reads (pack_entry 1804 (negsuc 41) (pos 17) 9 2 70) 1804 (negsuc 41) 9 2 (70 % 64)
pack_entry-Reads_example =
    pack_entry-Reads 1804 (negsuc 41) (pos 17) 9 2 70 (omega arith) (omega arith, omega arith)
      (omega arith) (omega arith)

abbrev one_key : ℕ
one_key = 77

abbrev other_key : ℕ
other_key = 78

abbrev one_word : ℕ
one_word = 5

abbrev torn_word : ℕ
torn_word = 6

read-write_example :
    (read (write one_key one_word) one_key ≡ (one_word, true))
    × ((read (write one_key one_word) other_key ≡ (one_word, true)) ↔ (other_key ≡ one_key))
    × ((read (record { keyx = bit_xor one_key one_word; word = torn_word }) one_key
          ≡ (torn_word, true))
        ↔ (torn_word ≡ one_word))
read-write_example = read-write one_key other_key one_word torn_word (λ e. absurd (omega arith))

abbrev small : Tt
small = record { buckets = λ i. empty_bucket; len = 2; mask = 1; gen = 70 }

probe-store_example :
    Kept small
      (store small 77 1804 mating (pos 17) (pos 9) (pos 2) 3)
      77
      (pos 9)
      2
      3
      (pos 0)
      (pos 1)
    ⊎ (probe
          (store small 77 1804 mating (pos 17) (pos 9) (pos 2) 3)
          77
          (pos 8)
          (pos 2)
          (pos 0)
          (pos 1)
        ≡ answer 1804 mating (pos 9) 3 (pos 8) (pos 0) (pos 1))
probe-store_example =
    probe-store small 77 1804 mating (pos 17) (pos 9) 2 3 (pos 8) (pos 0) (pos 1) empty_entry _ refl
      (unfold is_none in refl) (omega arith) mating-FitsInt16 (λ e. absurd (omega arith))
      (omega arith)

new_tt-Largest_example :
    Largest
      ((if ltb_ℤ (pos 16) (pos 1) then 1 else pos_part (pos 16)) * 1024 * 1024 / 64)
      (new_tt (pos 16)).len
    × (bit_and 77 (new_tt (pos 16)).mask < (new_tt (pos 16)).len)
new_tt-Largest_example = new_tt-Largest (pos 16) 77 (ground arith)

hashfull_after_64_example : (hashfull small ≡ 0) × (gen_of 5 ≢ u8 70)
hashfull_after_64_example = hashfull_after_64 small 5 (omega arith)

-- ===== src/Pipeline/Coordinator/Naming.antt =====
-- The naming of work units in internal/coordinator/coordinator.go: unit builds a unit from its
-- index, unitIndex reads the index back from where the unit's artifact is stored.
pub mod RoundTrip
pub mod Seeds
use novachess.Prelude.{
  ℕ, zero, suc, ◌+◌, ◌-◌, ◌*◌, ◌%◌, ◌^◌, bit_xor, Bool, true, false, Option, none, some, List, [],
  ◌∷◌, ◌++◌, ltb, if◌then◌else◌, ◌>>=◌,
}
use novachess.Prelude.Int.{ℤ, pos, negsuc, ◌+ℤ◌, uint64}
use novachess.Prelude.Text.{
  Text, codes, ◌==*◌, cut_prefix, cut_suffix, decimal, print_int, atoi, base,
}
use novachess.Pipeline.Events.{WorkUnit}
use novachess.Pipeline.Store.{length}
use novachess.Pipeline.Framing.{file_extension}
use novachess.Pipeline.Coordinator.{Coordinator}

abbrev pub zeros : ℕ → Text
zeros zero = []
zeros (suc n) = b'0' ∷ zeros n

-- `%06d` of an index, which is never negative.
unfoldable pub padded : ℕ → Text
unfolding decimal
padded n = zeros (6 - length (decimal n)) ++ decimal n

unfoldable pub unit_prefix : ℤ → Text
unfolding print_int
unit_prefix generation = b'g' ∷ print_int generation ++ codes "-u"

unfoldable pub unit_id : ℤ → ℕ → Text
unfolding unit_prefix padded
unit_id generation index = unit_prefix generation ++ padded index

abbrev pub generation_factor : ℕ
generation_factor = 0x9E3779B97F4A7C15

abbrev pub index_factor : ℕ
index_factor = 0xBF58476D1CE4E5B9

unfoldable pub unit_seed : ℕ → ℤ → ℕ → ℕ
unfolding uint64 ◌+ℤ◌
unit_seed seed generation index =
    bit_xor (bit_xor seed (uint64 (generation +ℤ pos 1) * generation_factor % 2 ^ 64))
      (uint64 (pos (index + 1)) * index_factor % 2 ^ 64)

unfoldable pub unit : Coordinator → ℕ → WorkUnit
unfolding unit_id unit_seed
unit c index = record {
  id = unit_id c.generation index;
  generation = c.generation;
  network_uri = c.cfg.network_uri;
  games = c.cfg.games_per_unit;
  random_plies = c.cfg.random_plies;
  nodes_per_move = c.cfg.nodes_per_move;
  seed = unit_seed c.cfg.seed c.generation index;
}

-- The digits are printed again, which rejects what only looks like an index.
read_index : Text → ℤ → Option ℕ
unfolding padded ◌==*◌
read_index digits (negsuc n) = none
read_index digits (pos n) = if padded n ==* digits then some n else none

unfoldable pub unit_index : ℤ → Text → Option ℕ
unfolding unit_prefix cut_prefix cut_suffix atoi base read_index
unit_index generation uri = cut_suffix (base uri) file_extension >>= λ name.
    cut_prefix name (unit_prefix generation) >>= λ digits. atoi digits >>= read_index digits

-- ===== src/Chess/Attacks/Bounds.antt =====
-- The leaper tables hold 64-bit words.
use native.Mathlib.Omega.{arith}
use novachess.Prelude.{ℕ, ◌^◌, ◌<◌, List, [], ◌∷◌}
use novachess.Prelude.Int.{ℤ, pos, negsuc, ◌+ℤ◌}
use novachess.Prelude.Bits.{or_lt}
use novachess.Chess.Bitboard.Members.{bb-lt}
use novachess.Chess.Attacks.{landing, safe_destination, leaps, king_deltas, king_attacks}

landing-lt : (s : ℕ) (to : ℤ) → landing s to < 2 ^ 64
unfolding landing
landing-lt s (negsuc _) = omega arith
landing-lt s (pos to) = ground (arith, bb-lt to)

safe_destination-lt : (s : ℕ) (d : ℤ) → safe_destination s d < 2 ^ 64
unfolding safe_destination
safe_destination-lt s d = landing-lt s (pos s +ℤ d)

leaps-lt : (ds : List ℤ) (s : ℕ) → leaps ds s < 2 ^ 64
unfolding leaps
leaps-lt [] s = omega arith
leaps-lt (d ∷ ds) s =
    or_lt 64 (safe_destination s d) (leaps ds s) (safe_destination-lt s d) (leaps-lt ds s)

pub king_attacks-lt : (s : ℕ) → king_attacks s < 2 ^ 64
unfolding king_attacks
king_attacks-lt s = leaps-lt king_deltas s

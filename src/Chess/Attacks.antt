-- ===== src/Chess/Attacks.antt =====
-- internal/chess/attacks.go: attack sets of the pieces. The tables that `init` fills once are
-- functions here; the magic tables are a record that the functions using them take.
pub mod Bounds
use novachess.Prelude.{
  ℕ, zero, suc, ◌-◌, ◌*◌, ◌/◌, ◌^◌, bit_and, bit_or, List, [], ◌∷◌, ltb, leb, ◌==◌, if◌then◌else◌,
}
use novachess.Prelude.Int.{ℤ, pos, negsuc, ◌+ℤ◌}
use novachess.Chess.Types.{pawn, knight, bishop, rook, queen, king, square_count, file_of, white}
use novachess.Chess.Bitboard.{u64, bb, has, first, shl}

-- `abs` of a difference of two files.
abs_diff : ℕ → ℕ → ℕ
abs_diff a b = if ltb a b then b - a else a - b

-- What follows the sum `to` of a square and a delta.
unfoldable pub landing : ℕ → ℤ → ℕ
unfolding abs_diff file_of
landing s (negsuc _) = 0
landing s (pos to) =
    if leb square_count to
    then 0
    else if ltb 2 (abs_diff (file_of to) (file_of s))
    then 0
    else bb to

unfoldable pub safe_destination : ℕ → ℤ → ℕ
unfolding landing ◌+ℤ◌
safe_destination s delta = landing s (pos s +ℤ delta)

-- The union of the squares that the deltas reach.
unfoldable pub leaps : List ℤ → ℕ → ℕ
unfolding safe_destination
leaps [] s = 0
leaps (d ∷ ds) s = bit_or (safe_destination s d) (leaps ds s)

abbrev pub knight_deltas : List ℤ
knight_deltas = negsuc 16 ∷ negsuc 14 ∷ negsuc 9 ∷ negsuc 5 ∷ pos 6 ∷ pos 10 ∷ pos 15 ∷ pos 17 ∷ []

abbrev pub king_deltas : List ℤ
king_deltas = negsuc 8 ∷ negsuc 7 ∷ negsuc 6 ∷ negsuc 0 ∷ pos 1 ∷ pos 7 ∷ pos 8 ∷ pos 9 ∷ []

unfoldable pub knight_attacks : ℕ → ℕ
unfolding leaps
knight_attacks s = leaps knight_deltas s

unfoldable pub king_attacks : ℕ → ℕ
unfolding leaps
king_attacks s = leaps king_deltas s

unfoldable pub pawn_attacks : ℕ → ℕ → ℕ
unfolding safe_destination
pawn_attacks c s =
    if c == white
    then bit_or (safe_destination s (pos 9)) (safe_destination s (pos 7))
    else bit_or (safe_destination s (negsuc 6)) (safe_destination s (negsuc 8))

abbrev pub bishop_dirs : List ℤ
bishop_dirs = pos 9 ∷ pos 7 ∷ negsuc 6 ∷ negsuc 8 ∷ []

abbrev pub rook_dirs : List ℤ
rook_dirs = pos 8 ∷ negsuc 7 ∷ pos 1 ∷ negsuc 0 ∷ []

-- The inner loop of `slidingAttacks`: what is added to `attacks` from `cur` on. A ray leaves the
-- board after at most seven steps.
unfoldable pub ray : ℕ → ℕ → ℕ → ℤ → ℕ
unfolding safe_destination first has
ray zero cur occ d = 0
ray (suc fuel) cur occ d =
    let next = safe_destination cur d in
    let cur' = first next in
    let rest = ray fuel cur' occ d in
    if next == 0 then 0 else if has occ cur' then next else bit_or next rest

unfoldable pub sliding_attacks : ℕ → ℕ → List ℤ → ℕ
unfolding ray
sliding_attacks s occ [] = 0
sliding_attacks s occ (d ∷ ds) = bit_or (ray 8 s occ d) (sliding_attacks s occ ds)

-- The second pass of `initLineTables`, over the rook's directions, writes last.
unfoldable pub between : ℕ → ℕ → ℕ
unfolding sliding_attacks has bb shl
between a b =
    if has (sliding_attacks a 0 rook_dirs) b
    then crossing rook_dirs
    else if has (sliding_attacks a 0 bishop_dirs) b
    then crossing bishop_dirs
    else 0
  where
    crossing : List ℤ → ℕ
    crossing dirs = bit_and (sliding_attacks a (bb b) dirs) (sliding_attacks b (bb a) dirs)

-- `LineBB`: the whole line through two aligned squares, both of them included.
unfoldable pub line : ℕ → ℕ → ℕ
unfolding sliding_attacks has bb shl
line a b =
    if has (sliding_attacks a 0 rook_dirs) b
    then aligned rook_dirs
    else if has (sliding_attacks a 0 bishop_dirs) b
    then aligned bishop_dirs
    else 0
  where
    aligned : List ℤ → ℕ
    aligned dirs =
        bit_or (bit_or (bit_and (sliding_attacks a 0 dirs) (sliding_attacks b 0 dirs)) (bb a))
          (bb b)

-- The parameters of one slider on one square; `attacks` is indexed by a shifted product.
pub record Magic : Type 0 where
  pub mask : ℕ
  pub multiplier : ℕ
  pub attacks : ℕ → ℕ
  pub shift : ℕ

unfoldable pub index : Magic → ℕ → ℕ
index m occ = u64 (bit_and occ m.mask * m.multiplier) / 2 ^ m.shift

-- `rookMagics` and `bishopMagics`.
pub record Magics : Type 0 where
  pub rook_magics : ℕ → Magic
  pub bishop_magics : ℕ → Magic

unfoldable pub rook_attacks : Magics → ℕ → ℕ → ℕ
unfolding index
rook_attacks g s occ = (g.rook_magics s).attacks (index (g.rook_magics s) occ)

unfoldable pub bishop_attacks : Magics → ℕ → ℕ → ℕ
unfolding index
bishop_attacks g s occ = (g.bishop_magics s).attacks (index (g.bishop_magics s) occ)

unfoldable pub queen_attacks : Magics → ℕ → ℕ → ℕ
unfolding rook_attacks bishop_attacks
queen_attacks g s occ = bit_or (rook_attacks g s occ) (bishop_attacks g s occ)

-- The `switch` over the piece types, and the empty set for any other number.
unfoldable pub attacks_from : Magics → ℕ → ℕ → ℕ → ℕ → ℕ
unfolding pawn_attacks knight_attacks king_attacks bishop_attacks rook_attacks queen_attacks
attacks_from g pt c s occ =
    if pt == pawn
    then pawn_attacks c s
    else if pt == knight
    then knight_attacks s
    else if pt == bishop
    then bishop_attacks g s occ
    else if pt == rook
    then rook_attacks g s occ
    else if pt == queen
    then queen_attacks g s occ
    else if pt == king
    then king_attacks s
    else 0

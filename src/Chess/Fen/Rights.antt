-- ===== src/Chess/Fen/Rights.antt =====
-- Reading the castling field records rights for kings and rooks that stand on the board.
use native.Mathlib.Omega.{arith}
use novachess.Prelude.{
  ℕ, zero, suc, ◌+◌, ◌-◌, ◌≤◌, ◌<◌, Bool, true, false, not, ◌&&◌, ◌||◌, Option, none, some, [], ◌∷◌,
  ltb, leb, ◌==◌, ◌≡◌, refl,
}
use novachess.Prelude.Bits.{or_lt}
use novachess.Prelude.Text.{Text, codes, ◌==*◌}
use novachess.Chess.Types.{white, black, rook, make_piece, make_square, file_of, rank_of}
use novachess.Chess.Types.Names.{file_of-mod}
use novachess.Chess.Castling.{castling_index, castling_color_of, right_at}
use novachess.Chess.Castling.Setup.{
  with_castling_right, set_castling_right, rook_between, rook_downto, find_castling_rook,
}
use novachess.Chess.Position.{Position, king_square}
use novachess.Chess.Position.Consistent.{Consistent}
use novachess.Chess.Fen.{
  reads, refuses, or_panics, has_kings, with_rook, classical_right, shredder_right, read_right,
  read_rights, read_castling,
}
use novachess.Chess.Fen.Board.{Comes, Comes-bind, Comes-if}

-- Both kings stand on the board, the views agree, and the rights are a set of the four.
pub record Rigged (us : ℕ) (p : Position) : Type 0 where
  pub consistent : Consistent p
  pub kings : (c : ℕ) → c < 2 → king_square p c < 64
  pub counted : has_kings p ≡ true
  pub rights : p.castling < 16
  pub side : p.side ≡ us
  pub no_history : p.history ≡ []

color_lt : (idx : ℕ) → castling_color_of idx < 2
unfolding castling_color_of
color_lt idx = ground arith

index_lt : (us : ℕ) (king_side : Bool) → castling_index us king_side < 4
unfolding castling_index
index_lt us king_side = ground arith

right-lt : (idx : ℕ) → idx < 4 → right_at idx < 16
unfolding right_at
right-lt zero h = omega arith
right-lt (suc zero) h = omega arith
right-lt (suc (suc zero)) h = omega arith
right-lt (suc (suc (suc zero))) h = omega arith
right-lt (suc (suc (suc (suc idx)))) h = absurd (omega arith)

with_right-Rigged :
    (us : ℕ) (p : Position) (idx rook_from : ℕ)
    → idx < 4
    → Rigged us p
    → Rigged us (with_castling_right p idx rook_from)
unfolding with_castling_right has_kings king_square
with_right-Rigged us p idx rook_from h v = record {
  consistent = record {
    ranged = v.consistent.ranged;
    types = v.consistent.types;
    colors = v.consistent.colors;
  };
  kings = v.kings;
  counted = v.counted;
  rights = or_lt 4 p.castling (right_at idx) v.rights (right-lt idx h);
  side = v.side;
  no_history = v.no_history;
}

set_right-Comes :
    (us : ℕ) (p : Position) (idx rook_from : ℕ)
    → idx < 4
    → rook_from < 64
    → Rigged us p
    → Comes (Rigged us) ⊥ (or_panics (set_castling_right p idx rook_from))
unfolding set_castling_right
set_right-Comes us p idx rook_from h on v =
    let king_on = v.kings (castling_color_of idx) (color_lt idx) in
    let inside : (leb 64 (king_square p (castling_color_of idx)) || leb 64 rook_from) ≡ false =
      ground arith in
    rw inside (with_right-Rigged us p idx rook_from h v)

square_lt : (file rank : ℕ) → file < 8 → rank < 8 → make_square file rank < 64
unfolding make_square
square_lt file rank h k = omega arith

rook_between-lt :
    (p : Position) (pc rank file n sq : ℕ)
    → rank < 8
    → file + n ≤ 8
    → rook_between p pc rank file n ≡ some sq
    → sq < 64
unfolding rook_between
rook_between-lt p pc rank file zero sq hr hf e = cc
rook_between-lt p pc rank file (suc n) sq hr hf e = ground (
  arith,
  square_lt file rank (omega arith) hr,
  rook_between-lt p pc rank (suc file) n sq hr (omega arith),
)

rook_downto-lt :
    (p : Position) (pc rank file n sq : ℕ)
    → rank < 8
    → file < 8
    → rook_downto p pc rank file n ≡ some sq
    → sq < 64
unfolding rook_downto
rook_downto-lt p pc rank file zero sq hr hf e = cc
rook_downto-lt p pc rank file (suc n) sq hr hf e =
    ground
      (arith, square_lt file rank hf hr, rook_downto-lt p pc rank (file - 1) n sq hr (omega arith))

file_le : (s : ℕ) → file_of s ≤ 7
file_le s = omega (arith, file_of-mod s)

find_rook-lt :
    (p : Position) (us : ℕ) (king_side : Bool) (sq : ℕ)
    → find_castling_rook p us king_side ≡ some sq
    → sq < 64
unfolding find_castling_rook
find_rook-lt p us king_side sq e =
    let pc = make_piece us rook in
    ground (
      arith,
      rook_downto-lt p pc 7 7 (7 - file_of (king_square p us)) sq (omega arith) (omega arith),
      rook_downto-lt p pc 0 7 (7 - file_of (king_square p us)) sq (omega arith) (omega arith),
      rook_between-lt p pc 7 0 (file_of (king_square p us)) sq (omega arith),
      rook_between-lt p pc 0 0 (file_of (king_square p us)) sq (omega arith),
      file_le (king_square p us),
    )

with_rook-Comes :
    (us : ℕ) (p : Position) (idx : ℕ) (found : Option ℕ)
    → idx < 4
    → ((sq : ℕ) → found ≡ some sq → sq < 64)
    → Rigged us p
    → Comes (Rigged us) ⊥ (with_rook p idx found)
with_rook-Comes us p idx none h on v = v
with_rook-Comes us p idx (some sq) h on v = set_right-Comes us p idx sq h (on sq refl) v

classical-Comes :
    (us c : ℕ) (p : Position) (king_side : Bool)
    → Rigged us p
    → Comes (Rigged us) ⊥ (classical_right p c king_side)
unfolding classical_right
classical-Comes us c p king_side v =
    with_rook-Comes us p (castling_index c king_side) (find_castling_rook p c king_side)
      (index_lt c king_side) (λ sq found. find_rook-lt p c king_side sq found) v

-- The flag of the variant is no part of what is kept.
flagged-Rigged : (us : ℕ) (p : Position) → Rigged us p → Rigged us (record p { chess960 = true })
unfolding has_kings king_square
flagged-Rigged us p v = record {
  consistent = record {
    ranged = v.consistent.ranged;
    types = v.consistent.types;
    colors = v.consistent.colors;
  };
  kings = v.kings;
  counted = v.counted;
  rights = v.rights;
  side = v.side;
  no_history = v.no_history;
}

shredder-Comes :
    (us c rank file : ℕ) (p : Position)
    → rank < 8
    → file < 8
    → Rigged us p
    → Comes (Rigged us) ⊥ (shredder_right p c rank file)
unfolding shredder_right
shredder-Comes us c rank file p hr hf v =
    let sq = make_square file rank in
    Comes-if (Rigged us) ⊥ (not (p.board sq == make_piece c rook)) (reads p) _ (λ e. v)
      (λ e.
        Comes-if (Rigged us) ⊥ (not (rank_of (king_square p c) == rank)) (reads p) _ (λ e. v)
          (λ e.
            set_right-Comes us (record p { chess960 = true })
              (castling_index c (ltb (king_square p c) sq)) sq
              (index_lt c (ltb (king_square p c) sq)) (square_lt file rank hf hr)
              (flagged-Rigged us p v)))

read_right-Comes :
    (us : ℕ) (p : Position) (ch : ℕ) → Rigged us p → Comes (Rigged us) ⊥ (read_right p ch)
unfolding read_right
read_right-Comes us p ch v =
    Comes-if (Rigged us) ⊥ (ch == b'K' || ch == b'Q' || ch == b'k' || ch == b'q') _ _
      (λ e. classical-Comes us _ p _ v)
      (λ e.
        Comes-if (Rigged us) ⊥ (leb b'A' ch && leb ch b'H') _ _
          (λ upper. shredder-Comes us white 0 (ch - b'A') p (omega arith) (within_upper upper) v)
          (λ e.
            Comes-if (Rigged us) ⊥ (leb b'a' ch && leb ch b'h') _ refuses
              (λ lower.
                shredder-Comes us black 7 (ch - b'a') p (omega arith) (within_lower lower) v)
              (λ e. tt)))
  where
    within_upper : (leb b'A' ch && leb ch b'H') ≡ true → ch - b'A' < 8
    within_upper h = ground arith

    within_lower : (leb b'a' ch && leb ch b'h') ≡ true → ch - b'a' < 8
    within_lower h = ground arith

read_rights-Comes :
    (us : ℕ) (p : Position) (field : Text) → Rigged us p → Comes (Rigged us) ⊥ (read_rights p field)
unfolding read_rights
read_rights-Comes us p [] v = v
read_rights-Comes us p (ch ∷ chs) v =
    Comes-bind (Rigged us) (Rigged us) ⊥ (read_right p ch) _ (read_right-Comes us p ch v)
      (λ q w. read_rights-Comes us q chs w)

-- Whatever the field holds, reading it does not panic, and the rights are a set of the four.
pub read_castling-Comes :
    (us : ℕ) (p : Position) (field : Text)
    → Rigged us p
    → Comes (Rigged us) ⊥ (read_castling p field)
unfolding read_castling
read_castling-Comes us p field v =
    Comes-if (Rigged us) ⊥ (field ==* codes "-") (reads p) (read_rights p field) (λ e. v)
      (λ e. read_rights-Comes us p field v)

-- ===== src/Chess/Position/Consistent.antt =====
-- The redundant views of a position agree, and the three primitive updates keep them so. `Did` is
-- what a part of a move did to a position, and `Returns` says that it returned having done it.
pub mod Indexed
use native.Mathlib.Omega.{arith}
use novachess.Prelude.{
  ℕ, ◌≤◌, ◌<◌, bit_xor, Bool, Option, some, List, ◌==◌, ◌≡◌, refl, ◌∙◌, sym, update, ◌>>=◌,
  if◌then◌else◌,
}
use novachess.Prelude.Int.{ℤ}
use novachess.Prelude.Xor.{xor-zero, xor_swap, xor_assoc}
use novachess.Chess.Types.{no_piece, no_square, black, color_of, type_of, file_of}
use novachess.Chess.Zobrist.{Keys, board_key}
use novachess.Chess.Zobrist.Update.{square_key, change, board_key-update}
use novachess.Chess.Position.{Position, Undo, put_piece, remove_piece, move_piece, compute_key}
use Indexed.{Indexes, Indexes-put, Indexes-remove, Indexes-move}

-- Both families of bitboards index the mailbox, which holds pieces or `NoPiece`.
pub record Consistent (p : Position) : Type 0 where
  pub ranged : (s : ℕ) → p.board s ≤ no_piece
  pub types : Indexes type_of p.board p.by_type
  pub colors : Indexes color_of p.board p.by_color

-- The key kept by increments is the one computed from scratch.
abbrev pub IsHashed : Keys → Position → Type 0
IsHashed z p = p.key ≡ compute_key z p

-- What no part of a move but the last ones changes.
pub record Frame : Type 0 where
  pub side : ℕ
  pub castling : ℕ
  pub fullmove : ℤ
  pub chess960 : Bool
  pub castling_rook : ℕ → ℕ
  pub castling_path : ℕ → ℕ
  pub cr_mask : ℕ → ℕ
  pub history : List Undo

abbrev pub frame : Position → Frame
frame p = record {
  side = p.side;
  castling = p.castling;
  fullmove = p.fullmove;
  chess960 = p.chess960;
  castling_rook = p.castling_rook;
  castling_path = p.castling_path;
  cr_mask = p.cr_mask;
  history = p.history;
}

-- `q` is `p` with another board.
pub record Did (z : Keys) (p q : Position) (board : ℕ → ℕ) : Type 0 where
  pub placed : q.board ≡ board
  pub consistent : Consistent q
  pub kept : frame q ≡ frame p
  pub hashed : IsHashed z p → IsHashed z q
  pub ep_kept : q.ep_square ≡ p.ep_square

-- The same for the whole of a move, which may set the en passant square.
pub record Made (z : Keys) (p q : Position) (board : ℕ → ℕ) : Type 0 where
  pub placed : q.board ≡ board
  pub consistent : Consistent q
  pub kept : frame q ≡ frame p
  pub hashed : IsHashed z p → IsHashed z q

pub Did-refl : (z : Keys) (p : Position) → Consistent p → Did z p p p.board
Did-refl z p c = record {
  placed = refl;
  consistent = c;
  kept = refl;
  hashed = λ h. h;
  ep_kept = refl;
}

pub Did-trans :
    (z : Keys) (p q r : Position) (b b' : ℕ → ℕ) → Did z p q b → Did z q r b' → Did z p r b'
Did-trans z p q r b b' d e = record {
  placed = e.placed;
  consistent = e.consistent;
  kept = e.kept ∙ d.kept;
  hashed = λ h. e.hashed (d.hashed h);
  ep_kept = e.ep_kept ∙ d.ep_kept;
}

pub Made-of-Did : (z : Keys) (p q : Position) (b : ℕ → ℕ) → Did z p q b → Made z p q b
Made-of-Did z p q b d = record {
  placed = d.placed;
  consistent = d.consistent;
  kept = d.kept;
  hashed = d.hashed;
}

pub Made-after :
    (z : Keys) (p q r : Position) (b b' : ℕ → ℕ) → Did z p q b → Made z q r b' → Made z p r b'
Made-after z p q r b b' d e = record {
  placed = e.placed;
  consistent = e.consistent;
  kept = e.kept ∙ d.kept;
  hashed = λ h. e.hashed (d.hashed h);
}

-- What the en passant square and the side add to the key.
abbrev pub ep_key : Keys → ℕ → ℕ
ep_key z e = if e == no_square then 0 else z.ep_file (file_of e)

abbrev pub side_key : Keys → ℕ → ℕ
side_key z c = if c == black then z.side else 0

pub compute_key-terms :
    (z : Keys) (p : Position)
    → compute_key z p
      ≡ bit_xor
          (bit_xor
            (bit_xor (board_key z p.board 64) (z.castling p.castling))
            (ep_key z p.ep_square))
          (side_key z p.side)
unfolding compute_key
compute_key-terms z p = ground (
  arith,
  xor-zero (bit_xor (board_key z p.board 64) (z.castling p.castling)),
  xor-zero (
      bit_xor (bit_xor (board_key z p.board 64) (z.castling p.castling))
        (z.ep_file (file_of p.ep_square))),
  xor-zero (bit_xor (board_key z p.board 64) (z.castling p.castling)),
)

-- A change of the board's part is a change of the key.
pub board_term :
    (a d k e s : ℕ)
    → bit_xor (bit_xor (bit_xor (bit_xor a d) k) e) s
      ≡ bit_xor (bit_xor (bit_xor (bit_xor a k) e) s) d
board_term a d k e s = rw (xor_swap a d k, xor_swap (bit_xor a k) d e) (xor_swap _ d s)

pub Did-board : (z : Keys) (p q : Position) (b b' : ℕ → ℕ) → b ≡ b' → Did z p q b → Did z p q b'
Did-board z p q b b' e d = record {
  placed = d.placed ∙ e;
  consistent = d.consistent;
  kept = d.kept;
  hashed = d.hashed;
  ep_kept = d.ep_kept;
}

pub Made-board : (z : Keys) (p q : Position) (b b' : ℕ → ℕ) → b ≡ b' → Made z p q b → Made z p q b'
Made-board z p q b b' e d = record {
  placed = d.placed ∙ e;
  consistent = d.consistent;
  kept = d.kept;
  hashed = d.hashed;
}

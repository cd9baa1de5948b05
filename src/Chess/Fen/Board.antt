-- ===== src/Chess/Fen/Board.antt =====
-- Reading the board field puts each piece on an empty square of the board, so that it never panics
-- and leaves the views of the position in agreement.
use native.Mathlib.Omega.{arith}
use novachess.Prelude.{
  ℕ, zero, suc, ◌+◌, ◌-◌, ◌*◌, ◌≤◌, ◌<◌, Bool, true, false, ◌&&◌, some, List, [], ◌∷◌, ltb, leb,
  ◌==◌, ◌≡◌, refl, ap, subst, ◌∙◌, ◌⊎◌, inl, inr, if◌then◌else◌, Option-cases, update,
}
use novachess.Prelude.Text.{Text}
use novachess.Prelude.Bits.{test_bit-zero}
use novachess.Chess.Types.{no_piece, type_of, color_of, piece_chars, make_square}
use novachess.Chess.Zobrist.{Keys}
use novachess.Chess.Position.{Position, put_piece}
use novachess.Chess.Position.Consistent.{Consistent, Frame}
use novachess.Chess.Position.Consistent.Indexed.{Indexes}
use novachess.Chess.Position.Primitives.{put_piece-Returns}
use novachess.Chess.Fen.{
  Reading, reads, refuses, panics, ◌>>=◌, or_panics, or_refuses, index_byte, split_slashes, length,
  empty_position, read_row, read_rows, read_board,
}

-- A result meets `P`, and a panic can only be had where `Q` holds.
abbrev pub Comes {ℓ} : {A : Type ℓ} → (A → Type 0) → Type 0 → Reading A → Type 0
Comes P Q (reads a) = P a
Comes P Q refuses = Unit
Comes P Q panics = Q

pub Comes-bind {ℓ κ} :
    {A : Type ℓ} {B : Type κ} (P : A → Type 0) (R : B → Type 0) (Q : Type 0) (m : Reading A)
    (f : A → Reading B)
    → Comes P Q m
    → ((a : A) → P a → Comes R Q (f a))
    → Comes R Q (m >>= f)
Comes-bind P R Q (reads a) f h k = k a h
Comes-bind P R Q refuses f h k = tt
Comes-bind P R Q panics f h k = h

pub Comes-weaken {ℓ} :
    {A : Type ℓ} (P : A → Type 0) (Q R : Type 0) (m : Reading A)
    → (Q → R)
    → Comes P Q m
    → Comes P R m
Comes-weaken P Q R (reads a) f h = h
Comes-weaken P Q R refuses f h = tt
Comes-weaken P Q R panics f h = f h

pub Comes-if {ℓ} :
    {A : Type ℓ} (P : A → Type 0) (Q : Type 0) (b : Bool) (x y : Reading A)
    → (b ≡ true → Comes P Q x)
    → (b ≡ false → Comes P Q y)
    → Comes P Q (if b then x else y)
Comes-if P Q true x y h k = h refl
Comes-if P Q false x y h k = k refl

-- While rank `rank` is read from `file` on, that part of it and the ranks below are empty.
pub record Placing (p : Position) (rank file : ℕ) : Type 0 where
  pub consistent : Consistent p
  pub empty :
      (s : ℕ) → (s < rank * 8) ⊎ ((rank * 8 + file ≤ s) × (s < rank * 8 + 8)) → p.board s ≡ no_piece
  pub no_rights : p.castling ≡ 0
  pub no_history : p.history ≡ []

index_byte-lt : (cs : List ℕ) (b i : ℕ) → index_byte cs b ≡ some i → i < length cs
index_byte-lt [] b i h = cc
index_byte-lt (c ∷ cs) b i h = elim (Option-cases (index_byte cs b)) [
  | inl nothing ↦ ground arith
  | inr (j, found) ↦ let rest = index_byte-lt cs b j found in ground arith
]

make_square-eq : (file rank : ℕ) → file < 8 → rank < 8 → make_square file rank ≡ rank * 8 + file
unfolding make_square
make_square-eq file rank h k = omega arith

skips : (p : Position) (rank file more : ℕ) → Placing p rank file → Placing p rank (file + more)
skips p rank file more v = record {
  consistent = v.consistent;
  empty = λ s at. v.empty s (wider s at);
  no_rights = v.no_rights;
  no_history = v.no_history;
}
  where
    wider :
        (s : ℕ)
        → (s < rank * 8) ⊎ ((rank * 8 + (file + more) ≤ s) × (s < rank * 8 + 8))
        → (s < rank * 8) ⊎ ((rank * 8 + file ≤ s) × (s < rank * 8 + 8))
    wider s (inl below) = inl below
    wider s (inr (from, upto)) = inr (omega arith, upto)

-- A piece is put on the first square left.
places :
    (z : Keys) (p : Position) (rank file pc : ℕ)
    → rank < 8
    → file < 8
    → pc < 12
    → Placing p rank file
    → Comes
        (λ q. Placing q rank (file + 1))
        ⊥
        (or_panics (put_piece z p pc (make_square file rank)))
places z p rank file pc hr hf real v =
    let s = make_square file rank in
    let at = make_square-eq file rank hf hr in
    let (q, returns, did) =
      put_piece-Returns z p v.consistent pc s
        (v.empty s (inr (omega (arith, at), omega (arith, at)))) real (omega (arith, at)) in
    rw returns (record {
      consistent = did.consistent;
      empty = λ t inside. emptied q did.placed at t inside;
      no_rights = ap (λ (f : Frame). f.castling) did.kept ∙ v.no_rights;
      no_history = ap (λ (f : Frame). f.history) did.kept ∙ v.no_history;
    })
  where
    emptied :
        (q : Position)
        → q.board ≡ update p.board (make_square file rank) pc
        → make_square file rank ≡ rank * 8 + file
        → (t : ℕ) → (t < rank * 8) ⊎ ((rank * 8 + (file + 1) ≤ t) × (t < rank * 8 + 8))
        → q.board t ≡ no_piece
    emptied q placed at t (inl below) =
        ap (λ (b : ℕ → ℕ). b t) placed ∙ ground (arith, v.empty t (inl below))
    emptied q placed at t (inr (from, upto)) =
        ap (λ (b : ℕ → ℕ). b t) placed ∙ ground (arith, v.empty t (inr (omega arith, upto)))

read_row-Comes :
    (z : Keys) (p : Position) (rank file : ℕ) (row : Text)
    → rank < 8
    → Placing p rank file
    → Comes (λ q. Placing q rank 8) ⊥ (read_row z p rank file row)
unfolding read_row
read_row-Comes z p rank file [] h v =
    Comes-if (λ q. Placing q rank 8) ⊥ (file == 8) (reads p) refuses
      (λ e. subst (Placing p rank) (let same : file ≡ 8 = ground arith in same) v) (λ e. tt)
read_row-Comes z p rank file (ch ∷ row) h v =
    Comes-if _ ⊥ (leb b'1' ch && leb ch b'8') _ _
      (λ digit.
        read_row-Comes z p rank (file + (ch - b'0')) row h (skips p rank file (ch - b'0') v))
      (λ other.
        Comes-bind (λ idx. idx < 12) _ ⊥ (or_refuses (index_byte piece_chars ch)) _ (letter ch)
          (λ idx real.
            Comes-if _ ⊥ (ltb 7 file) refuses _ (λ e. tt)
              (λ e.
                Comes-bind (λ q. Placing q rank (file + 1)) _ ⊥
                  (or_panics (put_piece z p idx (make_square file rank))) _
                  (places z p rank file idx h (let lt : file < 8 = ground arith in lt) real v)
                  (λ q w. read_row-Comes z q rank (file + 1) row h w))))
  where
    letter : (ch : ℕ) → Comes (λ idx. idx < 12) ⊥ (or_refuses (index_byte piece_chars ch))
    letter ch = elim (Option-cases (index_byte piece_chars ch)) [
      | inl nothing ↦ rw nothing tt
      | inr (i, found) ↦ rw found (index_byte-lt piece_chars ch i found)
    ]

next_rank : (p : Position) (rank : ℕ) → Placing p (suc rank) 8 → Placing p rank 0
next_rank p rank v = record {
  consistent = v.consistent;
  empty = λ s at. v.empty s (inl (lower s at));
  no_rights = v.no_rights;
  no_history = v.no_history;
}
  where
    lower : (s : ℕ) → (s < rank * 8) ⊎ ((rank * 8 + 0 ≤ s) × (s < rank * 8 + 8)) → s < suc rank * 8
    lower s (inl below) = omega arith
    lower s (inr (from, upto)) = omega arith

-- What reading a board leaves: the views agree, and nothing else has been set.
pub record Placed (p : Position) : Type 0 where
  pub consistent : Consistent p
  pub no_rights : p.castling ≡ 0
  pub no_history : p.history ≡ []

read_rows-Comes :
    (z : Keys) (p : Position) (above : ℕ) (rows : List Text)
    → above ≤ 8
    → Placing p above 8
    → Comes Placed ⊥ (read_rows z p above rows)
unfolding read_rows
read_rows-Comes z p zero [] h v = record {
  consistent = v.consistent;
  no_rights = v.no_rights;
  no_history = v.no_history;
}
read_rows-Comes z p (suc rank) [] h v =
    Comes-if Placed ⊥ (suc rank == 0) (reads p) refuses (λ e. absurd (ground arith)) (λ e. tt)
read_rows-Comes z p zero (row ∷ rows) h v = tt
read_rows-Comes z p (suc rank) (row ∷ rows) h v =
    Comes-bind (λ q. Placing q rank 8) Placed ⊥ (read_row z p rank 0 row) _
      (read_row-Comes z p rank 0 row (omega arith) (next_rank p rank v))
      (λ q w. read_rows-Comes z q rank rows (omega arith) w)

empty-Indexes : (class : ℕ → ℕ) → Indexes class (λ s. no_piece) (λ t. 0)
empty-Indexes class = record { bits = λ t s h. test_bit-zero s; words = λ t. omega arith }

empty-Consistent : (chess960 : Bool) → Consistent (record empty_position { chess960 = chess960 })
unfolding empty_position
empty-Consistent chess960 = record {
  ranged = λ s. omega arith;
  types = empty-Indexes type_of;
  colors = empty-Indexes color_of;
}

empty-Placing : (chess960 : Bool) → Placing (record empty_position { chess960 = chess960 }) 8 8
unfolding empty_position
empty-Placing chess960 = record {
  consistent = empty-Consistent chess960;
  empty = λ s at. refl;
  no_rights = refl;
  no_history = refl;
}

-- Whatever the field holds, reading it does not panic.
pub read_board-Comes :
    (z : Keys) (chess960 : Bool) (field : Text)
    → Comes Placed ⊥ (read_board z (record empty_position { chess960 = chess960 }) field)
unfolding read_board
read_board-Comes z chess960 field =
    Comes-if Placed ⊥ (length (split_slashes field []) == 8) _ refuses
      (λ e.
        read_rows-Comes z (record empty_position { chess960 = chess960 }) 8 (split_slashes field [])
          (omega arith) (empty-Placing chess960))
      (λ e. tt)

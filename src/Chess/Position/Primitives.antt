-- ===== src/Chess/Position/Primitives.antt =====
-- What `putPiece`, `removePiece` and `movePiece` do to a position whose views agree.
use native.Mathlib.Omega.{arith}
use mathlib.Core.Path.{ap₂}
use novachess.Prelude.{
  ℕ, ◌<◌, bit_or, bit_xor, Option, some, ◌≡◌, refl, ◌∙◌, sym, ap, subst, update, ◌>>=◌,
}
use novachess.Prelude.Xor.{xor_assoc}
use novachess.Chess.Types.{no_piece, color_of, type_of}
use novachess.Chess.Bitboard.{bb, and_not}
use novachess.Chess.Zobrist.{Keys, board_key}
use novachess.Chess.Zobrist.Update.{change-put, change-lift, board_key-update}
use novachess.Chess.Position.{Position, put_piece, remove_piece, move_piece}
use novachess.Chess.Position.Consistent.{
  Consistent, IsHashed, Did, Made, Did-trans, Made-of-Did, Made-after, compute_key-terms,
  board_term, ep_key, side_key,
}
use novachess.Chess.Position.Consistent.Indexed.{Indexes-put, Indexes-remove, Indexes-move}

-- A key that follows the board's part alone stays right.
IsHashed-board :
    (z : Keys) (p q : Position) (d : ℕ)
    → q.key ≡ bit_xor p.key d
    → board_key z q.board 64 ≡ bit_xor (board_key z p.board 64) d
    → q.castling ≡ p.castling
    → q.ep_square ≡ p.ep_square
    → q.side ≡ p.side
    → IsHashed z p
    → IsHashed z q
IsHashed-board z p q d key board castling ep side h =
    key
    ∙ ap (λ t. bit_xor t d) (h ∙ compute_key-terms z p)
    ∙ sym (
        compute_key-terms z q
        ∙ rw (board, castling, ep, side)
            (board_term (board_key z p.board 64) d (z.castling p.castling) (ep_key z p.ep_square)
              (side_key z p.side)))

-- The call returned, and what it returned is `p` with that board.
abbrev pub Returns : Keys → Position → Option Position → (ℕ → ℕ) → Type 0
Returns z p o board = (q : Position) × (o ≡ some q) × Did z p q board

pub Returns-bind :
    (z : Keys) (p : Position) (o : Option Position) (f : Position → Option Position) (b b' : ℕ → ℕ)
    → Returns z p o b
    → ((q : Position) → Did z p q b → Returns z q (f q) b')
    → Returns z p (o >>= f) b'
Returns-bind z p o f b b' (q, e, d) next =
    let (r, e', d') = next q d in (r, rw e e', Did-trans z p q r b b' d d')

-- The same for the whole of a move.
abbrev pub Makes : Keys → Position → Option Position → (ℕ → ℕ) → Type 0
Makes z p o board = (q : Position) × (o ≡ some q) × Made z p q board

pub Makes-bind :
    (z : Keys) (p : Position) (o : Option Position) (f : Position → Option Position) (b b' : ℕ → ℕ)
    → Returns z p o b
    → ((q : Position) → Did z p q b → Makes z q (f q) b')
    → Makes z p (o >>= f) b'
Makes-bind z p o f b b' (q, e, d) next =
    let (r, e', d') = next q d in (r, rw e e', Made-after z p q r b b' d d')

pub Makes-of-Returns :
    (z : Keys) (p : Position) (o : Option Position) (b : ℕ → ℕ) → Returns z p o b → Makes z p o b
Makes-of-Returns z p o b (q, e, d) = (q, e, Made-of-Did z p q b d)

module _ (z : Keys) (p : Position) (c : Consistent p) where
  pub put_piece-Returns :
      (pc s : ℕ)
      → p.board s ≡ no_piece
      → pc < 12
      → s < 64
      → Returns z p (put_piece z p pc s) (update p.board s pc)
  put_piece-Returns pc s empty real h =
      let q : Position = record p {
        board = update p.board s pc;
        by_type = update p.by_type (type_of pc) (bit_or (p.by_type (type_of pc)) (bb s));
        by_color = update p.by_color (color_of pc) (bit_or (p.by_color (color_of pc)) (bb s));
        key = bit_xor p.key (z.pieces pc s);
      } in
      (
        q,
        unfold put_piece in ground arith,
        record {
          placed = refl;
          consistent = record {
            ranged = λ k. ground (arith, c.ranged k);
            types = Indexes-put type_of p.board p.by_type c.types pc s empty real h;
            colors = Indexes-put color_of p.board p.by_color c.colors pc s empty real h;
          };
          kept = refl;
          hashed =
              IsHashed-board z p q (z.pieces pc s) refl
                (board_key-update z p.board s pc 64 h
                  ∙ ap (bit_xor _) (change-put z p.board s pc empty real))
                refl refl refl;
          ep_kept = refl;
        },
      )

  pub remove_piece-Returns :
      (s : ℕ)
      → p.board s < 12
      → s < 64
      → Returns z p (remove_piece z p s) (update p.board s no_piece)
  remove_piece-Returns s real h =
      let pc = p.board s in
      let q : Position = record p {
        board = update p.board s no_piece;
        by_type = update p.by_type (type_of pc) (and_not (p.by_type (type_of pc)) (bb s));
        by_color = update p.by_color (color_of pc) (and_not (p.by_color (color_of pc)) (bb s));
        key = bit_xor p.key (z.pieces pc s);
      } in
      (
        q,
        unfold remove_piece in ground arith,
        record {
          placed = refl;
          consistent = record {
            ranged = λ k. ground (arith, c.ranged k);
            types = Indexes-remove type_of p.board p.by_type c.types s real h;
            colors = Indexes-remove color_of p.board p.by_color c.colors s real h;
          };
          kept = refl;
          hashed =
              IsHashed-board z p q (z.pieces pc s) refl
                (board_key-update z p.board s no_piece 64 h
                  ∙ ap (bit_xor _) (change-lift z p.board s real))
                refl refl refl;
          ep_kept = refl;
        },
      )

  moved_key :
      (from to : ℕ)
      → p.board from < 12
      → p.board to ≡ no_piece
      → from < 64
      → to < 64
      → board_key z (update (update p.board from no_piece) to (p.board from)) 64
        ≡ bit_xor
            (board_key z p.board 64)
            (bit_xor (z.pieces (p.board from) from) (z.pieces (p.board from) to))
  moved_key from to real empty h l =
      let lifted = update p.board from no_piece in
      board_key-update z lifted to (p.board from) 64 l
      ∙ ap₂ bit_xor
          (board_key-update z p.board from no_piece 64 h
            ∙ ap (bit_xor _) (change-lift z p.board from real))
          (change-put z lifted to (p.board from) (ground arith) real)
      ∙ xor_assoc _ _ _

  pub move_piece-Returns :
      (from to : ℕ)
      → p.board from < 12
      → p.board to ≡ no_piece
      → from < 64
      → to < 64
      → Returns z p
          (move_piece z p from to)
          (update (update p.board from no_piece) to (p.board from))
  move_piece-Returns from to real empty h l =
      let pc = p.board from in
      let delta = bit_or (bb from) (bb to) in
      let q : Position = record p {
        board = update (update p.board from no_piece) to pc;
        by_type = update p.by_type (type_of pc) (bit_xor (p.by_type (type_of pc)) delta);
        by_color = update p.by_color (color_of pc) (bit_xor (p.by_color (color_of pc)) delta);
        key = bit_xor p.key (bit_xor (z.pieces pc from) (z.pieces pc to));
      } in
      (
        q,
        unfold move_piece in ground arith,
        record {
          placed = refl;
          consistent = record {
            ranged = λ k. ground (arith, c.ranged k);
            types = Indexes-move type_of p.board p.by_type c.types from to real empty h l;
            colors = Indexes-move color_of p.board p.by_color c.colors from to real empty h l;
          };
          kept = refl;
          hashed =
              IsHashed-board z p q (bit_xor (z.pieces pc from) (z.pieces pc to)) refl
                (moved_key from to real empty h l) refl refl refl;
          ep_kept = refl;
        },
      )

-- The same over a board that the position's is known to be.
module _ (z : Keys) (p : Position) (c : Consistent p) (b : ℕ → ℕ) (on : p.board ≡ b) where
  pub put_on :
      (pc s : ℕ)
      → b s ≡ no_piece
      → pc < 12
      → s < 64
      → Returns z p (put_piece z p pc s) (update b s pc)
  put_on pc s =
      subst
        (λ b. b s ≡ no_piece → pc < 12 → s < 64 → Returns z p (put_piece z p pc s) (update b s pc))
        on (put_piece-Returns z p c pc s)

  pub remove_on :
      (s : ℕ) → b s < 12 → s < 64 → Returns z p (remove_piece z p s) (update b s no_piece)
  remove_on s =
      subst (λ b. b s < 12 → s < 64 → Returns z p (remove_piece z p s) (update b s no_piece)) on
        (remove_piece-Returns z p c s)

  pub move_on :
      (from to : ℕ)
      → b from < 12
      → b to ≡ no_piece
      → from < 64
      → to < 64
      → Returns z p (move_piece z p from to) (update (update b from no_piece) to (b from))
  move_on from to =
      subst
        (λ b.
          b from < 12
          → b to ≡ no_piece
          → from < 64
          → to < 64
          → Returns z p (move_piece z p from to) (update (update b from no_piece) to (b from)))
        on (move_piece-Returns z p c from to)

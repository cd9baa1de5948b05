-- ===== src/Chess/Position/Examples.antt =====
-- Concrete positions and moves that the theorems of the position are applied to.
use native.Mathlib.Omega.{arith}
use novachess.Prelude.{
  ℕ, ◌+◌, ◌*◌, ◌<◌, ◌≤◌, bit_or, false, none, some, List, [], ◌∷◌, ◌≡◌, ◌↔◌, ◌⊎◌, refl, update,
  ◌==◌, if◌then◌else◌, ◌>>=◌,
}
use novachess.Prelude.Bits.{test_bit-zero}
use novachess.Prelude.Int.{pos}
use novachess.Chess.Types.{
  white, black, no_piece, no_square, type_of, color_of, opposite, make_piece,
}
use novachess.Chess.Bitboard.{bb}
use novachess.Chess.Move.{kind_of, from_of, to_of}
use novachess.Chess.Attacks.{Magic, Magics}
use novachess.Chess.Zobrist.{Keys}
use novachess.Chess.Position.{Position, compute_key}
use novachess.Chess.Position.EnPassant.{ahead, sanitize}
use novachess.Chess.Position.Make.{make_move, make_null_move}
use novachess.Chess.Position.Unmake.{unmake_move, unmake_null_move}
use novachess.Chess.Position.Consistent.{Consistent}
use novachess.Chess.Position.Consistent.Indexed.{Indexes, Indexes-put}
use novachess.Chess.Position.Playable.{Playable, normal, board_after, HasEnemyKing}
use novachess.Chess.Position.MakeMove.{Valid, Moved, make_move-Moved}
use novachess.Chess.Position.RoundTrip.{unmake_move-make_move}
use novachess.Chess.Position.NullMove.{make_null_move-Valid, unmake_null_move-make_null_move}
use novachess.Chess.Position.Available.{sanitize_panics}
use novachess.Chess.Position.Line.{
  Step, move, null_move, make_line, unmake_line, PlayableLine, done, by_move, by_null,
  unmake_line-make_line, make_line-HoldsRight, HoldsRight,
}

abbrev pub keys : Keys
keys = record {
  pieces = λ pc s. pc * 64 + s + 1;
  castling = λ rights. rights + 1000;
  ep_file = λ f. f + 2000;
  side = 3000;
}

abbrev no_attacks : Magic
no_attacks = record { mask = 0; multiplier = 0; attacks = λ i. 0; shift = 52 }

abbrev pub magics : Magics
magics = record { rook_magics = λ s. no_attacks; bishop_magics = λ s. no_attacks }

-- Kings on e1 and e8 and a white pawn on e2.
abbrev no_pieces : ℕ → ℕ
no_pieces s = no_piece

abbrev with_king : ℕ → ℕ
with_king = update no_pieces 4 5

abbrev with_kings : ℕ → ℕ
with_kings = update with_king 60 11

abbrev with_pawn : ℕ → ℕ
with_pawn = update with_kings 12 0

abbrev added : (ℕ → ℕ) → (ℕ → ℕ) → ℕ → ℕ → ℕ → ℕ
added class sets pc s = update sets (class pc) (bit_or (sets (class pc)) (bb s))

abbrev indexed : (ℕ → ℕ) → ℕ → ℕ
indexed class = added class (added class (added class (λ t. 0) 5 4) 11 60) 0 12

indexed-Indexes : (class : ℕ → ℕ) → Indexes class with_pawn (indexed class)
indexed-Indexes class =
    let none_there : Indexes class no_pieces (λ t. 0) = record {
      bits = λ t s h. test_bit-zero s;
      words = λ t. omega arith;
    } in
    let one = Indexes-put class no_pieces _ none_there 5 4 refl (omega arith) (omega arith) in
    let two = Indexes-put class with_king _ one 11 60 refl (omega arith) (omega arith) in
    Indexes-put class with_kings _ two 0 12 refl (omega arith) (omega arith)

abbrev pub unhashed : ℕ → Position
unhashed ep = record {
  by_type = indexed type_of;
  by_color = indexed color_of;
  board = with_pawn;
  side = white;
  castling = 3;
  ep_square = ep;
  halfmove = pos 3;
  fullmove = pos 40;
  key = 0;
  chess960 = false;
  castling_rook = λ i. no_square;
  castling_path = λ i. 0;
  cr_mask = λ s. if s == 4 then 12 else 15;
  history = [];
}

abbrev pub endgame : Position
endgame = record (unhashed no_square) { key = compute_key keys (unhashed no_square) }

with_pawn-real : (s : ℕ) → with_pawn s ≤ no_piece
with_pawn-real s = ground arith

pub unhashed-Consistent : (ep : ℕ) → Consistent (unhashed ep)
unhashed-Consistent ep = record {
  ranged = with_pawn-real;
  types = indexed-Indexes type_of;
  colors = indexed-Indexes color_of;
}

endgame-Valid : Valid keys endgame
endgame-Valid = record {
  consistent = record {
    ranged = with_pawn-real;
    types = indexed-Indexes type_of;
    colors = indexed-Indexes color_of;
  };
  hashed = unfold compute_key in refl;
  side = omega arith;
  castling = omega arith;
}

-- e2e4.
abbrev double_push : ℕ
double_push = 1804

endgame-Playable : Playable endgame double_push
unfolding kind_of from_of to_of color_of type_of make_piece opposite ahead
endgame-Playable = normal (record {
  kind = refl;
  real = omega arith;
  own = refl;
  apart = λ e. absurd (omega arith);
  spares_king = λ e. absurd (omega arith);
  forward = λ p d. refl;
})

endgame-HasEnemyKing : HasEnemyKing with_pawn white
unfolding make_piece opposite
endgame-HasEnemyKing = (60, omega arith, refl)

endgame_pushes :
    (q : Position) × (make_move keys magics endgame double_push ≡ some q)
    × Moved keys endgame q double_push (board_after endgame-Playable)
endgame_pushes =
    make_move-Moved keys endgame endgame-Valid double_push magics endgame-Playable
      endgame-HasEnemyKing

make_move-Moved_example :
    (q : Position) × (make_move keys magics endgame double_push ≡ some q)
    × Moved keys endgame q double_push (board_after endgame-Playable)
make_move-Moved_example =
    make_move-Moved keys endgame endgame-Valid double_push magics endgame-Playable
      endgame-HasEnemyKing

unmake_move-make_move_example :
    (make_move keys magics endgame double_push >>= unmake_move keys) ≡ some endgame
unmake_move-make_move_example =
    unmake_move-make_move keys magics endgame double_push endgame-Playable endgame-Valid
      endgame-HasEnemyKing

make_null_move-Valid_example : Valid keys (make_null_move keys endgame)
make_null_move-Valid_example = make_null_move-Valid keys endgame endgame-Valid

unmake_null_move-make_null_move_example :
    unmake_null_move (make_null_move keys endgame) ≡ some endgame
unmake_null_move-make_null_move_example = unmake_null_move-make_null_move keys endgame endgame-Valid

-- The double push, then a null move.
abbrev push_and_pass : List Step
push_and_pass = move double_push ∷ null_move ∷ []

push_and_pass-Playable : PlayableLine keys magics endgame push_and_pass
push_and_pass-Playable =
    by_move endgame double_push (null_move ∷ []) endgame-Playable endgame-HasEnemyKing
      (λ q e. by_null q [] (done (make_null_move keys q)))

unmake_line-make_line_example :
    (q : Position) × (make_line keys magics endgame push_and_pass ≡ some q)
    × Valid keys q
    × (unmake_line keys q push_and_pass ≡ some endgame)
unmake_line-make_line_example =
    unmake_line-make_line keys magics endgame push_and_pass endgame-Valid push_and_pass-Playable

-- An en passant square on the mover's own back rank.
sanitize_panics_example : (sanitize magics (unhashed 5) ≡ none) ↔ (
    (with_pawn 5 ≡ no_piece)
    × (((white ≡ white) × (5 < 8)) ⊎ ((white ≡ black) × (56 ≤ 5) × (5 < 64))))
unfolding make_piece
sanitize_panics_example =
    sanitize_panics magics (unhashed 5) 4 (unhashed-Consistent 5) (omega arith) (omega arith) refl

make_line-HoldsRight_example :
    (q : Position) × (make_line keys magics endgame push_and_pass ≡ some q)
    × HoldsRight endgame q push_and_pass 0
make_line-HoldsRight_example =
    make_line-HoldsRight keys magics endgame push_and_pass 0 endgame-Valid push_and_pass-Playable

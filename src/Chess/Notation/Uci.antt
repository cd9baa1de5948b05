-- ===== src/Chess/Notation/Uci.antt =====
-- Reading a move as it is written.
use native.Mathlib.Omega.{arith}
use novachess.Prelude.{
  ℕ, zero, suc, ◌<◌, Bool, true, false, ◌||◌, Option, none, some, List, [], ◌∷◌, ◌==◌, ◌≢◌, ◌≡◌,
  ◌≢◌, refl, inl, inr, Bool-cases, ==_iff, ap, sym, ◌∙◌,
}
use novachess.Prelude.Text.{◌==*◌, ==*-refl, ==*-sound}
use novachess.Chess.Attacks.{Magics}
use novachess.Chess.Position.{Position}
use novachess.Chess.Movegen.{generate_legal_moves}
use novachess.Chess.Types.{black, make_piece, piece_chars}
use novachess.Chess.Move.{promotion_of, from_of, is_none}
use novachess.Chess.Move.Fields.{promotion_of-le}
use novachess.Chess.Position.MakeReturns.{make_piece-lt}
use novachess.Chess.Notation.Written.{destination, promotes_to, written_apart, written_none}
use novachess.Chess.Notation.{
  byte_at, move_string, move_to_uci, written_so, parse_among, parse_uci_move,
}

abbrev pub among : ℕ → List ℕ → Bool
among m [] = false
among m (x ∷ xs) = x == m || among m xs

abbrev size : List ℕ → ℕ
size [] = 0
size (c ∷ cs) = suc (size cs)

byte_at-some : (cs : List ℕ) (i : ℕ) → i < size cs → (c : ℕ) × (byte_at cs i ≡ some c)
byte_at-some [] i h = absurd (omega arith)
byte_at-some (c ∷ cs) zero h = (c, refl)
byte_at-some (c ∷ cs) (suc i) h = byte_at-some cs i (omega arith)

piece_letter :
    (m : ℕ) → (c : ℕ) × (byte_at piece_chars (make_piece black (promotion_of m)) ≡ some c)
piece_letter m =
    let real =
      make_piece-lt black (promotion_of m) (omega arith) (omega (arith, promotion_of-le m)) in
    byte_at-some piece_chars (make_piece black (promotion_of m)) real

text_of : (o : Option (List ℕ)) → o ≢ none → (text : List ℕ) × (o ≡ some text)
text_of none h = absurd (h refl)
text_of (some text) h = (text, refl)

-- Every move can be written.
move_string-ne-none : (m : ℕ) → move_string m ≢ none
unfolding move_string
move_string-ne-none m = let (c, letter) = piece_letter m in λ e. ground (arith, letter)

move_to_uci-some : (p : Position) (m : ℕ) → (text : List ℕ) × (move_to_uci p m ≡ some text)
unfolding move_to_uci
move_to_uci-some p m = text_of _ (λ e. ground (arith, move_string-ne-none m))

written_same : {s t : List ℕ} → some s ≡ some t → s ≡ t
written_same e = cc

-- The loop finds a move for the text of a move in the list.
written_so-finds :
    (p : Position) (ms : List ℕ) (m : ℕ) (text : List ℕ)
    → among m ms ≡ true
    → move_to_uci p m ≡ some text
    → (n : ℕ) × (written_so p text ms ≡ some (some n))
      × (among n ms ≡ true)
      × (move_to_uci p n ≡ some text)
unfolding written_so
written_so-finds p [] m text h e = cc
written_so-finds p (x ∷ ms) m text h e =
    let (t, w) = move_to_uci-some p x in
    elim (Bool-cases (t ==* text)) [
      | inl same ↦ (x, rw (w, same) refl, ground arith, w ∙ ap some (==*-sound t text same))
      | inr other ↦ elim (Bool-cases (x == m)) [
        | inl here ↦
            let is_m : x ≡ m = (==_iff x m).0 here in
            let text_same = written_same (sym w ∙ ap (move_to_uci p) is_m ∙ e) in
            absurd (ground (arith, ==*-refl text, ap (λ t. t ==* text) text_same, other))
        | inr later ↦
            let (n, found, member, writes) = written_so-finds p ms m text (ground arith) e in
            (n, rw (w, other) found, ground arith, writes)
      ]
    ]

-- The text that a legal move is written as is read as a legal move from the same square to the
-- same destination, with the same promotion, and so one that is written the same, when the legal
-- moves are known and the move is not the empty one. A castling king's destination is its own goal,
-- or its rook in Chess960.
pub parse_uci_move-move_to_uci :
    (g : Magics) (p : Position) (ms : List ℕ) (m : ℕ) (text : List ℕ)
    → generate_legal_moves g p ≡ some ms
    → among m ms ≡ true
    → is_none m ≡ false
    → move_to_uci p m ≡ some text
    → (n : ℕ) × (parse_uci_move g p text ≡ some (some n))
      × (among n ms ≡ true)
      × (from_of n ≡ from_of m)
      × (destination p n ≡ destination p m)
      × (promotes_to n ≡ promotes_to m)
      × (move_to_uci p n ≡ some text)
unfolding parse_uci_move parse_among
parse_uci_move-move_to_uci g p ms m text legal member real writes =
    let (n, found, in_ms, same) = written_so-finds p ms m text member writes in
    let (from, goal, piece) =
      written_apart p m n text real (written_none p m n text real writes same) writes same in
    (n, rw (legal, found) refl, in_ms, from, goal, piece, same)

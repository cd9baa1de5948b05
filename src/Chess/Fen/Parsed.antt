-- ===== src/Chess/Fen/Parsed.antt =====
-- What ParseFEN returns is a position that the rest of the package can work on.
use native.Mathlib.Omega.{arith}
use novachess.Prelude.{
  ℕ, ◌<◌, bit_and, Bool, true, Option, none, some, List, [], ◌∷◌, ◌>>=◌, ◌≡◌, ◌≢◌, refl, ap, subst,
  ◌∙◌, ◌⊎◌, inl, inr, if◌then◌else◌, Bool-cases,
}
use novachess.Prelude.Int.{ℤ, pos}
use novachess.Prelude.Text.{Text, codes, ◌==*◌, atoi}
use novachess.Chess.Types.{pawn, no_square, opposite, parse_square}
use novachess.Chess.Bitboard.{squares}
use novachess.Chess.Attacks.{Magics, pawn_attacks}
use novachess.Chess.Zobrist.{Keys}
use novachess.Chess.Position.{Position, occupied, pieces_of, king_square, compute_key}
use novachess.Chess.Position.EnPassant.{en_passant_legal, any_legal, ep_capture_available, sanitize}
use novachess.Chess.Position.MakeMove.{Valid}
use novachess.Chess.Fen.{
  Reading, reads, refuses, panics, or_panics, or_refuses, fields, empty_position, read_board,
  read_side, has_kings, read_castling, read_ep, read_counter, tail, validate, read_rest,
  read_fields, parse_fen,
}
use novachess.Chess.Fen.Board.{Comes, Comes-bind, Comes-weaken, Comes-if, Placed, read_board-Comes}
use novachess.Chess.Fen.Checked.{
  IsOnBackRank, Checked, Checked-outside, validate-Comes, sanitize-Comes, kings-on_board,
}
use novachess.Chess.Fen.Rights.{Rigged, read_castling-Comes}

-- The position that ParseFEN returns.
pub record Readable (z : Keys) (g : Magics) (p : Position) : Type 0 where
  pub valid : Valid z p
  pub checked : Checked g p
  pub capturable :
      (p.ep_square ≡ no_square) ⊎ (ep_capture_available g p p.ep_square p.side ≡ some true)

any_legal-key :
    (g : Magics) (p : Position) (k to us ksq occ : ℕ) (froms : List ℕ)
    → any_legal g (record p { key = k }) to us ksq occ froms ≡ any_legal g p to us ksq occ froms
unfolding any_legal en_passant_legal
any_legal-key g p k to us ksq occ [] = refl
any_legal-key g p k to us ksq occ (from ∷ froms) =
    ap
      (λ rest.
        en_passant_legal g p from to us ksq occ >>= λ legal. if legal then some true else rest)
      (any_legal-key g p k to us ksq occ froms)

available-key :
    (g : Magics) (p : Position) (k e us : ℕ)
    → ep_capture_available g (record p { key = k }) e us ≡ ep_capture_available g p e us
unfolding ep_capture_available occupied pieces_of king_square
available-key g p k e us = ground (
  arith,
  any_legal-key g p k e us (king_square p us) (occupied p)
      (squares (bit_and (pawn_attacks (opposite us) e) (pieces_of p us pawn))),
)

keyed-Readable :
    (z : Keys) (g : Magics) (p : Position)
    → Checked g p
    → (p.ep_square ≡ no_square) ⊎ (ep_capture_available g p p.ep_square p.side ≡ some true)
    → Readable z g (record p { key = compute_key z p })
unfolding compute_key
keyed-Readable z g p v ep = record {
  valid = record {
    consistent = record {
      ranged = v.consistent.ranged;
      types = v.consistent.types;
      colors = v.consistent.colors;
    };
    hashed = refl;
    side = v.side;
    castling = v.rights;
  };
  checked = Checked-outside g p p.ep_square (compute_key z p) v;
  capturable = kept ep;
}
  where
    kept :
        (p.ep_square ≡ no_square) ⊎ (ep_capture_available g p p.ep_square p.side ≡ some true)
        → (p.ep_square ≡ no_square)
          ⊎ (ep_capture_available g (record p { key = compute_key z p }) p.ep_square p.side
              ≡ some true)
    kept (inl none_) = inl none_
    kept (inr legal) = inr (available-key g p (compute_key z p) p.ep_square p.side ∙ legal)

reading-Comes :
    {A : Type 0} (Q : Type 0) (m : Reading A) → m ≢ panics → Comes (λ a. m ≡ reads a) Q m
reading-Comes Q (reads a) h = refl
reading-Comes Q refuses h = tt
reading-Comes Q panics h = absurd (h refl)

or_refuses-answers {ℓ} : {A : Type ℓ} (o : Option A) → or_refuses o ≢ panics
or_refuses-answers none = λ e. cc
or_refuses-answers (some a) = λ e. cc

read_ep-answers : (field : Text) → read_ep field ≢ panics
unfolding read_ep
read_ep-answers field = ground (arith, or_refuses-answers (parse_square field))

read_counter-answers : (default : ℤ) (rest : List Text) → read_counter default rest ≢ panics
unfolding read_counter
read_counter-answers default [] = λ e. cc
read_counter-answers default (field ∷ rest) = or_refuses-answers (atoi field)

-- The en passant field names a square of the mover's own back rank.
abbrev pub NamesBackRank : List Text → Type 0
NamesBackRank (board ∷ side ∷ castling ∷ ep ∷ counters) =
    (us : ℕ) × (e : ℕ) × (read_side side ≡ reads us) × (read_ep ep ≡ reads e) × IsOnBackRank us e
NamesBackRank few = ⊥

numbered-Rigged :
    (us : ℕ) (p : Position) (e : ℕ) (h f : ℤ)
    → Rigged us p
    → Rigged us (record p { ep_square = e; halfmove = h; fullmove = f })
unfolding has_kings king_square pieces_of
numbered-Rigged us p e h f v = record {
  consistent = record {
    ranged = v.consistent.ranged;
    types = v.consistent.types;
    colors = v.consistent.colors;
  };
  kings = v.kings;
  counted = v.counted;
  rights = v.rights;
  side = v.side;
  no_history = v.no_history;
}

read_rest-Comes :
    (z : Keys) (g : Magics) (us : ℕ) (p : Position) (ep : Text) (counters : List Text)
    → us < 2
    → Rigged us p
    → Comes
        (Readable z g)
        ((e : ℕ) × (read_ep ep ≡ reads e) × IsOnBackRank us e)
        (read_rest z g p ep counters)
unfolding read_rest
read_rest-Comes z g us p ep counters lt v =
    let Q = (e : ℕ) × (read_ep ep ≡ reads e) × IsOnBackRank us e in
    Comes-bind _ _ Q (read_ep ep) _ (reading-Comes Q (read_ep ep) (read_ep-answers ep)) (λ e read.
      Comes-bind _ _ Q (read_counter (pos 0) counters) _
        (reading-Comes Q (read_counter (pos 0) counters) (read_counter-answers (pos 0) counters))
        (λ h read_h.
          Comes-bind _ _ Q (read_counter (pos 1) (tail counters)) _
            (reading-Comes Q (read_counter (pos 1) (tail counters))
              (read_counter-answers (pos 1) (tail counters)))
            (λ f read_f.
              let p' = record p { ep_square = e; halfmove = h; fullmove = f } in
              Comes-bind (λ q. (q ≡ p') × Checked g q) _ Q (validate g p') _
                (Comes-weaken (λ q. (q ≡ p') × Checked g q) ⊥ Q (validate g p') (λ no. absurd no)
                  (validate-Comes g us p' lt (numbered-Rigged us p e h f v)))
                (λ q (same, checked).
                  Comes-bind _ _ Q (or_panics (sanitize g q)) _
                    (Comes-weaken _ _ Q (or_panics (sanitize g q))
                      (λ back. (
                        e,
                        read,
                        subst (λ c. IsOnBackRank c e) v.side
                            (subst (λ (x : Position). IsOnBackRank x.side x.ep_square) same back),
                      ))
                      (sanitize-Comes g q checked))
                    (λ r (sound, ep_ok). keyed-Readable z g r sound ep_ok)))))

begun-Rigged :
    (us : ℕ) (p : Position)
    → us < 2
    → has_kings p ≡ true
    → Placed p
    → Rigged us (record p { side = us })
unfolding has_kings king_square pieces_of
begun-Rigged us p lt counted v = record {
  consistent = record {
    ranged = v.consistent.ranged;
    types = v.consistent.types;
    colors = v.consistent.colors;
  };
  kings = kings-on_board p v.consistent counted;
  counted = counted;
  rights = omega (arith, v.no_rights);
  side = refl;
  no_history = v.no_history;
}

read_side-Comes :
    (Q : Type 0) (field : Text)
    → Comes (λ us. (us < 2) × (read_side field ≡ reads us)) Q (read_side field)
unfolding read_side
read_side-Comes Q field = elim (Bool-cases (field ==* codes "w")) [
  | inl w ↦ rw w (omega arith, refl)
  | inr other ↦ elim (Bool-cases (field ==* codes "b")) [
    | inl b ↦ rw (other, b) (omega arith, refl)
    | inr neither ↦ rw (other, neither) tt
  ]
]

read_fields-Comes :
    (z : Keys) (g : Magics) (chess960 : Bool) (fs : List Text)
    → Comes (Readable z g) (NamesBackRank fs) (read_fields z g chess960 fs)
unfolding read_fields
read_fields-Comes z g chess960 (board ∷ side ∷ castling ∷ ep ∷ counters) =
    let fs = board ∷ side ∷ castling ∷ ep ∷ counters in
    let Q = NamesBackRank fs in
    let start = record empty_position { chess960 = chess960 } in
    Comes-bind Placed _ Q (read_board z start board) _
      (Comes-weaken Placed ⊥ Q (read_board z start board) (λ no. absurd no)
        (read_board-Comes z chess960 board))
      (λ p placed.
        Comes-bind (λ us. (us < 2) × (read_side side ≡ reads us)) _ Q (read_side side) _
          (read_side-Comes Q side)
          (λ us (lt, read).
            Comes-bind (Rigged us) _ Q
              (if has_kings p then read_castling (record p { side = us }) castling else refuses) _
              (Comes-if (Rigged us) Q (has_kings p) _ refuses
                (λ counted.
                  Comes-weaken (Rigged us) ⊥ Q (read_castling (record p { side = us }) castling)
                    (λ no. absurd no)
                    (read_castling-Comes us (record p { side = us }) castling
                      (begun-Rigged us p lt counted placed)))
                (λ few. tt))
              (λ q rigged.
                Comes-weaken (Readable z g) _ Q (read_rest z g q ep counters)
                  (λ (e, read_e, back). (us, e, read, read_e, back))
                  (read_rest-Comes z g us q ep counters lt rigged))))
read_fields-Comes z g chess960 [] = tt
read_fields-Comes z g chess960 (board ∷ []) = tt
read_fields-Comes z g chess960 (board ∷ side ∷ []) = tt
read_fields-Comes z g chess960 (board ∷ side ∷ castling ∷ []) = tt

-- Whatever the text, ParseFEN refuses it or returns a valid position (its views agree and its key is
-- the one computed from scratch) with one king of each colour, the side that has moved not in check,
-- no pawn on the first or the eighth rank, no history, and an en passant square only where a capture
-- is legal; it panics only if the en passant field names a square of the mover's own back rank.
pub parse_fen-Readable :
    (z : Keys) (g : Magics) (chess960 : Bool) (fen : Text)
    → Comes (Readable z g) (NamesBackRank (fields fen)) (parse_fen z g chess960 fen)
unfolding parse_fen
parse_fen-Readable z g chess960 fen = read_fields-Comes z g chess960 (fields fen)

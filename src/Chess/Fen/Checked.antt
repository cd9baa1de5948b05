-- ===== src/Chess/Fen/Checked.antt =====
-- What validate and sanitize leave: a position whose kings are on the board, with the side that has
-- moved out of check, and with an en passant square only where a capture is legal.
use native.Mathlib.Omega.{arith}
use novachess.Prelude.{
  ℕ, zero, suc, ◌^◌, ◌≤◌, ◌<◌, bit_and, Bool, true, false, not, Option, none, some, [], ◌==◌, ◌>>=◌,
  dec_lt, ◌≡◌, ◌≢◌, refl, ap, ◌∙◌, ◌⊎◌, inl, inr, if◌then◌else◌, Bool-cases,
}
use novachess.Prelude.Bits.{and-le_left}
use novachess.Chess.Types.{white, black, pawn, king, no_square, opposite}
use novachess.Chess.Bitboard.{count, first, pop_first}
use novachess.Chess.Bitboard.Iteration.{pop_first-Pops}
use novachess.Chess.Attacks.{Magics}
use novachess.Chess.Position.{Position, occupied, pieces_of, king_square}
use novachess.Chess.Position.Available.{behind_off, ep_capture_available-answers}
use novachess.Chess.Position.EnPassant.{behind, ep_capture_available, sanitize}
use novachess.Chess.Position.Consistent.{Consistent}
use novachess.Chess.Movegen.Attackers.{attackers_to, is_attacked}
use novachess.Chess.Fen.{reads, refuses, or_panics, has_kings, back_ranks, validate}
use novachess.Chess.Fen.Board.{Comes, Comes-bind, Comes-if}
use novachess.Chess.Fen.Rights.{Rigged}

-- A word with a member has its first member on the board.
pub count-first : (b : ℕ) → b < 2 ^ 64 → count b ≡ 1 → first b < 64
unfolding count first pop_first
count-first zero h e = absurd (omega arith)
count-first (suc b) h e = (pop_first-Pops (suc b) (omega arith) h).on_board

pub kings-on_board :
    (p : Position) → Consistent p → has_kings p ≡ true → (c : ℕ) → c < 2 → king_square p c < 64
unfolding has_kings pieces_of king_square
kings-on_board p v h c lt =
    let word : bit_and (p.by_color c) (p.by_type king) < 2 ^ 64 = omega (
      arith,
      and-le_left 64 (p.by_color c) (p.by_type king) (v.colors.words c),
      v.colors.words c,
    ) in
    count-first (bit_and (p.by_color c) (p.by_type king)) word (one c lt)
  where
    one : (c : ℕ) → c < 2 → count (bit_and (p.by_color c) (p.by_type king)) ≡ 1
    one zero lt = ground arith
    one (suc zero) lt = ground arith
    one (suc (suc c)) lt = absurd (omega arith)

-- An en passant square on the mover's own back rank, before which no pawn can stand.
abbrev pub IsOnBackRank : ℕ → ℕ → Type 0
IsOnBackRank us e = ((us ≡ white) × (e < 8)) ⊎ ((us ≡ black) × (56 ≤ e) × (e < 64))

-- What validate has seen, whatever the en passant square and the key.
pub record Checked (g : Magics) (p : Position) : Type 0 where
  pub consistent : Consistent p
  pub kings : (c : ℕ) → c < 2 → king_square p c < 64
  pub one_king_each : has_kings p ≡ true
  pub not_in_check : is_attacked g p (king_square p (opposite p.side)) p.side ≡ some false
  pub no_back_pawns : bit_and (p.by_type pawn) back_ranks ≡ 0
  pub rights : p.castling < 16
  pub side : p.side < 2
  pub no_history : p.history ≡ []

opposite-lt : (c : ℕ) → c < 2 → opposite c < 2
unfolding opposite
opposite-lt zero h = omega arith
opposite-lt (suc zero) h = omega arith
opposite-lt (suc (suc c)) h = absurd (omega arith)

attack_answers : (g : Magics) (p : Position) (s by : ℕ) → s < 64 → is_attacked g p s by ≢ none
unfolding is_attacked attackers_to
attack_answers g p s by h = ground arith

pub option-Comes {ℓ} :
    {A : Type ℓ} (P : A → Type 0) (Q : Type 0) (o : Option A)
    → (o ≡ none → Q)
    → ((a : A) → o ≡ some a → P a)
    → Comes P Q (or_panics o)
option-Comes P Q none h k = h refl
option-Comes P Q (some a) h k = k a refl

pub validate-Comes :
    (g : Magics) (us : ℕ) (p : Position)
    → us < 2
    → Rigged us p
    → Comes (λ q. (q ≡ p) × Checked g q) ⊥ (validate g p)
unfolding validate
validate-Comes g us p lt v =
    let side_lt : p.side < 2 = omega (arith, v.side) in
    let on = v.kings (opposite p.side) (opposite-lt p.side side_lt) in
    let attack = is_attacked g p (king_square p (opposite p.side)) p.side in
    Comes-if _ ⊥ (has_kings p) _ refuses
      (λ counted.
        Comes-bind (λ a. attack ≡ some a) _ ⊥ (or_panics attack) _
          (option-Comes (λ a. attack ≡ some a) ⊥ attack
            (attack_answers g p (king_square p (opposite p.side)) p.side on) (λ a e. e))
          (λ a e.
            Comes-if _ ⊥ a refuses _ (λ attacked. tt)
              (λ free.
                Comes-if _ ⊥ (not (bit_and (p.by_type pawn) back_ranks == 0)) refuses (reads p)
                  (λ some_pawn. tt)
                  (λ clear. (
                    refl,
                    record {
                      consistent = v.consistent;
                      kings = v.kings;
                      one_king_each = v.counted;
                      not_in_check = e ∙ ap some free;
                      no_back_pawns = ground arith;
                      rights = v.rights;
                      side = side_lt;
                      no_history = v.no_history;
                    },
                  )))))
      (λ e. tt)

-- The en passant square and the key are no part of what was checked.
pub Checked-outside :
    (g : Magics) (p : Position) (e k : ℕ)
    → Checked g p
    → Checked g (record p { ep_square = e; key = k })
unfolding has_kings king_square is_attacked attackers_to pieces_of occupied
Checked-outside g p e k v = record {
  consistent = record {
    ranged = v.consistent.ranged;
    types = v.consistent.types;
    colors = v.consistent.colors;
  };
  kings = v.kings;
  one_king_each = v.one_king_each;
  not_in_check = v.not_in_check;
  no_back_pawns = v.no_back_pawns;
  rights = v.rights;
  side = v.side;
  no_history = v.no_history;
}

off_board :
    (g : Magics) (p : Position)
    → Checked g p
    → ep_capture_available g p p.ep_square p.side ≡ none
    → IsOnBackRank p.side p.ep_square
off_board g p v e = elim (dec_lt (behind p.ep_square p.side) 64) [
  | yes inside ↦
      let (a, answers) =
        ep_capture_available-answers g p p.ep_square p.side (v.kings p.side v.side) (inr inside) in
      cc
  | no outside ↦ elim (dec_lt p.ep_square 64) [
    | yes on ↦
        let places = (behind_off p.ep_square p.side on v.side).0 (omega arith) in ground arith
    | no off ↦
        let (a, answers) =
          ep_capture_available-answers g p p.ep_square p.side (v.kings p.side v.side)
            (inl (omega arith)) in
        cc
  ]
]

pub sanitize-Comes :
    (g : Magics) (p : Position)
    → Checked g p
    → Comes
        (λ r.
          Checked g r
          × ((r.ep_square ≡ no_square) ⊎ (ep_capture_available g r r.ep_square r.side ≡ some true)))
        (IsOnBackRank p.side p.ep_square)
        (or_panics (sanitize g p))
unfolding sanitize
sanitize-Comes g p v = elim (Bool-cases (p.ep_square == no_square)) [
  | inl nothing ↦ rw nothing (v, inl (ground arith))
  | inr some_square ↦ rw some_square (judged (ep_capture_available g p p.ep_square p.side) refl)
]
  where
    judged :
        (o : Option Bool)
        → ep_capture_available g p p.ep_square p.side ≡ o
        → Comes
            (λ r.
              Checked g r
              × ((r.ep_square ≡ no_square)
                  ⊎ (ep_capture_available g r r.ep_square r.side ≡ some true)))
            (IsOnBackRank p.side p.ep_square)
            (or_panics (
              o >>= λ available.
              some (if available then p else record p { ep_square = no_square })))
    judged none e = off_board g p v e
    judged (some true) e = (v, inr e)
    judged (some false) e = (Checked-outside g p no_square p.key v, inl refl)

-- ===== src/Chess/Types/Names.antt =====
-- Square names are read as they are written.
use native.Mathlib.Omega.{arith}
use novachess.Prelude.{ℕ, ◌+◌, ◌/◌, ◌%◌, ◌≤◌, ◌<◌, some, [], ◌∷◌, ◌≡◌, ◌↔◌, refl, sym, ◌∙◌}
use novachess.Prelude.Fields.{and-mask}
use novachess.Chess.Types.{make_square, file_of, rank_of, square_string, parse_square}

pub file_of-mod : (s : ℕ) → file_of s ≡ s % 8
unfolding file_of
file_of-mod s = and-mask 3 s

pub square_string-on_board : (s : ℕ) → s < 64 → square_string s ≡ (97 + s % 8) ∷ (49 + s / 8) ∷ []
unfolding square_string rank_of
square_string-on_board s h = ground (arith, file_of-mod s)

square_string-off_board : (s : ℕ) → 64 ≤ s → square_string s ≡ 45 ∷ []
unfolding square_string
square_string-off_board s h = ground arith

-- A text of two characters is parsed as a square exactly when it is the square's coordinates.
parse_square-two :
    (f r s : ℕ)
    → (parse_square (f ∷ r ∷ []) ≡ some s) ↔ ((s < 64) × (f ≡ 97 + s % 8) × (r ≡ 49 + s / 8))
unfolding parse_square make_square
parse_square-two f r s = ((λ e. ground arith), (λ e. ground arith))

same_text : (a b c d : ℕ) → (a ∷ b ∷ []) ≡ c ∷ d ∷ [] → (a ≡ c) × (b ≡ d)
same_text a b c d e = (cc, cc)

-- The name of a square of the board is parsed as that square, and a text of two characters is
-- parsed as a square only if it is that square's name.
pub parse_square-square_string :
    (s f r : ℕ)
    → s < 64
    → (parse_square (square_string s) ≡ some s)
      × ((parse_square (f ∷ r ∷ []) ≡ some s) ↔ (square_string s ≡ f ∷ r ∷ []))
parse_square-square_string s f r h =
    let name = square_string-on_board s h in
    let (only, back) = parse_square-two f r s in
    (
      rw name ((parse_square-two _ _ s).1 (h, refl, refl)),
      (
        (λ e. let (_, file, rank) = only e in rw (name, file, rank) refl),
        (λ e. let (file, rank) = same_text _ _ f r (sym name ∙ e) in back (h, sym file, sym rank)),
      ),
    )

-- ===== src/Chess/Position/Playable/Boards.antt =====
-- The boards that the parts of a move lead to, and that taking the move back restores the first.
use native.Mathlib.Omega.{arith}
use novachess.Prelude.{ℕ, ◌<◌, ◌≡◌, ◌≢◌, ◌⊎◌, sym, ap, ◌∙◌, fun_ext, update}
use novachess.Chess.Types.{no_piece}

-- A piece goes from one square to another, and what stood there goes off the board.
abbrev pub after_normal : (ℕ → ℕ) → ℕ → ℕ → ℕ → ℕ → ℕ
after_normal b from to pc = update (update (update b to no_piece) from no_piece) to pc

abbrev pub after_en_passant : (ℕ → ℕ) → ℕ → ℕ → ℕ → ℕ → ℕ
after_en_passant b from to victim =
    update (update (update b victim no_piece) from no_piece) to (b from)

abbrev pub after_castling : (ℕ → ℕ) → ℕ → ℕ → ℕ → ℕ → ℕ → ℕ → ℕ → ℕ
after_castling b from to k r king rook =
    update (update (update (update b from no_piece) to no_piece) k king) r rook

module _ (b : ℕ → ℕ) (from to : ℕ) (apart : from ≢ to) where
  pub normal_undone :
      (pc : ℕ)
      → update (update (update (after_normal b from to pc) to no_piece) from (b from)) to (b to) ≡ b
  normal_undone pc = fun_ext λ s. ground arith

  pub en_passant_undone :
      (victim : ℕ)
      → victim ≢ from
      → victim ≢ to
      → b to ≡ no_piece
      → update
          (update (update (after_en_passant b from to victim) to no_piece) from (b from))
          victim
          (b victim)
        ≡ b
  en_passant_undone victim v w empty = fun_ext λ s. ground arith

  pub castling_undone :
      (k r king rook : ℕ)
      → k ≢ r
      → b from ≡ king
      → b to ≡ rook
      → (b k ≡ no_piece) ⊎ (k ≡ from) ⊎ (k ≡ to)
      → (b r ≡ no_piece) ⊎ (r ≡ from) ⊎ (r ≡ to)
      → update
          (update
            (update (update (after_castling b from to k r king rook) k no_piece) r no_piece)
            from
            king)
          to
          rook
        ≡ b
  castling_undone k r king rook ne ek er fk fr = fun_ext λ s. ground arith

-- Castling: each piece is there when it is lifted, and each goal is empty when it is filled.
module _ (b : ℕ → ℕ) (from to k r king rook : ℕ) (kr : king ≢ rook) (apart : k ≢ r) where
  pub partner_stays : b from ≡ king → b to ≡ rook → rook < 12 → update b from no_piece to < 12
  partner_stays ek er real = ground arith

  pub castlers_apart : b from ≡ king → b to ≡ rook → from ≢ to
  castlers_apart ek er e = kr (sym ek ∙ ap b e ∙ er)

  pub king_goal_clear :
      (b k ≡ no_piece) ⊎ (k ≡ from) ⊎ (k ≡ to)
      → update (update b from no_piece) to no_piece k ≡ no_piece
  king_goal_clear h = ground arith

  pub rook_goal_clear :
      (b r ≡ no_piece) ⊎ (r ≡ from) ⊎ (r ≡ to)
      → update (update (update b from no_piece) to no_piece) k king r ≡ no_piece
  rook_goal_clear h = ground arith

  -- After castling: king and rook stand on their goals, and their origins are clear once lifted.
  pub castled_king : king < 12 → after_castling b from to k r king rook k ≡ king
  castled_king real = ground arith

  pub castled_rook : update (after_castling b from to k r king rook) k no_piece r ≡ rook
  castled_rook = ground arith

  pub origin_clear :
      (s : ℕ)
      → (s ≡ from) ⊎ (s ≡ to)
      → update (update (after_castling b from to k r king rook) k no_piece) r no_piece s ≡ no_piece
  origin_clear s h = ground arith

-- A move to another square: the mover is still on its square, and its goal is empty.
module _ (b : ℕ → ℕ) (from to : ℕ) (apart : from ≢ to) where
  pub mover_stays : update b to no_piece from ≡ b from
  mover_stays = ground arith

  pub lifted_clear : update b to no_piece to ≡ no_piece
  lifted_clear = ground arith

  pub goal_clear : update (update b to no_piece) from no_piece to ≡ no_piece
  goal_clear = ground arith

  pub king_survives :
      (k pc theirs : ℕ)
      → b k ≡ theirs
      → b to ≢ theirs
      → b from ≢ theirs
      → after_normal b from to pc k ≡ theirs
  king_survives k pc theirs e t f = ground arith

-- En passant: the mover keeps its square and the goal stays empty when the victim is lifted.
module _ (b : ℕ → ℕ) (from to victim : ℕ) where
  pub capturer_stays : victim ≢ from → update b victim no_piece from ≡ b from
  capturer_stays h = ground arith

  pub ep_goal_clear : b to ≡ no_piece → update b victim no_piece to ≡ no_piece
  ep_goal_clear h = ground arith

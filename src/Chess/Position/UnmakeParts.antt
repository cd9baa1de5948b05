-- ===== src/Chess/Position/UnmakeParts.antt =====
-- The cases of `UnmakeMove`, each on a position whose board is the one that its move leads to:
-- it returns, with the board from before the move.
use native.Mathlib.Omega.{arith}
use novachess.Prelude.{
  ℕ, ◌<◌, ◌≤◌, Option, ◌==◌, ◌≡◌, ◌≢◌, refl, ◌∙◌, sym, ap, subst, fun_ext, inl, inr, Bool-cases,
  ==_iff, update,
}
use novachess.Chess.Types.{pawn, rook, king, no_piece, opposite, make_piece}
use novachess.Chess.Move.{from_of, to_of, promotion_of}
use novachess.Chess.Move.Fields.{from_of-lt, to_of-lt, promotion_of-le}
use novachess.Chess.Zobrist.{Keys}
use novachess.Chess.Position.{Position}
use novachess.Chess.Position.EnPassant.{behind}
use novachess.Chess.Position.Make.{captured_by}
use novachess.Chess.Position.Unmake.{
  unmake_castling, unmake_en_passant, put_back, unmake_promotion, unmake_normal, unmake_by_kind,
}
use novachess.Chess.Position.Consistent.{Consistent, Did-refl, Did-board}
use novachess.Chess.Position.Primitives.{Returns, Returns-bind, put_on, remove_on, move_on}
use novachess.Chess.Position.MakeParts.{opposite-lt}
use novachess.Chess.Position.MakeReturns.{
  make_piece-lt, king_goal-lt, rook_goal-lt, goals_apart, king-ne-rook, pawns_apart,
}
use novachess.Chess.Position.Playable.{
  PlayableOn, Playable, normal, promotion, en_passant, castling, board_after, PlaysNormal, Promotes,
  CapturesEnPassant, Castles, king_goal, rook_goal,
}
use novachess.Chess.Position.Playable.Boards.{
  after_normal, after_en_passant, after_castling, normal_undone, en_passant_undone, castling_undone,
  castled_king, castled_rook, origin_clear, castlers_apart,
}

pub Returns-board :
    (z : Keys) (p : Position) (o : Option Position) (b b' : ℕ → ℕ)
    → b ≡ b'
    → Returns z p o b
    → Returns z p o b'
Returns-board z p o b b' e (q, h, d) = (q, h, Did-board z p q b b' e d)

-- What was captured comes back to its empty square.
put_back-Returns :
    (z : Keys) (p : Position) (c : Consistent p) (b : ℕ → ℕ) (on : p.board ≡ b) (captured to : ℕ)
    → b to ≡ no_piece
    → captured ≤ no_piece
    → to < 64
    → Returns z p (put_back z p captured to) (update b to captured)
put_back-Returns z p c b on captured to empty le t = elim (Bool-cases (captured == no_piece)) [
  | inl nothing ↦
      let e : captured ≡ no_piece = (==_iff _ _).0 nothing in
      let same : p.board ≡ update b to captured = on ∙ fun_ext (λ s. ground arith) in
      (p, unfold put_back in rw nothing refl, Did-board z p p _ _ same (Did-refl z p c))
  | inr something ↦
      let (q, e, d) = put_on z p c b on captured to empty (ground arith) t in
      (q, unfold put_back in rw something e, d)
]

-- The squares after a move, once its piece is lifted from where it arrived.
returned : (b : ℕ → ℕ) (from to pc : ℕ) → from ≢ to → after_normal b from to pc from ≡ no_piece
returned b from to pc ne = ground arith

arrived : (b : ℕ → ℕ) (from to pc : ℕ) → after_normal b from to pc to ≡ pc
arrived b from to pc = ground arith

vacated :
    (b : ℕ → ℕ) (from to pc : ℕ) → from ≢ to → update (update b to no_piece) from pc to ≡ no_piece
vacated b from to pc ne = ground arith

module _ (z : Keys) (q : Position) (c : Consistent q) (b : ℕ → ℕ) (full : (s : ℕ) → b s ≤ no_piece)
    (m : ℕ) (us : q.side < 2) where
  unmake_normal-Returns :
      PlaysNormal b q.side m
      → q.board ≡ after_normal b (from_of m) (to_of m) (b (from_of m))
      → Returns z q (unmake_normal z q m (b (to_of m))) b
  unfolding unmake_normal
  unmake_normal-Returns plays on =
      let from = from_of m in
      let to = to_of m in
      let f = from_of-lt m in
      let t = to_of-lt m in
      let pc = b from in
      let done = after_normal b from to pc in
      let b1 = update (update done to no_piece) from pc in
      Returns-board z q _ _ b (normal_undone b from to plays.apart pc) (
        Returns-bind z q _ _ b1 _
          (Returns-board z q _ _ b1
            (ap (update (update done to no_piece) from) (arrived b from to pc))
            (move_on z q c done on to from (rw arrived plays.real)
              (returned b from to pc plays.apart) t f))
          λ r d.
            put_back-Returns z r d.consistent b1 d.placed (b to) to
              (vacated done from to pc plays.apart) (full to) t)

  unmake_promotion-Returns :
      Promotes b q.side m
      → q.board ≡ after_normal b (from_of m) (to_of m) (make_piece q.side (promotion_of m))
      → Returns z q (unmake_promotion z q m (b (to_of m))) b
  unfolding unmake_promotion
  unmake_promotion-Returns plays on =
      let from = from_of m in
      let to = to_of m in
      let f = from_of-lt m in
      let t = to_of-lt m in
      let pc = make_piece q.side (promotion_of m) in
      let done = after_normal b from to pc in
      let b1 = update done to no_piece in
      let pn = make_piece q.side pawn in
      let b2 = update b1 from pn in
      let real = make_piece-lt q.side (promotion_of m) us (omega (arith, promotion_of-le m)) in
      let real_pawn = make_piece-lt q.side pawn us (omega arith) in
      Returns-board z q _ _ b
        (ap (λ x. update (update b1 from x) to (b to)) (sym plays.mover)
          ∙ normal_undone b from to plays.apart pc)
        (Returns-bind z q _ _ b1 _ (remove_on z q c done on to (rw arrived real) t) λ r d.
          Returns-bind z r _ _ b2 _
            (put_on z r d.consistent b1 d.placed pn from (ground arith) real_pawn f)
            λ r' d'.
              put_back-Returns z r' d'.consistent b2 d'.placed (b to) to
                (vacated done from to pn plays.apart) (full to) t)

  unmake_en_passant-Returns :
      CapturesEnPassant b q.side m
      → q.board ≡ after_en_passant b (from_of m) (to_of m) (behind (to_of m) q.side)
      → Returns z q (unmake_en_passant z q m) b
  unfolding unmake_en_passant
  unmake_en_passant-Returns plays on =
      let from = from_of m in
      let to = to_of m in
      let victim = behind to q.side in
      let done = after_en_passant b from to victim in
      let own = make_piece-lt q.side pawn us (omega arith) in
      let theirs = make_piece-lt (opposite q.side) pawn (opposite-lt q.side us) (omega arith) in
      let pawns = pawns_apart q.side us in
      let apart : from ≢ to = λ e. ground (arith, ap b e, plays.mover, plays.empty, own) in
      let v : victim ≢ from = λ e. pawns (sym plays.mover ∙ sym (ap b e) ∙ plays.victim) in
      let w : victim ≢ to = λ e. ground (arith, ap b e, plays.victim, plays.empty, theirs) in
      let b1 = update (update done to no_piece) from (b from) in
      let there : done to ≡ b from = ground arith in
      Returns-board z q _ _ b
        (ap (update b1 victim) (sym plays.victim)
          ∙ en_passant_undone b from to apart victim v w plays.empty)
        (Returns-bind z q _ _ b1 _
          (Returns-board z q _ _ b1 (ap (update (update done to no_piece) from) there) (
            move_on z q c done on to from (ground arith) (ground arith) (to_of-lt m)
              (from_of-lt m)))
          λ r d.
            put_on z r d.consistent b1 d.placed (make_piece (opposite q.side) pawn) victim
              (ground arith) theirs plays.on_board)

  unmake_castling-Returns :
      Castles b q.side m
      → q.board
        ≡ after_castling b
            (from_of m)
            (to_of m)
            (king_goal q.side m)
            (rook_goal q.side m)
            (make_piece q.side king)
            (make_piece q.side rook)
      → Returns z q (unmake_castling z q m) b
  unfolding unmake_castling
  unmake_castling-Returns plays on =
      let from = from_of m in
      let to = to_of m in
      let k = king_goal q.side m in
      let r = rook_goal q.side m in
      let kp = make_piece q.side king in
      let rp = make_piece q.side rook in
      let kr = make_piece-lt q.side king us (omega arith) in
      let rr = make_piece-lt q.side rook us (omega arith) in
      let ne = king-ne-rook q.side us in
      let goals = goals_apart q.side m in
      let apart = castlers_apart b from to k r kp rp ne goals plays.mover plays.partner in
      let done = after_castling b from to k r kp rp in
      let b1 = update done k no_piece in
      let b2 = update b1 r no_piece in
      let b3 = update b2 from kp in
      let clear = origin_clear b from to k r kp rp ne goals in
      Returns-board z q _ _ b
        (castling_undone b from to apart k r kp rp goals plays.mover plays.partner plays.king_free
          plays.rook_free)
        (Returns-bind z q _ _ b1 _
          (remove_on z q c done on k (rw (castled_king b from to k r kp rp ne goals kr) kr)
            (king_goal-lt q.side m))
          λ q1 d1.
            Returns-bind z q1 _ _ b2 _
              (remove_on z q1 d1.consistent b1 d1.placed r
                (rw (castled_rook b from to k r kp rp ne goals) rr) (rook_goal-lt q.side m))
              λ q2 d2.
                Returns-bind z q2 _ _ b3 _
                  (put_on z q2 d2.consistent b2 d2.placed kp from (clear from (inl refl)) kr
                    (from_of-lt m))
                  λ q3 d3.
                    put_on z q3 d3.consistent b3 d3.placed rp to
                      (ground (arith, clear to (inr refl))) rr (to_of-lt m))

  -- The `switch`, on what the move had captured.
  unmake_switch-Returns :
      (p : Position) (captured : ℕ)
      → p.board ≡ b
      → captured ≡ captured_by (record p { side = q.side }) m
      → (plays : PlayableOn b q.side m) → q.board ≡ board_after plays
      → Returns z q (unmake_by_kind z q m captured) b
  unfolding unmake_by_kind captured_by
  unmake_switch-Returns p captured e taken (normal h) on =
      let lifted : captured ≡ b (to_of m) = rw (taken, h.kind, ← e) refl in
      rw (h.kind, lifted) (unmake_normal-Returns h on)
  unmake_switch-Returns p captured e taken (promotion h) on =
      let lifted : captured ≡ b (to_of m) = rw (taken, h.kind, ← e) refl in
      rw (h.kind, lifted) (unmake_promotion-Returns h on)
  unmake_switch-Returns p captured e taken (en_passant h) on =
      rw h.kind (unmake_en_passant-Returns h on)
  unmake_switch-Returns p captured e taken (castling h) on =
      rw h.kind (unmake_castling-Returns h on)

-- The same where the side is known to be the one that made the move.
pub unmake_by_kind-Returns :
    (z : Keys) (p q : Position) (m : ℕ) (plays : Playable p m)
    → Consistent p
    → Consistent q
    → p.side < 2
    → q.side ≡ p.side
    → q.board ≡ board_after plays
    → Returns z q (unmake_by_kind z q m (captured_by p m)) p.board
unmake_by_kind-Returns z p q m plays c d us side on =
    subst
      (λ s.
        s < 2
        → (plays : PlayableOn p.board s m) → q.board ≡ board_after plays
        → Returns z q (unmake_by_kind z q m (captured_by (record p { side = s }) m)) p.board)
      side (λ lt plays on. unmake_switch-Returns z q d p.board c.ranged m lt p _ refl refl plays on)
      us plays on

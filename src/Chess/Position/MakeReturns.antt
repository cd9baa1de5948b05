-- ===== src/Chess/Position/MakeReturns.antt =====
-- Each case of the `switch` of `MakeMove` returns on a playable move, with the board that the
-- move leads to.
use native.Mathlib.Omega.{arith}
use novachess.Prelude.{
  ℕ, zero, suc, ◌<◌, ◌==◌, ◌≡◌, ◌≢◌, refl, ◌∙◌, sym, ap, inl, inr, Bool-cases, ==_iff, update,
}
use novachess.Chess.Types.{
  no_piece, no_square, opposite, make_piece, color_of, type_of, pawn, king, rook,
}
use novachess.Chess.Move.{from_of, to_of, promotion_of}
use novachess.Chess.Move.Fields.{from_of-lt, to_of-lt, promotion_of-le}
use novachess.Chess.Attacks.{Magics}
use novachess.Chess.Zobrist.{Keys}
use novachess.Chess.Castling.{castling_index, castling_king_to, castling_rook_to}
use novachess.Chess.Position.{Position}
use novachess.Chess.Position.EnPassant.{behind}
use novachess.Chess.Position.Make.{
  reset_halfmove, make_normal, make_castling, make_en_passant, make_promotion, make_by_kind,
  captured_by,
}
use novachess.Chess.Position.Consistent.{Consistent, Did-refl, Did-board, Made-of-Did, Made-board}
use novachess.Chess.Position.Primitives.{
  Returns-bind, Makes, Makes-bind, Makes-of-Returns, put_on, remove_on, move_on,
}
use novachess.Chess.Position.MakeParts.{
  opposite-lt, reset-Did, lift_captured-Returns, clock_then_move, after_pawn_on,
}
use novachess.Chess.Position.Playable.{
  Playable, normal, promotion, en_passant, castling, board_after, PlaysNormal, Promotes,
  CapturesEnPassant, Castles, HasEnemyKing, king_goal, rook_goal,
}
use novachess.Chess.Position.Playable.Boards.{
  after_normal, after_en_passant, after_castling, partner_stays, king_goal_clear, rook_goal_clear,
  mover_stays, lifted_clear, goal_clear, king_survives, capturer_stays, ep_goal_clear,
}

pub make_piece-lt : (c pt : ℕ) → c < 2 → pt < 6 → make_piece c pt < 12
unfolding make_piece
make_piece-lt c pt h l = omega arith

pub king_goal-lt : (us m : ℕ) → king_goal us m < 64
unfolding castling_king_to
king_goal-lt us m = ground arith

pub rook_goal-lt : (us m : ℕ) → rook_goal us m < 64
unfolding castling_rook_to
rook_goal-lt us m = ground arith

pub goals_apart : (us m : ℕ) → king_goal us m ≢ rook_goal us m
unfolding castling_king_to castling_rook_to castling_index
goals_apart us m = ground arith

pub king-ne-rook : (c : ℕ) → c < 2 → make_piece c king ≢ make_piece c rook
unfolding make_piece
king-ne-rook c h = ground arith

-- The pawns of the two sides are different pieces.
pub pawns_apart : (c : ℕ) → c < 2 → make_piece c pawn ≢ make_piece (opposite c) pawn
unfolding make_piece opposite
pawns_apart zero h = λ e. absurd (omega arith)
pawns_apart (suc zero) h = λ e. absurd (omega arith)
pawns_apart (suc (suc c)) h = absurd (omega arith)

own-ne-their_king : (x us : ℕ) → us < 2 → color_of x ≡ us → x ≢ make_piece (opposite us) king
unfolding make_piece opposite color_of
own-ne-their_king x zero h own = λ e. absurd (omega arith)
own-ne-their_king x (suc zero) h own = λ e. absurd (omega arith)
own-ne-their_king x (suc (suc us)) h own = absurd (omega arith)

module _ (z : Keys) (g : Magics) (p : Position) (m : ℕ) (c : Consistent p) (us : p.side < 2) where
  make_castling-Makes :
      Castles p.board p.side m
      → Makes z p (make_castling z p m) (
          after_castling p.board
            (from_of m)
            (to_of m)
            (king_goal p.side m)
            (rook_goal p.side m)
            (make_piece p.side king)
            (make_piece p.side rook))
  unfolding make_castling
  make_castling-Makes plays =
      let from = from_of m in
      let to = to_of m in
      let f = from_of-lt m in
      let t = to_of-lt m in
      let b = p.board in
      let k = king_goal p.side m in
      let r = rook_goal p.side m in
      let kp = make_piece p.side king in
      let rp = make_piece p.side rook in
      let kr = make_piece-lt p.side king us (omega arith) in
      let rr = make_piece-lt p.side rook us (omega arith) in
      let ne = king-ne-rook p.side us in
      let apart = goals_apart p.side m in
      let b1 = update b from no_piece in
      let b2 = update b1 to no_piece in
      let b3 = update b2 k kp in
      Makes-of-Returns z p _ _ (
        Returns-bind z p _ _ b1 _ (remove_on z p c b refl from (rw plays.mover kr) f) λ q d.
          Returns-bind z q _ _ b2 _
            (remove_on z q d.consistent b1 d.placed to
              (partner_stays b from to k r kp rp ne apart plays.mover plays.partner rr) t)
            λ q1 d1.
              Returns-bind z q1 _ _ b3 _
                (put_on z q1 d1.consistent b2 d1.placed kp k
                  (king_goal_clear b from to k r kp rp ne apart plays.king_free) kr
                  (king_goal-lt p.side m))
                λ q2 d2.
                  put_on z q2 d2.consistent b3 d2.placed rp r
                    (rook_goal_clear b from to k r kp rp ne apart plays.rook_free) rr
                    (rook_goal-lt p.side m))

  make_en_passant-Makes :
      CapturesEnPassant p.board p.side m
      → Makes z p
          (make_en_passant z p m)
          (after_en_passant p.board (from_of m) (to_of m) (behind (to_of m) p.side))
  unfolding make_en_passant
  make_en_passant-Makes plays =
      let from = from_of m in
      let to = to_of m in
      let f = from_of-lt m in
      let t = to_of-lt m in
      let b = p.board in
      let victim = behind to p.side in
      let b1 = update b victim no_piece in
      let pawns = pawns_apart p.side us in
      let other : victim ≢ from = λ e. pawns (sym plays.mover ∙ sym (ap b e) ∙ plays.victim) in
      let own : b from < 12 = rw plays.mover (make_piece-lt p.side pawn us (omega arith)) in
      let theirs = make_piece-lt (opposite p.side) pawn (opposite-lt p.side us) (omega arith) in
      let stays = capturer_stays b from to victim other in
      Makes-of-Returns z p _ _ (
        Returns-bind z p _ _ b1 _
          (remove_on z p c b refl victim (rw plays.victim theirs) plays.on_board)
          λ q d.
            let b2 = update (update b1 from no_piece) to (b1 from) in
            Returns-bind z q _ _ b2 _
              (move_on z q d.consistent b1 d.placed from to (rw stays own)
                (ep_goal_clear b from to victim plays.empty) f t)
              λ r e. (
                reset_halfmove r,
                refl,
                Did-board z r _ _ _
                    (e.placed ∙ ap (λ v. update (update b1 from no_piece) to v) stays)
                    (reset-Did z r e.consistent),
              ))

  make_promotion-Makes :
      Promotes p.board p.side m
      → Makes z p
          (make_promotion z p m (p.board (to_of m)))
          (after_normal p.board (from_of m) (to_of m) (make_piece p.side (promotion_of m)))
  unfolding make_promotion
  make_promotion-Makes plays =
      let from = from_of m in
      let to = to_of m in
      let f = from_of-lt m in
      let t = to_of-lt m in
      let b = p.board in
      let b1 = update b to no_piece in
      let b2 = update b1 from no_piece in
      let pc = make_piece p.side (promotion_of m) in
      let real = make_piece-lt p.side (promotion_of m) us (omega (arith, promotion_of-le m)) in
      let own : b from < 12 = rw plays.mover (make_piece-lt p.side pawn us (omega arith)) in
      Makes-of-Returns z p _ _ (
        Returns-bind z p _ _ b1 _ (lift_captured-Returns z p c to t) λ q d.
          Returns-bind z q _ _ b2 _
            (remove_on z q d.consistent b1 d.placed from
              (rw (mover_stays b from to plays.apart) own) f)
            λ q1 d1.
              Returns-bind z q1 _ _ (update b2 to pc) _
                (put_on z q1 d1.consistent b2 d1.placed pc to (goal_clear b from to plays.apart)
                  real t)
                λ r e. (
                  reset_halfmove r,
                  refl,
                  Did-board z r _ _ _ e.placed (reset-Did z r e.consistent),
                ))

  make_normal-Makes :
      PlaysNormal p.board p.side m
      → p.ep_square ≡ no_square
      → HasEnemyKing p.board p.side
      → Makes z p
          (make_normal z g p m (p.board (to_of m)))
          (after_normal p.board (from_of m) (to_of m) (p.board (from_of m)))
  unfolding make_normal
  make_normal-Makes plays was (k, on_board, e) =
      let from = from_of m in
      let to = to_of m in
      let f = from_of-lt m in
      let t = to_of-lt m in
      let b = p.board in
      let b1 = update b to no_piece in
      let stays = mover_stays b from to plays.apart in
      let done = after_normal b from to (b from) in
      let their_king : done k ≡ make_piece (opposite p.side) king =
        king_survives b from to plays.apart k (b from) _ e plays.spares_king
          (own-ne-their_king (b from) p.side us plays.own) in
      Makes-bind z p _ _ b1 _ (lift_captured-Returns z p c to t) λ q d.
        Makes-bind z q _ _ (update (update b1 from no_piece) to (b1 from)) _
          (clock_then_move z q d.consistent b1 d.placed (b to == no_piece) from to
            (rw stays plays.real) (lifted_clear b from to plays.apart) f t)
          λ r d'.
            let on : r.board ≡ done =
              d'.placed ∙ ap (λ v. update (update b1 from no_piece) to v) stays in
            elim (Bool-cases (type_of (b from) == pawn)) [
              | inl is_pawn ↦ rw is_pawn (
                  after_pawn_on z g r m d'.consistent done on p.side
                    (ap (λ x. x.side) (d'.kept ∙ d.kept)) us (d'.ep_kept ∙ d.ep_kept ∙ was)
                    (k, on_board, their_king) (plays.forward ((==_iff _ _).0 is_pawn)))
              | inr other ↦ rw other (
                r,
                refl,
                Made-board z r r _ _ on (Made-of-Did z r r _ (Did-refl z r d'.consistent)),
              )
            ]

  -- The `switch`, on what the move captures.
  pub make_by_kind-Makes :
      (captured : ℕ) (plays : Playable p m)
      → captured ≡ captured_by p m
      → p.ep_square ≡ no_square
      → HasEnemyKing p.board p.side
      → Makes z p (make_by_kind z g p m captured) (board_after plays)
  unfolding make_by_kind captured_by
  make_by_kind-Makes captured (normal h) e was their_king =
      let taken : captured ≡ p.board (to_of m) = rw e (rw h.kind refl) in
      rw (h.kind, taken) (make_normal-Makes h was their_king)
  make_by_kind-Makes captured (promotion h) e was their_king =
      let taken : captured ≡ p.board (to_of m) = rw e (rw h.kind refl) in
      rw (h.kind, taken) (make_promotion-Makes h)
  make_by_kind-Makes captured (en_passant h) e was their_king = rw h.kind (make_en_passant-Makes h)
  make_by_kind-Makes captured (castling h) e was their_king = rw h.kind (make_castling-Makes h)

-- ===== src/Chess.antt =====
-- internal/chess: the board, the moves and the rules of chess.
pub mod Types
pub mod Bitboard
pub mod Move
pub mod Attacks
pub mod Castling
pub mod Zobrist
pub mod Position
pub mod Movegen
pub mod Notation
pub mod Rules
pub mod Fen
pub mod Examples

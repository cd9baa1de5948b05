-- ===== src/Lib.antt =====
-- Novachess, a chess engine with a distributed self-play pipeline: a verification library of its
-- core, internal/chess, of the search's hash table, of the matches between networks, and of the
-- services of the pipeline. The other packages stand on internal/chess: the search plays moves on a
-- position and takes them back, the hash table and the repetition rule trust the position's key, and
-- a match plays its games with it. In the pipeline the coordinator issues units of work, a worker
-- plays one and stores and announces its games, the coordinator counts what is announced and
-- recovers what is stored, and the dashboard notes what happens.
--
-- Chess/Types.antt is internal/chess/types.go, Chess/Move.antt is move.go, Chess/Bitboard.antt is
-- bitboard.go, Chess/Attacks.antt is attacks.go, Chess/Castling.antt is castling.go and
-- Chess/Zobrist.antt is zobrist.go, function by function under the source's names in snake_case; a
-- method `Square.File` is `file_of`. Chess/Position.antt is the state of position.go with putPiece,
-- removePiece, movePiece and computeKey; Position/Make.antt is MakeMove and MakeNullMove, a
-- definition for each case of the `switch` and for what precedes and follows it;
-- Position/Unmake.antt is UnmakeMove and UnmakeNullMove; Position/EnPassant.antt is enPassantLegal
-- of movegen.go with epCaptureAvailable and sanitize of position.go. Chess/Movegen.antt is
-- movegen.go, its parts in Movegen/Attackers (with AttackersTo of position.go), King, Pieces and
-- Pawns; a part returns the moves that it adds to the list. Chess/Rules.antt is rules.go, with
-- Shifted of bitboard.go, and Rules/Outcome.antt its Outcome. Chess/Castling/Setup.antt is
-- setCastlingRight and findCastlingRook; Chess/Notation.antt is Move.String, MoveToUCI,
-- ParseUCIMove and castlingFEN. The other modules under these hold what is proved, and Examples the
-- inputs that the theorems are applied to. Prelude has the Boolean tests, the laws of the bitwise
-- operations on the native numbers, and the integers.
--
-- Search/Entry.antt, Search/Table.antt and Search/Mate.antt are the transposition table of
-- internal/search/tt.go: the packed word and its lockless read, the table with Probe, Store, NewTT
-- and Hashfull, and the adjustment of mate scores (with the constants of internal/eval/eval.go).
--
-- Chess/Fen.antt is parseFEN, parseCastlingField and validate of position.go, its parts in the order
-- in which they read the fields of a text, and Fen/Printing.antt is FEN.
--
-- Gate is internal/gate. Gate/Match.antt is the games of match.go: the settings, the openings with
-- their random moves, playGame, playPair and RunMatch's tally, on the chess model above;
-- Gate/Runner.antt is runPairs, its goroutines as the steps of a relation; Gate/Report.antt is fold
-- and the report of gate.go. A searcher is a state and a function, and the sequential test a
-- function.
--
-- Pipeline holds the services around the engine. Pipeline/Events.antt is internal/events/events.go,
-- Pipeline/Store.antt is internal/store/store.go, Pipeline/Framing.antt the framing of a data file in
-- internal/train/format.go. Pipeline/Coordinator.antt is internal/coordinator/coordinator.go: its
-- state and handleBatch, in the two sections that it runs under the lock; Coordinator/Naming is unit
-- and unitIndex, Coordinator/Issue is topUp, Coordinator/Resume is resume, Coordinator/Loop is
-- RunGeneration, and Coordinator/Interleaving the goroutines of them all, as a relation whose steps
-- are the locked sections. Pipeline/Worker.antt is internal/worker/worker.go, a worker's handling of
-- a unit, whose artifact and message are those that the coordinator reads. The bus and the context
-- are what they answer in each round; the store is what its files hold, and the hash is an argument,
-- as is the decoder of a message's payload. A text is a list of bytes, in Prelude/Text.antt.
--
-- Dashboard/History.antt is internal/dashboard/history.go, the records with the bytes of their file,
-- and Dashboard/Watch.antt WatchEvents of eventswatch.go, which notes what the pipeline announces.
--
-- The numbers are the native ℕ. A `uint8`, `uint16` or `uint64` wraps where the source's operation
-- can leave its range, with the remainder written out; the sums of positions and games
-- wrap as an `int` of 64 bits does; the halfmove clock and the move number are `int` in the source
-- and unbounded integers here. The fixed arrays of a position are functions of
-- the index, and an index that the source's arrays do not have is `none`, a panic, as is a call of
-- `panic`. MakeMove and UnmakeMove change one position in place, and its history is a list whose
-- newest entry is the first: each is a function from the position before to the position after. The
-- random keys and the magic tables, which the package fills at startup, are arguments (`Keys` and
-- `Magics`), so what is proved holds for any that they may hold; the search for magic numbers is
-- not modelled.
--
-- A move is `Playable` when the position shows what the kind of move needs: its origin holds a
-- piece of the mover, it captures no king, a castling king and rook stand on the squares that the
-- move names with their goals free, and so on. A position is `Valid` when both families of
-- bitboards index the mailbox, the key is the one computed from scratch, and the side and the
-- castling rights are in range.
--
-- A loop that pops a bitboard takes at most 64 rounds, one for each bit, which is proved enough; a
-- ray of a slider is cut off after eight steps and leaves the board within seven. The loop of NewTT
-- doubles its count at most 62 times, which is proved enough below 2 ^ 40 megabytes, and the flood
-- fill of a king's squares takes at most 66 rounds, which is proved enough.
--
-- topUp's loop has one round for each unit that is needed and for each covered index ahead, which is
-- proved enough; a number has at most one digit more than its value. A game of a match has one round
-- for each ply up to the cap of its settings.
--
-- Not modelled: the UCI protocol and the Lichess bot, which are text protocols over standard input
-- and HTTP; the search itself; the file store, NATS and the Kubernetes client, which are the
-- operating system's and third parties' work; the dashboard's server and boards; heartbeats;
-- training, the networks and the formulas of the sequential test, which are floating point.
pub mod Prelude
pub mod Chess
pub mod Dashboard
pub mod Gate
pub mod Pipeline
pub mod Search

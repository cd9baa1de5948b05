-- ===== src/Chess/Fen.antt =====
-- Positions as FEN text: parseFEN with parseCastlingField and validate, and FEN, of
-- internal/chess/position.go. A text is a list of bytes.
pub mod Board
pub mod Rights
pub mod Checked
pub mod Parsed
pub mod Printing
pub mod Examples
use novachess.Prelude.{
  ℕ, zero, suc, ◌+◌, ◌-◌, ◌*◌, bit_and, bit_or, Bool, true, false, not, ◌&&◌, ◌||◌, Option, none,
  some, List, [], ◌∷◌, ◌++◌, ltb, leb, ◌==◌, ◌≡◌, refl, if◌then◌else◌, update,
}
use novachess.Prelude.Int.{ℤ, pos}
use novachess.Prelude.Text.{Text, codes, ◌==*◌, atoi, decimal, print_int}
use novachess.Chess.Types.{
  white, black, pawn, rook, king, no_piece, no_square, no_castling, all_castling, piece_chars,
  opposite, make_piece, make_square, file_of, rank_of, square_string, parse_square,
}
use novachess.Chess.Bitboard.{count}
use novachess.Chess.Attacks.{Magics}
use novachess.Chess.Castling.{castling_index}
use novachess.Chess.Castling.Setup.{set_castling_right, find_castling_rook}
use novachess.Chess.Zobrist.{Keys}
use novachess.Chess.Position.{Position, put_piece, pieces_of, king_square, compute_key}
use novachess.Chess.Position.EnPassant.{sanitize}
use novachess.Chess.Movegen.Attackers.{is_attacked}
use novachess.Chess.Notation.{byte_at, castling_fen}

-- What a reader comes to: a result, an error, or a panic.
pub data Reading {ℓ} (A : Type ℓ) : Type ℓ where
  reads : A → Reading A
  refuses : Reading A
  panics : Reading A

infixl 5 ◌>>=◌
abbrev pub ◌>>=◌ {ℓ κ} : {A : Type ℓ} {B : Type κ} → Reading A → (A → Reading B) → Reading B
reads a >>= f = f a
refuses >>= f = refuses
panics >>= f = panics

abbrev pub or_panics {ℓ} : {A : Type ℓ} → Option A → Reading A
or_panics none = panics
or_panics (some a) = reads a

abbrev pub or_refuses {ℓ} : {A : Type ℓ} → Option A → Reading A
or_refuses none = refuses
or_refuses (some a) = reads a

pub >>=-eq-reads {ℓ κ} :
    {A : Type ℓ} {B : Type κ} (m : Reading A) (f : A → Reading B) {b : B}
    → (m >>= f) ≡ reads b
    → (a : A) × (m ≡ reads a) × (f a ≡ reads b)
>>=-eq-reads (reads a) f h = (a, refl, h)
>>=-eq-reads refuses f h = cc
>>=-eq-reads panics f h = cc

pub or_panics-eq-reads {ℓ} :
    {A : Type ℓ} (o : Option A) {a : A} → or_panics o ≡ reads a → o ≡ some a
or_panics-eq-reads none h = cc
or_panics-eq-reads (some x) h = cc

-- `strings.IndexByte`.
abbrev pub index_byte : List ℕ → ℕ → Option ℕ
index_byte [] b = none
index_byte (c ∷ cs) b =
    let rest = index_byte cs b in
    if c == b then some 0 else elim rest [ none ↦ none | some i ↦ some (suc i) ]

-- `strings.Split(s, "/")`, the newest part being gathered in `part`.
unfoldable pub split_slashes : Text → Text → List Text
split_slashes [] part = part ∷ []
split_slashes (c ∷ cs) part =
    if c == b'/' then part ∷ split_slashes cs [] else split_slashes cs (part ++ c ∷ [])

abbrev pub is_space : ℕ → Bool
is_space c = c == 0x20 || (leb 0x09 c && leb c 0x0d)

-- A part that is empty is none.
abbrev pub with_part : Text → List Text → List Text
with_part [] rest = rest
with_part (c ∷ cs) rest = (c ∷ cs) ∷ rest

-- The white space of `unicode.IsSpace` that takes two or three bytes of UTF-8. The first byte of
-- each is never inside another character, whether or not the text is valid.
abbrev pub is_space_2 : ℕ → ℕ → Bool
is_space_2 a b = a == 0xc2 && (b == 0x85 || b == 0xa0)

abbrev pub is_space_3 : ℕ → ℕ → ℕ → Bool
is_space_3 a b c =
    (a == 0xe1 && b == 0x9a && c == 0x80)
    || (a == 0xe2 && b == 0x80 && (leb 0x80 c && leb c 0x8a || c == 0xa8 || c == 0xa9 || c == 0xaf))
    || (a == 0xe2 && b == 0x81 && c == 0x9f)
    || (a == 0xe3 && b == 0x80 && c == 0x80)

-- The number of bytes of the white space that a text starts with, 0 when there is none.
unfoldable pub space_width : Text → ℕ
space_width [] = 0
space_width (a ∷ []) = if is_space a then 1 else 0
space_width (a ∷ b ∷ []) = if is_space a then 1 else if is_space_2 a b then 2 else 0
space_width (a ∷ b ∷ c ∷ cs) =
    if is_space a then 1 else if is_space_2 a b then 2 else if is_space_3 a b c then 3 else 0

-- With the bytes of a white space that are left to pass over.
unfoldable pub fields_from : ℕ → Text → Text → List Text
unfolding space_width
fields_from skip [] part = with_part part []
fields_from (suc n) (c ∷ cs) part = fields_from n cs part
fields_from zero (c ∷ cs) part = elim (space_width (c ∷ cs)) [
  | zero ↦ fields_from 0 cs (part ++ c ∷ [])
  | suc n ↦ with_part part (fields_from n cs [])
]

-- `strings.Fields`.
unfoldable pub fields : Text → List Text
unfolding fields_from
fields s = fields_from 0 s []

unfoldable pub empty_position : Position
empty_position = record {
  by_type = λ t. 0;
  by_color = λ c. 0;
  board = λ s. no_piece;
  side = white;
  castling = no_castling;
  ep_square = no_square;
  halfmove = pos 0;
  fullmove = pos 1;
  key = 0;
  chess960 = false;
  castling_rook = λ i. no_square;
  castling_path = λ i. 0;
  cr_mask = λ s. all_castling;
  history = [];
}

-- One rank of the board field, from `file` on.
unfoldable pub read_row : Keys → Position → ℕ → ℕ → Text → Reading Position
unfolding put_piece make_square
read_row z p rank file [] = if file == 8 then reads p else refuses
read_row z p rank file (ch ∷ row) =
    let skip = read_row z p rank (file + (ch - b'0')) row in
    let place : Reading Position = or_refuses (index_byte piece_chars ch) >>= λ idx.
    if ltb 7 file
    then refuses
    else or_panics (put_piece z p idx (make_square file rank)) >>= λ q.
        read_row z q rank (file + 1) row in
    if leb b'1' ch && leb ch b'8' then skip else place

-- The ranks from `above - 1` down; there are as many as `above` when it is 8 and the test passes.
unfoldable pub read_rows : Keys → Position → ℕ → List Text → Reading Position
unfolding read_row
read_rows z p above [] = if above == 0 then reads p else refuses
read_rows z p zero (row ∷ rows) = refuses
read_rows z p (suc rank) (row ∷ rows) = read_row z p rank 0 row >>= λ q. read_rows z q rank rows

abbrev pub length {ℓ} : {A : Type ℓ} → List A → ℕ
length [] = 0
length (x ∷ xs) = suc (length xs)

unfoldable pub read_board : Keys → Position → Text → Reading Position
unfolding split_slashes read_rows
read_board z p field =
    let ranks = split_slashes field [] in
    if length ranks == 8 then read_rows z p 8 ranks else refuses

unfoldable pub read_side : Text → Reading ℕ
unfolding ◌==*◌
read_side field =
    if field ==* codes "w"
    then reads white
    else if field ==* codes "b"
    then reads black
    else refuses

unfoldable pub has_kings : Position → Bool
unfolding pieces_of count
has_kings p = count (pieces_of p white king) == 1 && count (pieces_of p black king) == 1

-- Without a rook to castle with, a right is dropped.
abbrev pub with_rook : Position → ℕ → Option ℕ → Reading Position
with_rook p idx none = reads p
with_rook p idx (some rook_from) = or_panics (set_castling_right p idx rook_from)

-- A right in the form KQkq.
unfoldable pub classical_right : Position → ℕ → Bool → Reading Position
unfolding find_castling_rook set_castling_right castling_index
classical_right p us king_side =
    with_rook p (castling_index us king_side) (find_castling_rook p us king_side)

-- A right that names the file of its rook.
unfoldable pub shredder_right : Position → ℕ → ℕ → ℕ → Reading Position
unfolding set_castling_right castling_index make_square king_square rank_of
shredder_right p us rank file =
    let rook_from = make_square file rank in
    let ksq = king_square p us in
    if not (p.board rook_from == make_piece us rook)
    then reads p
    else if not (rank_of ksq == rank)
    then reads p
    else or_panics (
        set_castling_right (record p { chess960 = true }) (castling_index us (ltb ksq rook_from))
          rook_from)

unfoldable pub read_right : Position → ℕ → Reading Position
unfolding classical_right shredder_right
read_right p ch =
    if ch == b'K' || ch == b'Q' || ch == b'k' || ch == b'q'
    then classical_right p (if ch == b'k' || ch == b'q' then black else white)
        (ch == b'K' || ch == b'k')
    else if leb b'A' ch && leb ch b'H'
    then shredder_right p white 0 (ch - b'A')
    else if leb b'a' ch && leb ch b'h'
    then shredder_right p black 7 (ch - b'a')
    else refuses

unfoldable pub read_rights : Position → Text → Reading Position
unfolding read_right
read_rights p [] = reads p
read_rights p (ch ∷ chs) = read_right p ch >>= λ q. read_rights q chs

unfoldable pub read_castling : Position → Text → Reading Position
unfolding read_rights ◌==*◌
read_castling p field = if field ==* codes "-" then reads p else read_rights p field

unfoldable pub read_ep : Text → Reading ℕ
unfolding parse_square ◌==*◌
read_ep field = if field ==* codes "-" then reads no_square else or_refuses (parse_square field)

-- A counter that may be left out.
unfoldable pub read_counter : ℤ → List Text → Reading ℤ
unfolding atoi
read_counter default [] = reads default
read_counter default (field ∷ rest) = or_refuses (atoi field)

abbrev pub tail : List Text → List Text
tail [] = []
tail (x ∷ xs) = xs

-- The masks of the first and the eighth rank.
abbrev pub back_ranks : ℕ
back_ranks = 0xFF000000000000FF

unfoldable pub validate : Magics → Position → Reading Position
unfolding has_kings
validate g p =
    if has_kings p
    then (or_panics (is_attacked g p (king_square p (opposite p.side)) p.side) >>= λ attacked.
        if attacked
        then refuses
        else if not (bit_and (p.by_type pawn) back_ranks == 0)
        then refuses
        else reads p)
    else refuses

-- The fields after the board, the side and the castling rights have been read.
unfoldable pub read_rest : Keys → Magics → Position → Text → List Text → Reading Position
unfolding read_ep read_counter validate sanitize compute_key
read_rest z g p ep counters = do
  ep_square ← read_ep ep
  halfmove ← read_counter (pos 0) counters
  fullmove ← read_counter (pos 1) (tail counters)
  q ← validate g (record p { ep_square = ep_square; halfmove = halfmove; fullmove = fullmove })
  r ← or_panics (sanitize g q)
  reads (record r { key = compute_key z r })

unfoldable pub read_fields : Keys → Magics → Bool → List Text → Reading Position
unfolding read_board read_side has_kings read_castling read_rest empty_position
read_fields z g chess960 (board ∷ side ∷ castling ∷ ep ∷ counters) = do
  p ← read_board z (record empty_position { chess960 = chess960 }) board
  us ← read_side side
  q ← (if has_kings p then read_castling (record p { side = us }) castling else refuses)
  read_rest z g q ep counters
read_fields z g chess960 few = refuses

unfoldable pub parse_fen : Keys → Magics → Bool → Text → Reading Position
unfolding fields read_fields
parse_fen z g chess960 fen = read_fields z g chess960 (fields fen)

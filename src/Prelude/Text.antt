-- ===== src/Prelude/Text.antt =====
-- Texts as lists of bytes: equality, decimal printing and reading as in Go's `strconv`, prefixes.
pub mod Decimal
pub mod Parts
use Prim.Native.Char.{code}
use Prim.Native.String.{String}
use Prim.Native.Nat.{ℕ, zero, suc, ◌+◌, ◌-◌, ◌*◌, ◌/◌, ◌%◌}
use mathlib.Core.Path.{◌≡◌, refl}
use mathlib.Core.Logic.{◌≢◌}
use mathlib.Core.Bool.{Bool, true, false, ◌&&◌}
use mathlib.Core.Option.{Option, none, some}
use mathlib.Core.List.{List, [], ◌∷◌, ◌++◌}
use native.Mathlib.Omega.{arith}
use novachess.Prelude.Tests.{ltb, leb, ◌==◌, if◌then◌else◌}
use novachess.Prelude.Int.{ℤ, pos, negsuc}

abbrev pub Text : Type 0
Text = List ℕ

-- The bytes of an ASCII literal.
abbrev pub codes : String → Text
codes String.[] = []
codes (String.◌∷◌ c s) = code c ∷ codes s

infix 50 ◌==*◌
unfoldable pub ◌==*◌ : Text → Text → Bool
[] ==* [] = true
[] ==* (d ∷ ds) = false
(c ∷ cs) ==* [] = false
(c ∷ cs) ==* (d ∷ ds) = c == d && cs ==* ds

pub ==*-refl : (s : Text) → (s ==* s) ≡ true
unfolding ◌==*◌
==*-refl [] = refl
==*-refl (c ∷ cs) = ground (arith, ==*-refl cs)

pub ==*-sound : (s t : Text) → (s ==* t) ≡ true → s ≡ t
unfolding ◌==*◌
==*-sound [] [] h = refl
==*-sound [] (d ∷ ds) h = cc
==*-sound (c ∷ cs) [] h = cc
==*-sound (c ∷ cs) (d ∷ ds) h =
    let head : c ≡ d = ground arith in
    let tail = ==*-sound cs ds (ground arith) in rw (head, tail) refl

-- The rest of a text after a prefix, as in `strings.CutPrefix`.
unfoldable pub cut_prefix : Text → Text → Option Text
cut_prefix s [] = some s
cut_prefix [] (d ∷ ds) = none
cut_prefix (c ∷ cs) (d ∷ ds) = if c == d then cut_prefix cs ds else none

pub cut_prefix-append : (p s : Text) → cut_prefix (p ++ s) p ≡ some s
unfolding cut_prefix
cut_prefix-append [] s = refl
cut_prefix-append (c ∷ cs) s = ground (arith, cut_prefix-append cs s)

pub cut_prefix_sound : (s p : Text) {r : Text} → cut_prefix s p ≡ some r → s ≡ p ++ r
unfolding cut_prefix
cut_prefix_sound s [] h = cc
cut_prefix_sound [] (d ∷ ds) h = cc
cut_prefix_sound (c ∷ cs) (d ∷ ds) h =
    let head : c ≡ d = ground arith in
    let tail = cut_prefix_sound cs ds (ground arith) in rw (head, tail) refl

-- The rest of a text before a suffix, as in `strings.CutSuffix`.
unfoldable pub cut_suffix : Text → Text → Option Text
unfolding ◌==*◌
cut_suffix [] e = if [] ==* e then some [] else none
cut_suffix (c ∷ cs) e =
    let rest = cut_suffix cs e in
    if (c ∷ cs) ==* e then some [] else elim rest [ none ↦ none | some r ↦ some (c ∷ r) ]

-- `decimal` fills the buffer from its end, as `strconv` does; `fuel` bounds the digits.
unfoldable pub decimal_onto : ℕ → ℕ → Text → Text
decimal_onto zero n out = out
decimal_onto (suc fuel) n out =
    let more = decimal_onto fuel (n / 10) ((b'0' + n % 10) ∷ out) in
    if ltb n 10 then (b'0' + n % 10) ∷ out else more

unfoldable pub decimal : ℕ → Text
unfolding decimal_onto
decimal n = decimal_onto (suc n) n []

unfoldable pub print_int : ℤ → Text
unfolding decimal
print_int (pos n) = decimal n
print_int (negsuc n) = b'-' ∷ decimal (suc n)

-- The number that digits spell behind `n`.
unfoldable pub scan_digits : Text → ℕ → Option ℕ
scan_digits [] n = some n
scan_digits (c ∷ cs) n =
    if leb b'0' c && leb c b'9' then scan_digits cs (n * 10 + (c - b'0')) else none

unfoldable pub max_int : ℕ
max_int = 9223372036854775807

-- `strconv.Atoi`: a sign, then digits, within the range of a 64-bit `int`.
signed : Bool → Option ℕ → Option ℤ
signed negative none = none
signed true (some zero) = some (pos 0)
signed true (some (suc n)) = if leb n max_int then some (negsuc n) else none
signed false (some n) = if leb n max_int then some (pos n) else none

unsigned : Text → Option ℕ
unsigned [] = none
unsigned (c ∷ cs) = scan_digits (c ∷ cs) 0

unfoldable pub atoi : Text → Option ℤ
unfolding signed unsigned scan_digits max_int
atoi [] = none
atoi (c ∷ cs) =
    if c == b'-'
    then signed true (unsigned cs)
    else if c == b'+'
    then signed false (unsigned cs)
    else signed false (unsigned (c ∷ cs))

-- The text without the slashes at its end.
unfoldable pub strip_slashes : Text → Text
strip_slashes [] = []
strip_slashes (c ∷ cs) = elim (strip_slashes cs) [
  | [] ↦ (if c == b'/' then [] else c ∷ [])
  | d ∷ ds ↦ c ∷ d ∷ ds
]

-- The text after the last `/`, behind `name`.
unfoldable pub base_onto : Text → Text → Text
base_onto [] name = name
base_onto (c ∷ cs) name = base_onto cs (if c == b'/' then [] else name ++ c ∷ [])

-- `path.Base`, except that it is empty where that gives `.` or `/`.
unfoldable pub base : Text → Text
unfolding strip_slashes base_onto
base uri = base_onto (strip_slashes uri) []

abbrev pub Lacks : ℕ → Text → Type 0
Lacks b [] = Unit
Lacks b (c ∷ cs) = (c ≢ b) × Lacks b cs

-- ===== src/Prelude/Text/Decimal.antt =====
-- A printed number is read back, padded with zeros or not.
use native.Mathlib.Omega.{arith}
use mathlib.Core.Path.{◌≡◌, refl}
use mathlib.Core.Logic.{◌≢◌}
use mathlib.Core.Bool.{Bool, true, false}
use mathlib.Core.Option.{Option, none, some}
use mathlib.Core.List.{[], ◌∷◌}
use Prim.Native.Nat.{ℕ, zero, suc, ◌+◌, ◌/◌, ◌%◌, ◌≤◌, ◌<◌}
use novachess.Prelude.Tests.{◌==◌}
use novachess.Prelude.Int.{pos}
use novachess.Prelude.Text.{
  Text, decimal_onto, decimal, scan_digits, atoi, max_int, signed, unsigned,
}

abbrev pub IsDigits : Text → Type 0
IsDigits [] = Unit
IsDigits (c ∷ cs) = (b'0' ≤ c) × (c ≤ b'9') × IsDigits cs

decimal_onto-IsDigits :
    (fuel n : ℕ) (out : Text) → IsDigits out → IsDigits (decimal_onto fuel n out)
unfolding decimal_onto
decimal_onto-IsDigits zero n out h = h
decimal_onto-IsDigits (suc fuel) n out h =
    ground (arith, decimal_onto-IsDigits fuel (n / 10) ((b'0' + n % 10) ∷ out))

scan-decimal_onto :
    (fuel n : ℕ) (out : Text)
    → n < fuel
    → scan_digits (decimal_onto fuel n out) 0 ≡ scan_digits out n
unfolding decimal_onto scan_digits
scan-decimal_onto zero n out h = absurd (omega arith)
scan-decimal_onto (suc fuel) n out h =
    ground (arith, scan-decimal_onto fuel (n / 10) ((b'0' + n % 10) ∷ out))

decimal_onto-ne-nil : (fuel n : ℕ) (out : Text) → out ≢ [] → decimal_onto fuel n out ≢ []
unfolding decimal_onto
decimal_onto-ne-nil zero n out h = h
decimal_onto-ne-nil (suc fuel) n out h =
    let more : decimal_onto fuel (n / 10) ((b'0' + n % 10) ∷ out) ≢ [] =
      decimal_onto-ne-nil fuel (n / 10) ((b'0' + n % 10) ∷ out) (λ e. cc) in
    λ e. ground arith

pub decimal-IsDigits : (n : ℕ) → IsDigits (decimal n)
unfolding decimal
decimal-IsDigits n = decimal_onto-IsDigits (suc n) n [] tt

pub scan-decimal : (n : ℕ) → scan_digits (decimal n) 0 ≡ some n
unfolding decimal scan_digits
scan-decimal n = scan-decimal_onto (suc n) n [] (omega arith)

pub decimal-ne-nil : (n : ℕ) → decimal n ≢ []
unfolding decimal decimal_onto
decimal-ne-nil n =
    let more : decimal_onto n (n / 10) ((b'0' + n % 10) ∷ []) ≢ [] =
      decimal_onto-ne-nil n (n / 10) ((b'0' + n % 10) ∷ []) (λ e. cc) in
    λ e. ground arith

-- A text of digits is read as the number that it spells.
pub atoi-digits :
    (s : Text) (n : ℕ)
    → IsDigits s
    → s ≢ []
    → scan_digits s 0 ≡ some n
    → n ≤ max_int
    → atoi s ≡ some (pos n)
unfolding atoi max_int
atoi-digits [] n d h e fits = absurd (h refl)
atoi-digits (c ∷ cs) n d h e fits =
    let no_sign : (c == b'-') ≡ false = ground arith in
    let no_plus : (c == b'+') ≡ false = ground arith in rw (no_sign, no_plus) (rw e (ground arith))

signed-le :
    (negative : Bool) (m : Option ℕ) (n : ℕ) → signed negative m ≡ some (pos n) → n ≤ max_int
unfolding signed
signed-le negative none n h = ground arith
signed-le true (some zero) n h = ground arith
signed-le true (some (suc m)) n h = ground arith
signed-le false (some m) n h = ground arith

pub atoi-le : (s : Text) (n : ℕ) → atoi s ≡ some (pos n) → n ≤ max_int
unfolding atoi
atoi-le [] n h = cc
atoi-le (c ∷ cs) n h = ground (
  arith,
  signed-le true (unsigned cs) n,
  signed-le false (unsigned cs) n,
  signed-le false (unsigned (c ∷ cs)) n,
)

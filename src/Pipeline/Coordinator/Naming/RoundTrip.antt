-- ===== src/Pipeline/Coordinator/Naming/RoundTrip.antt =====
-- The names of units and of their artifacts are read back.
use native.Mathlib.Omega.{arith}
use novachess.Prelude.{
  ℕ, zero, suc, ◌-◌, ◌≤◌, some, [], ◌∷◌, ◌++◌, ◌≡◌, ◌≢◌, refl, sym, ap, ◌∙◌, >>=-eq-some,
}
use mathlib.Core.List.{append_assoc}
use novachess.Prelude.Int.{ℤ, pos, negsuc}
use novachess.Prelude.Text.{
  Text, codes, ==*-refl, ==*-sound, cut_prefix, cut_prefix-append, cut_prefix_sound, cut_suffix,
  decimal, print_int, scan_digits, atoi, max_int, base, Lacks,
}
use novachess.Prelude.Text.Decimal.{
  IsDigits, decimal-IsDigits, scan-decimal, decimal-ne-nil, atoi-digits, atoi-le,
}
use novachess.Prelude.Text.Parts.{cut_suffix-append, cut_suffix_sound, base-append, Lacks-append}
use novachess.Pipeline.Store.{length}
use novachess.Pipeline.Framing.{file_extension}
use novachess.Pipeline.Coordinator.Naming.{
  zeros, padded, unit_prefix, unit_id, read_index, unit_index,
}

zeros-IsDigits : (k : ℕ) (s : Text) → IsDigits s → IsDigits (zeros k ++ s)
zeros-IsDigits zero s h = h
zeros-IsDigits (suc k) s h = (omega arith, omega arith, zeros-IsDigits k s h)

scan-zeros : (k : ℕ) (s : Text) → scan_digits (zeros k ++ s) 0 ≡ scan_digits s 0
unfolding scan_digits
scan-zeros zero s = refl
scan-zeros (suc k) s = scan-zeros k s

zeros-ne-nil : (k : ℕ) (s : Text) → s ≢ [] → zeros k ++ s ≢ []
zeros-ne-nil zero s h = h
zeros-ne-nil (suc k) s h = λ e. cc

padded-IsDigits : (n : ℕ) → IsDigits (padded n)
unfolding padded
padded-IsDigits n = zeros-IsDigits (6 - length (decimal n)) (decimal n) (decimal-IsDigits n)

atoi-padded : (n : ℕ) → n ≤ max_int → atoi (padded n) ≡ some (pos n)
unfolding padded
atoi-padded n fits =
    let k = 6 - length (decimal n) in
    atoi-digits (zeros k ++ decimal n) n (zeros-IsDigits k (decimal n) (decimal-IsDigits n))
      (zeros-ne-nil k (decimal n) (decimal-ne-nil n)) (scan-zeros k (decimal n) ∙ scan-decimal n)
      fits

IsDigits-Lacks : (s : Text) → IsDigits s → Lacks b'/' s
IsDigits-Lacks [] h = tt
IsDigits-Lacks (c ∷ s) h = ((λ e. omega arith), IsDigits-Lacks s h.2)

print_int-Lacks : (g : ℤ) → Lacks b'/' (print_int g)
unfolding print_int
print_int-Lacks (pos n) = IsDigits-Lacks (decimal n) (decimal-IsDigits n)
print_int-Lacks (negsuc n) =
    ((λ e. omega arith), IsDigits-Lacks (decimal (suc n)) (decimal-IsDigits (suc n)))

-- The name of an artifact of unit `i`, after the `g`.
abbrev tail_of : ℤ → ℕ → Text
tail_of g i = (print_int g ++ codes "-u") ++ (padded i ++ file_extension)

tail_of-Lacks : (g : ℤ) (i : ℕ) → Lacks b'/' (b'g' ∷ tail_of g i)
tail_of-Lacks g i =
    let front = Lacks-append b'/' (print_int g) (codes "-u") (print_int-Lacks g) (omega arith) in
    let back =
      Lacks-append b'/' (padded i) file_extension (IsDigits-Lacks (padded i) (padded-IsDigits i))
        (omega arith) in
    (
      omega arith,
      Lacks-append b'/' (print_int g ++ codes "-u") (padded i ++ file_extension) front back,
    )

cut_prefix_of_unit_id : (g : ℤ) (i : ℕ) → cut_prefix (unit_id g i) (unit_prefix g) ≡ some (padded i)
unfolding unit_id
cut_prefix_of_unit_id g i = cut_prefix-append (unit_prefix g) (padded i)

name_parts : (g : ℤ) (i : ℕ) → unit_id g i ++ file_extension ≡ b'g' ∷ tail_of g i
unfolding unit_id unit_prefix
name_parts g i = append_assoc (b'g' ∷ print_int g ++ codes "-u") (padded i) file_extension

read_index-padded : (i : ℕ) → read_index (padded i) (pos i) ≡ some i
unfolding read_index
read_index-padded i = rw (==*-refl (padded i)) refl

-- The artifact of a unit, in whatever directory it stands, is read as the artifact of that unit.
pub unit_index-unit_id :
    (g : ℤ) (i : ℕ) (dir : Text)
    → i ≤ max_int
    → unit_index g (dir ++ b'/' ∷ (unit_id g i ++ file_extension)) ≡ some i
unfolding unit_index
unit_index-unit_id g i dir fits =
    let name : base (dir ++ b'/' ∷ (unit_id g i ++ file_extension))
        ≡ unit_id g i ++ file_extension =
      ap (λ t. base (dir ++ b'/' ∷ t)) (name_parts g i)
      ∙ base-append dir b'g' (tail_of g i) (tail_of-Lacks g i)
      ∙ sym (name_parts g i) in
    let digits : cut_prefix (unit_id g i) (unit_prefix g) ≡ some (padded i) =
      cut_prefix_of_unit_id g i in
    rw (name, cut_suffix-append (unit_id g i) file_extension, digits, atoi-padded i fits)
      (read_index-padded i)

read_index_sound :
    (digits : Text) (z : ℤ) (i : ℕ) → read_index digits z ≡ some i → padded i ≡ digits
unfolding read_index
read_index_sound digits (negsuc n) i h = cc
read_index_sound digits (pos n) i h = ground (arith, ==*-sound (padded n) digits)

-- What is read as the artifact of unit `i` bears exactly that unit's name.
pub unit_index_sound :
    (g : ℤ) (uri : Text) (i : ℕ)
    → unit_index g uri ≡ some i
    → base uri ≡ unit_id g i ++ file_extension
unfolding unit_index unit_id
unit_index_sound g uri i h =
    let (name, e1, h1) = >>=-eq-some (cut_suffix (base uri) file_extension) _ h in
    let (digits, e2, h2) = >>=-eq-some (cut_prefix name (unit_prefix g)) _ h1 in
    let (z, e3, h3) = >>=-eq-some (atoi digits) (read_index digits) h2 in
    cut_suffix_sound (base uri) file_extension name e1
    ∙ ap (λ t. t ++ file_extension)
        (cut_prefix_sound name (unit_prefix g) e2
          ∙ ap (λ t. unit_prefix g ++ t) (sym (read_index_sound digits z i h3)))

-- Units of one generation with different indices have different names.
pub unit_id-injective :
    (g : ℤ) (i j : ℕ) → i ≤ max_int → j ≤ max_int → unit_id g i ≡ unit_id g j → i ≡ j
unit_id-injective g i j hi hj e = same (
    sym (unit_index-unit_id g i [] hi)
    ∙ ap (λ t. unit_index g (b'/' ∷ (t ++ file_extension))) e
    ∙ unit_index-unit_id g j [] hj)
  where
    same : {i j : ℕ} → some i ≡ some j → i ≡ j
    same e = cc

read_index-pos : (digits : Text) (z : ℤ) (i : ℕ) → read_index digits z ≡ some i → z ≡ pos i
unfolding read_index
read_index-pos digits (negsuc n) i h = cc
read_index-pos digits (pos n) i h = ground arith

-- An index that is read fits an `int`.
pub unit_index-le : (g : ℤ) (uri : Text) (i : ℕ) → unit_index g uri ≡ some i → i ≤ max_int
unfolding unit_index
unit_index-le g uri i h =
    let (name, e1, h1) = >>=-eq-some (cut_suffix (base uri) file_extension) _ h in
    let (digits, e2, h2) = >>=-eq-some (cut_prefix name (unit_prefix g)) _ h1 in
    let (z, e3, h3) = >>=-eq-some (atoi digits) (read_index digits) h2 in
    atoi-le digits i (e3 ∙ ap some (read_index-pos digits z i h3))

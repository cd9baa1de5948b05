-- ===== src/Pipeline/Framing.antt =====
-- The framing of a data file, of internal/train/format.go: the header that NewWriter writes and
-- NewReader checks, and Count, which divides what follows into records.
use novachess.Prelude.{
  ℕ, zero, suc, ◌+◌, ◌*◌, ◌/◌, ◌%◌, ◌^◌, Option, none, some, List, [], ◌∷◌, ◌++◌, ltb, ◌==◌,
  if◌then◌else◌,
}
use novachess.Prelude.Text.{Text, codes, ◌==*◌}
use novachess.Pipeline.Store.{length}

abbrev pub magic : Text
magic = codes "NOVADATA"

abbrev pub format_version : ℕ
format_version = 1

abbrev pub record_size : ℕ
record_size = 32

abbrev pub file_extension : Text
file_extension = codes ".novadata"

-- `binary.LittleEndian.PutUint32` and `Uint32`.
abbrev pub put_uint32 : ℕ → Text
put_uint32 n = (n % 256) ∷ (n / 2 ^ 8 % 256) ∷ (n / 2 ^ 16 % 256) ∷ (n / 2 ^ 24 % 256) ∷ []

unfoldable pub uint32 : Text → ℕ
uint32 (a ∷ b ∷ c ∷ d ∷ rest) = a + b * 2 ^ 8 + c * 2 ^ 16 + d * 2 ^ 24
uint32 short = 0

abbrev pub header : Text
header = magic ++ put_uint32 format_version ++ put_uint32 record_size

abbrev pub take {ℓ} : {A : Type ℓ} → ℕ → List A → List A
take zero xs = []
take (suc n) [] = []
take (suc n) (x ∷ xs) = x ∷ take n xs

abbrev pub drop {ℓ} : {A : Type ℓ} → ℕ → List A → List A
drop zero xs = xs
drop (suc n) [] = []
drop (suc n) (x ∷ xs) = drop n xs

-- What is left to read after a good header.
unfoldable pub new_reader : Text → Option Text
unfolding ◌==*◌ uint32
new_reader bytes =
    if ltb (length bytes) 16
    then none
    else if take 8 bytes ==* magic
    then if uint32 (drop 8 bytes) == format_version
      then if uint32 (drop 12 bytes) == record_size then some (drop 16 bytes) else none
      else none
    else none

unfoldable pub count_records : Text → Option ℕ
count_records rest =
    if length rest % record_size == 0 then some (length rest / record_size) else none

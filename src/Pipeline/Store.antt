-- ===== src/Pipeline/Store.antt =====
-- internal/store/store.go: Verify and ValidateKey. A store is what its files answer: the contents of
-- an artifact, or an error, and the names under a prefix.
use novachess.Prelude.{
  ℕ, suc, Bool, false, not, ◌&&◌, ◌||◌, Option, none, some, List, [], ◌∷◌, ltb, ◌==◌, if◌then◌else◌,
}
use novachess.Prelude.Int.{ℤ, pos, ◌==ℤ◌}
use novachess.Prelude.Text.{Text, codes, ◌==*◌}

pub record Artifact : Type 0 where
  pub uri : Text
  pub size : ℤ
  pub checksum : Text

-- `none` is an error, of a missing artifact, a failed read or a context that ended.
pub record Store : Type 0 where
  pub get : Text → Option Text
  pub list : Text → Option (List Text)

abbrev pub length {ℓ} : {A : Type ℓ} → List A → ℕ
length [] = 0
length (x ∷ xs) = suc (length xs)

-- The hash, SHA-256 in hexadecimal, is an argument.
unfoldable pub verify : (Text → Text) → Store → Artifact → Bool
unfolding ◌==*◌
verify sum s want = elim (s.get want.uri) [
  | none ↦ false
  | some contents ↦ sum contents ==* want.checksum && pos (length contents) ==ℤ want.size
]

abbrev pub contains : ℕ → Text → Bool
contains b [] = false
contains b (c ∷ cs) = c == b || contains b cs

-- The elements of `strings.Split(key, "/")`, the newest in `element`, which is kept reversed.
unfoldable pub elements : Text → Text → List Text
elements [] element = element ∷ []
elements (c ∷ cs) element =
    if c == b'/' then element ∷ elements cs [] else elements cs (c ∷ element)

abbrev pub is_control : ℕ → Bool
is_control c = ltb c 0x20 || c == 0x7f

abbrev pub any {ℓ} : {A : Type ℓ} → (A → Bool) → List A → Bool
any p [] = false
any p (x ∷ xs) = p x || any p xs

-- An element that names nothing or moves about the tree; the reversal of `.` and `..` is itself.
unfoldable pub navigates : Text → Bool
unfolding ◌==*◌
navigates e = e ==* [] || e ==* codes "." || e ==* codes ".."

unfoldable pub starts_absolute : Text → Bool
starts_absolute [] = false
starts_absolute (c ∷ cs) = c == b'/'

-- A key is a list of bytes; the control characters that are refused are single bytes.
unfoldable pub validate_key : Text → Bool
unfolding elements navigates starts_absolute ◌==*◌
validate_key key = not (
    key ==* []
    || ltb 512 (length key)
    || starts_absolute key
    || contains 0x5c key
    || any navigates (elements key [])
    || any is_control key)

-- ===== src/Prelude/Text/Parts.antt =====
-- Cutting suffixes off and taking the last element of a path.
use native.Mathlib.Omega.{arith}
use mathlib.Core.Path.{◌≡◌, refl, ap, sym, ◌∙◌}
use mathlib.Core.Logic.{inl, inr}
use mathlib.Core.Bool.{false}
use mathlib.Core.Option.{some}
use mathlib.Core.List.{[], ◌∷◌, ◌++◌, append_assoc, append-nil}
use Prim.Native.Nat.{ℕ, suc, ◌+◌}
use novachess.Prelude.Tests.{◌==◌, Bool-cases, Option-cases}
use novachess.Prelude.Text.{
  Text, ◌==*◌, ==*-refl, ==*-sound, cut_suffix, strip_slashes, base_onto, base, Lacks,
}

abbrev size : Text → ℕ
size [] = 0
size (c ∷ cs) = suc (size cs)

size-append : (s t : Text) → size (s ++ t) ≡ size s + size t
size-append [] t = omega arith
size-append (c ∷ s) t = omega (arith, size-append s t)

longer : (c : ℕ) (s e : Text) → (((c ∷ s) ++ e) ==* e) ≡ false
longer c s e = elim (Bool-cases (((c ∷ s) ++ e) ==* e)) [
  | inl same ↦ absurd (omega (arith, ap size (==*-sound ((c ∷ s) ++ e) e same), size-append s e))
  | inr other ↦ other
]

cut_suffix_self : (e : Text) → cut_suffix e e ≡ some []
unfolding cut_suffix
cut_suffix_self [] = refl
cut_suffix_self (d ∷ ds) = rw (==*-refl (d ∷ ds)) refl

pub cut_suffix-append : (s e : Text) → cut_suffix (s ++ e) e ≡ some s
unfolding cut_suffix
cut_suffix-append [] e = cut_suffix_self e
cut_suffix-append (c ∷ s) e = rw (longer c s e, cut_suffix-append s e) refl

pub cut_suffix_sound : (s e r : Text) → cut_suffix s e ≡ some r → s ≡ r ++ e
unfolding cut_suffix
cut_suffix_sound [] e r h = ground (arith, ==*-sound [] e)
cut_suffix_sound (c ∷ s) e r h = elim (Bool-cases ((c ∷ s) ==* e)) [
  | inl same ↦ ground (arith, ==*-sound (c ∷ s) e)
  | inr other ↦ elim (Option-cases (cut_suffix s e)) [
    | inl nothing ↦ ground arith
    | inr (q, found) ↦ let rest = cut_suffix_sound s e q found in ground (arith, rest)
  ]
]

strip_slashes-Lacks : (s : Text) → Lacks b'/' s → strip_slashes s ≡ s
unfolding strip_slashes
strip_slashes-Lacks [] h = refl
strip_slashes-Lacks (c ∷ []) h = ground arith
strip_slashes-Lacks (c ∷ d ∷ s) h = rw (strip_slashes-Lacks (d ∷ s) h.1) refl

strip_slashes-append :
    (s : Text) (c : ℕ) (t : Text)
    → strip_slashes (c ∷ t) ≡ c ∷ t
    → strip_slashes (s ++ c ∷ t) ≡ s ++ c ∷ t
unfolding strip_slashes
strip_slashes-append [] c t h = h
strip_slashes-append (b ∷ []) c t h = rw h refl
strip_slashes-append (b ∷ d ∷ s) c t h = rw (strip_slashes-append (d ∷ s) c t h) refl

base_onto-Lacks : (s name : Text) → Lacks b'/' s → base_onto s name ≡ name ++ s
unfolding base_onto
base_onto-Lacks [] name h = sym (append-nil name)
base_onto-Lacks (c ∷ s) name h =
    let plain : (c == b'/') ≡ false = ground arith in
    rw plain (base_onto-Lacks s (name ++ c ∷ []) h.1 ∙ append_assoc name (c ∷ []) s)

base_onto-append : (s t name : Text) → base_onto (s ++ b'/' ∷ t) name ≡ base_onto t []
unfolding base_onto
base_onto-append [] t name = refl
base_onto-append (c ∷ s) t name = base_onto-append s t _

pub base-append :
    (dir : Text) (c : ℕ) (name : Text)
    → Lacks b'/' (c ∷ name)
    → base (dir ++ b'/' ∷ c ∷ name) ≡ c ∷ name
unfolding base
base-append dir c name plain =
    let whole : strip_slashes (b'/' ∷ c ∷ name) ≡ b'/' ∷ c ∷ name =
      strip_slashes-append (b'/' ∷ []) c name (strip_slashes-Lacks (c ∷ name) plain) in
    rw (strip_slashes-append dir b'/' (c ∷ name) whole)
      (base_onto-append dir (c ∷ name) [] ∙ base_onto-Lacks (c ∷ name) [] plain)

pub Lacks-append : (b : ℕ) (s t : Text) → Lacks b s → Lacks b t → Lacks b (s ++ t)
Lacks-append b [] t h k = k
Lacks-append b (c ∷ s) t h k = (h.0, Lacks-append b s t h.1 k)

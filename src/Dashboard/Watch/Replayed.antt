-- ===== src/Dashboard/Watch/Replayed.antt =====
-- Facts that are delivered again, and a history that is loaded again.
use native.Mathlib.Omega.{arith}
use novachess.Prelude.{
  ℕ, suc, ◌+◌, ◌≤◌, fun_ext, Bool, true, false, ◌||◌, List, [], ◌∷◌, ◌++◌, ◌≡◌, refl, sym, ap,
  subst, ◌∙◌, ◌⊎◌, inl, inr, if◌then◌else◌, Bool-cases,
}
use novachess.Prelude.Int.{◌==ℤ◌}
use novachess.Prelude.Text.{Text, ◌==*◌, ==*-refl, ==*-sound}
use novachess.Dashboard.History.{
  Record, History, Write, whole, torn, any_matches, append_locked, append_if_absent,
}
use novachess.Dashboard.Watch.{Fact, dataset, verdict, record_of, matches_of, note, note_all}

any_matches-snoc :
    (m : Record → Bool) (rs : List Record) (r : Record)
    → any_matches m (rs ++ r ∷ []) ≡ (any_matches m rs || m r)
any_matches-snoc m [] r = ground arith
any_matches-snoc m (x ∷ rs) r = ground (arith, any_matches-snoc m rs r)

-- A fact matches its own record.
matches_own : (f : Fact) → matches_of f (record_of f) ≡ true
unfolding matches_of record_of ◌==*◌
matches_own (dataset g n) = ground arith
matches_own (verdict p g uri reason) = ground (arith, ==*-refl uri)

abbrev pub IsNoted : Fact → History → Type 0
IsNoted f h = any_matches (matches_of f) h.records ≡ true

-- The fact was delivered, and the file system answered that it wrote.
abbrev pub WasWritten : Fact → List (Write × Fact) → Type 0
WasWritten f [] = ⊥
WasWritten f (d ∷ fs) = (d ≡ (whole, f)) ⊎ WasWritten f fs

abbrev pub AllWritten : List (Write × Fact) → List (Write × Fact) → Type 0
AllWritten [] fs = Unit
AllWritten ((w, f) ∷ again) fs = WasWritten f fs × AllWritten again fs

abbrev pub AllNoted : List (Write × Fact) → History → Type 0
AllNoted [] h = Unit
AllNoted ((w, f) ∷ fs) h = IsNoted f h × AllNoted fs h

abbrev pub matching : (Record → Bool) → List Record → ℕ
matching m [] = 0
matching m (r ∷ rs) = let rest = matching m rs in if m r then suc rest else rest

abbrev pub Once : History → Type 0
Once h = (f : Fact) → matching (matches_of f) h.records ≤ 1

matching-snoc :
    (m : Record → Bool) (rs : List Record) (r : Record)
    → matching m (rs ++ r ∷ []) ≡ matching m rs + (if m r then 1 else 0)
matching-snoc m [] r = ground arith
matching-snoc m (x ∷ rs) r = ground (arith, matching-snoc m rs r)

matching-none :
    (m : Record → Bool) (rs : List Record) → any_matches m rs ≡ false → matching m rs ≡ 0
matching-none m [] h = refl
matching-none m (r ∷ rs) h = ground (arith, matching-none m rs (ground arith))

-- A fact that matches the record of another is the same fact as far as records tell.
same_fact :
    (f f' : Fact)
    → matches_of f (record_of f') ≡ true
    → (r : Record) → matches_of f r ≡ matches_of f' r
unfolding matches_of record_of ◌==*◌
same_fact (dataset g n) (dataset g' n') h r = ground arith
same_fact (dataset g n) (verdict p' g' uri' reason') h r = cc
same_fact (verdict p g uri reason) (dataset g' n') h r = cc
same_fact (verdict p g uri reason) (verdict p' g' uri' reason') h r =
    let one : uri' ≡ uri = ==*-sound uri' uri (ground arith) in
    let gens : (g' ==ℤ g) ≡ true = ground arith in rw one (ground (arith, gens))

module _ (encode : Record → Text) where
  note-whole : (h : History) (f : Fact) → IsNoted f ((note encode whole h f).0)
  unfolding note append_if_absent append_locked
  note-whole h f = elim (Bool-cases (any_matches (matches_of f) h.records)) [
    | inl there ↦ rw there there
    | inr new ↦
        rw new
          (any_matches-snoc (matches_of f) h.records (record_of f) ∙ ground (arith, matches_own f))
  ]

  append_locked-IsNoted :
      (w : Write) (h : History) (r : Record) (f : Fact)
      → IsNoted f h
      → IsNoted f ((append_locked encode w h r).0)
  unfolding append_locked
  append_locked-IsNoted whole h r f noted =
      any_matches-snoc (matches_of f) h.records r ∙ ground (arith, noted)
  append_locked-IsNoted (torn bytes) h r f noted = noted

  note-IsNoted :
      (w : Write) (h : History) (f f' : Fact) → IsNoted f' h → IsNoted f' ((note encode w h f).0)
  unfolding note append_if_absent
  note-IsNoted w h f f' noted = elim (Bool-cases (any_matches (matches_of f) h.records)) [
    | inl there ↦ rw there noted
    | inr new ↦ rw new (append_locked-IsNoted w h (record_of f) f' noted)
  ]

  note-again : (w : Write) (h : History) (f : Fact) → IsNoted f h → (note encode w h f).0 ≡ h
  unfolding note append_if_absent
  note-again w h f noted = rw noted refl

  note_all-IsNoted :
      (h : History) (fs : List (Write × Fact)) (f : Fact)
      → IsNoted f h
      → IsNoted f (note_all encode h fs)
  unfolding note_all
  note_all-IsNoted h [] f noted = noted
  note_all-IsNoted h ((w, f') ∷ fs) f noted =
      note_all-IsNoted ((note encode w h f').0) fs f (note-IsNoted w h f' f noted)

  -- A fact that was delivered while the file system wrote it is noted.
  note_all-whole :
      (h : History) (fs : List (Write × Fact)) (f : Fact)
      → WasWritten f fs
      → IsNoted f (note_all encode h fs)
  unfolding note_all
  note_all-whole h [] f x = elim x [ ]
  note_all-whole h ((w, f') ∷ fs) f (inl here) =
      note_all-IsNoted ((note encode w h f').0) fs f
        (subst (λ d. IsNoted f ((note encode (d.0) h (d.1)).0)) (sym here) (note-whole h f))
  note_all-whole h ((w, f') ∷ fs) f (inr later) = note_all-whole ((note encode w h f').0) fs f later

  -- Facts that have been written, delivered again, change nothing.
  note_all-again :
      (h : History) (again : List (Write × Fact)) → AllNoted again h → note_all encode h again ≡ h
  unfolding note_all
  note_all-again h [] noted = refl
  note_all-again h ((w, f) ∷ again) (it, noted) =
      ap (λ h'. note_all encode h' again) (note-again w h f it) ∙ note_all-again h again noted

  -- No fact has two records.
  append_locked-Once :
      (w : Write) (h : History) (f : Fact)
      → Once h
      → any_matches (matches_of f) h.records ≡ false
      → Once ((append_locked encode w h (record_of f)).0)
  unfolding append_locked
  append_locked-Once (torn bytes) h f once new f' = once f'
  append_locked-Once whole h f once new f' =
      let adds = matching-snoc (matches_of f') h.records (record_of f) in
      elim (Bool-cases (matches_of f' (record_of f))) [
        | inl same ↦
            let none_yet : any_matches (matches_of f') h.records ≡ false =
              ap (λ m. any_matches m h.records) (fun_ext (same_fact f' f same)) ∙ new in
            ground (arith, adds, same, matching-none (matches_of f') h.records none_yet)
        | inr other ↦ ground (arith, adds, other, once f')
      ]

  note-Once : (w : Write) (h : History) (f : Fact) → Once h → Once ((note encode w h f).0)
  unfolding note append_if_absent
  note-Once w h f once = elim (Bool-cases (any_matches (matches_of f) h.records)) [
    | inl there ↦ rw there once
    | inr new ↦ rw new (append_locked-Once w h f once new)
  ]

  note_all-Once : (h : History) (fs : List (Write × Fact)) → Once h → Once (note_all encode h fs)
  unfolding note_all
  note_all-Once h [] once = once
  note_all-Once h ((w, f) ∷ fs) once =
      note_all-Once ((note encode w h f).0) fs (note-Once w h f once)

  AllWritten-AllNoted :
      (h : History) (fs again : List (Write × Fact))
      → AllWritten again fs
      → AllNoted again (note_all encode h fs)
  AllWritten-AllNoted h fs [] all = tt
  AllWritten-AllNoted h fs ((w, f) ∷ again) (it, all) =
      (note_all-whole h fs f it, AllWritten-AllNoted h fs again all)

  -- Whatever the file system answers, a history that has at most one record of any fact keeps so; and
  -- facts that were delivered while the file system wrote, delivered again in any order and any number
  -- of times, change nothing.
  pub note_all-Replayed :
      (h : History) (fs again : List (Write × Fact))
      → Once h
      → AllWritten again fs
      → Once (note_all encode h fs)
        × (note_all encode (note_all encode h fs) again ≡ note_all encode h fs)
  note_all-Replayed h fs again once all = (
    note_all-Once h fs once,
    note_all-again (note_all encode h fs) again (AllWritten-AllNoted h fs again all),
  )

-- ===== src/Dashboard/Watch/Synced.antt =====
-- The file behind the history, while the file system writes.
use novachess.Prelude.{Option, List, [], ◌∷◌, inl, inr, Bool-cases}
use novachess.Prelude.Text.{Text}
use novachess.Dashboard.History.{Record, History, Write, whole, any_matches, append_if_absent}
use novachess.Dashboard.History.Reloaded.{IsSynced, IsLine, append_locked-IsSynced}
use novachess.Dashboard.Watch.{Fact, record_of, matches_of, note, note_all}

abbrev pub all_written : List Fact → List (Write × Fact)
all_written [] = []
all_written (f ∷ fs) = (whole, f) ∷ all_written fs

module _ (encode : Record → Text) (decode : Text → Option Record) where
  abbrev pub AreLines : List Fact → Type 0
  AreLines [] = Unit
  AreLines (f ∷ fs) = IsLine encode decode (record_of f) × AreLines fs

  note-IsSynced :
      (h : History) (f : Fact)
      → IsLine encode decode (record_of f)
      → IsSynced decode h
      → IsSynced decode ((note encode whole h f).0)
  unfolding note append_if_absent
  note-IsSynced h f line synced = elim (Bool-cases (any_matches (matches_of f) h.records)) [
    | inl there ↦ rw there synced
    | inr new ↦ rw new (append_locked-IsSynced encode decode h (record_of f) line synced)
  ]

  -- A file of whole lines, each shorter than a scanner's limit, that reads back as the history stays
  -- so while the file system writes, whatever facts are delivered, when the record of each is encoded
  -- as one line, shorter than that limit and without a carriage return at its end, from which it is
  -- decoded.
  pub note_all-IsSynced :
      (h : History) (fs : List Fact)
      → AreLines fs
      → IsSynced decode h
      → IsSynced decode (note_all encode h (all_written fs))
  unfolding note_all
  note_all-IsSynced h [] are synced = synced
  note_all-IsSynced h (f ∷ fs) (line, are) synced =
      note_all-IsSynced ((note encode whole h f).0) fs are (note-IsSynced h f line synced)

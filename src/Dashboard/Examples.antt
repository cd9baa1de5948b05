-- ===== src/Dashboard/Examples.antt =====
-- A dataset and a verdict, the one delivered twice, that the theorems on the history are applied to.
use native.Mathlib.Omega.{arith}
use novachess.Prelude.{true, Option, none, some, List, [], ◌∷◌, ◌≡◌, refl, inl, inr, if◌then◌else◌}
use novachess.Prelude.Int.{pos}
use novachess.Prelude.Text.{Text, codes, ◌==*◌}
use novachess.Dashboard.History.{
  Record, History, Write, whole, torn, lines, drop_cr, scanned, keep_read, new_history,
}
use novachess.Dashboard.History.Reloaded.{IsSynced, IsLine, no_lines}
use novachess.Dashboard.Watch.{Fact, dataset, verdict, record_of, note_all}
use novachess.Dashboard.Watch.Replayed.{Once, note_all-Replayed}
use novachess.Dashboard.Watch.Synced.{all_written, note_all-IsSynced}

abbrev ready : Fact
ready = dataset (pos 1) (pos 500)

abbrev accepted : Fact
accepted = verdict true (pos 1) (codes "file:///d/net") (codes "promoted")

abbrev nothing : History
nothing = record { file = []; records = [] }

-- The second delivery of the dataset is the first that the file system writes.
abbrev delivered : List (Write × Fact)
delivered = (torn (codes "{"), ready) ∷ (whole, accepted) ∷ (whole, ready) ∷ (whole, ready) ∷ []

-- A code that suffices for the two.
abbrev encode_two : Record → Text
encode_two r = if r.is_promoted then codes "{v}" else codes "{d}"

abbrev decode_two : Text → Option Record
decode_two t =
    if t ==* codes "{v}"
    then some (record_of accepted)
    else if t ==* codes "{d}"
    then some (record_of ready)
    else none

note_all-Replayed_example :
    Once (note_all encode_two nothing delivered)
    × (note_all encode_two
          (note_all encode_two nothing delivered)
          ((whole, ready) ∷ (whole, accepted) ∷ [])
        ≡ note_all encode_two nothing delivered)
note_all-Replayed_example =
    note_all-Replayed encode_two nothing delivered ((whole, ready) ∷ (whole, accepted) ∷ [])
      (λ f. omega arith) (inr (inr (inl refl)), (inr (inl refl), tt))

ready-IsLine : IsLine encode_two decode_two (record_of ready)
unfolding record_of ◌==*◌ drop_cr
ready-IsLine = record { decodes = refl; one_line = ground arith; short = omega arith; no_cr = refl }

accepted-IsLine : IsLine encode_two decode_two (record_of accepted)
unfolding record_of ◌==*◌ drop_cr
accepted-IsLine = record {
  decodes = refl;
  one_line = ground arith;
  short = omega arith;
  no_cr = refl;
}

nothing-IsSynced : IsSynced decode_two nothing
unfolding new_history lines scanned keep_read
nothing-IsSynced = record { whole_lines = no_lines; reads_back = refl }

note_all-IsSynced_example :
    IsSynced decode_two (note_all encode_two nothing (all_written (ready ∷ accepted ∷ ready ∷ [])))
note_all-IsSynced_example =
    note_all-IsSynced encode_two decode_two nothing (ready ∷ accepted ∷ ready ∷ [])
      (ready-IsLine, (accepted-IsLine, (ready-IsLine, tt))) nothing-IsSynced

-- ===== src/Dashboard/History.antt =====
-- internal/dashboard/history.go: the records in memory and the bytes of the file behind them. The
-- encoding of a record is an argument, as is what the file system answers. Times, and the numbers
-- that are floating point, are left out.
pub mod Reloaded
use novachess.Prelude.{
  ℕ, Bool, true, false, ◌&&◌, ◌||◌, Option, none, some, List, [], ◌∷◌, ◌++◌, ◌==◌, ltb,
  if◌then◌else◌,
}
use novachess.Prelude.Int.{ℤ, ◌==ℤ◌}
use novachess.Prelude.Text.{Text, codes, ◌==*◌}
use novachess.Pipeline.Store.{length}

pub record Record : Type 0 where
  pub type_name : Text
  pub generation : ℤ
  pub positions : ℤ
  pub is_promoted : Bool
  pub reason : Text
  pub network_uri : Text

pub record History : Type 0 where
  pub file : Text
  pub records : List Record

-- The lines of a text; what follows the last newline is a line unless it is empty.
unfoldable pub lines : Text → Text → List Text
lines [] [] = []
lines [] (c ∷ cs) = (c ∷ cs) ∷ []
lines (c ∷ cs) part =
    let next = part ∷ lines cs [] in
    let more = lines cs (part ++ c ∷ []) in if c == 0x0a then next else more

-- A scanner drops one carriage return from the end of a line.
unfoldable pub drop_cr : Text → Text
drop_cr [] = []
drop_cr (c ∷ []) = if c == 0x0d then [] else c ∷ []
drop_cr (c ∷ d ∷ cs) = c ∷ drop_cr (d ∷ cs)

-- `bufio.MaxScanTokenSize`.
abbrev pub max_token_size : ℕ
max_token_size = 65536

-- A scanner stops at the first line that leaves no room in its buffer.
unfoldable pub scanned : List Text → List Text
unfolding drop_cr
scanned [] = []
scanned (l ∷ ls) =
    let rest = scanned ls in if ltb (length l) max_token_size then drop_cr l ∷ rest else []

-- What Unmarshal refuses is skipped.
unfoldable pub keep_read : (Text → Option Record) → List Text → List Record
keep_read decode [] = []
keep_read decode (l ∷ ls) =
    let rest = keep_read decode ls in elim (decode l) [ none ↦ rest | some r ↦ r ∷ rest ]

unfoldable pub new_history : (Text → Option Record) → Text → History
unfolding lines scanned keep_read
new_history decode file = record {
  file = file;
  records = keep_read decode (scanned (lines file []));
}

abbrev pub any_matches : (Record → Bool) → List Record → Bool
any_matches matches [] = false
any_matches matches (r ∷ rs) = matches r || any_matches matches rs

unfoldable pub has_dataset : History → ℤ → Bool
unfolding ◌==*◌
has_dataset h generation =
    any_matches (λ r. r.generation ==ℤ generation && r.type_name ==* codes "dataset") h.records

unfoldable pub has_promotion : History → ℤ → Bool
unfolding ◌==*◌
has_promotion h generation =
    any_matches
      (λ r.
        r.generation ==ℤ generation
        && (r.type_name ==* codes "promotion" || r.type_name ==* codes "gate" && r.is_promoted))
      h.records

-- The file system writes the line, or writes none of it, or a part of it, before it fails.
pub data Write : Type 0 where
  whole : Write
  torn : Text → Write

module _ (encode : Record → Text) where
  -- With whether there was no error.
  unfoldable pub append_locked : Write → History → Record → History × Bool
  append_locked (torn bytes) h r = (record h { file = h.file ++ bytes }, false)
  append_locked whole h r =
      let line = encode r ++ 0x0a ∷ [] in
      (record h { file = h.file ++ line; records = h.records ++ r ∷ [] }, true)

  unfoldable pub append_if_absent : Write → History → Record → (Record → Bool) → History × Bool
  unfolding append_locked
  append_if_absent write h r matches =
      if any_matches matches h.records then (h, true) else append_locked write h r

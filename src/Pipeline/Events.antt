-- ===== src/Pipeline/Events.antt =====
-- The messages of internal/events/events.go that the coordinator sends and receives, and Unmarshal
-- of internal/bus/memory.go. Fields that are reported for people only are left out.
use novachess.Prelude.{ℕ, List, Option, none, if◌then◌else◌}
use novachess.Prelude.Int.{ℤ, pos, ltb_ℤ}
use novachess.Prelude.Text.{Text}

abbrev pub current_schema : ℤ
current_schema = pos 1

pub record Envelope : Type 0 where
  pub id : Text
  pub schema_version : ℤ
  pub payload : Text

pub record WorkUnit : Type 0 where
  pub id : Text
  pub generation : ℤ
  pub network_uri : Text
  pub games : ℤ
  pub random_plies : ℤ
  pub nodes_per_move : ℤ
  pub seed : ℕ

pub record GameBatch : Type 0 where
  pub work_unit_id : Text
  pub generation : ℤ
  pub artifact_uri : Text
  pub size_bytes : ℤ
  pub positions : ℤ
  pub games : ℤ
  pub checksum : Text

pub record DatasetReady : Type 0 where
  pub generation : ℤ
  pub artifact_uris : List Text
  pub positions : ℤ
  pub baseline_network_uri : Text

-- The decoder of the payload, `encoding/json`, is an argument.
unfoldable pub unmarshal : {A : Type 0} → (Text → Option A) → Envelope → Option A
unmarshal decode env = if ltb_ℤ current_schema env.schema_version then none else decode env.payload

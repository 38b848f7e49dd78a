-- ===== src/State/Lanes.antt =====
-- The lane rows of orchestrator/state.py. The primary key is (workspace, lane_key).
use Prim.Native.String.{compare}
use text.Mathlib.Text.{is_le}
pub mod Exported
use luis_puentes.Prelude.{
  sort_by, map, ℕ, String, Bool, Option, none, some, List, [], ◌∷◌, ◌++◌, ◌==◌, ◌&&◌, not,
  if◌then◌else◌, first, any, keep, update_where,
}
use luis_puentes.Models.{Fields, LaneRecord, LaneStatus, pop_field}
use luis_puentes.Models.LaneKey.{normalize_lane_key}
use luis_puentes.State.{Store, M, ◌>>=◌, ◌>>◌, pure, lift, gets, modify, utcnow}

-- `workspace = ? AND lane_key = ?`
abbrev pub has_key : String → String → LaneRecord → Bool
has_key workspace lane_key row = row.workspace == workspace && row.lane_key == lane_key

-- The columns that `DO UPDATE SET` names: all but the key and `created_at`.
overwrite_lane : LaneRecord → LaneRecord → LaneRecord
overwrite_lane lane row = record lane {
  workspace = row.workspace;
  lane_key = row.lane_key;
  created_at = row.created_at;
}

unfoldable pub upsert_rows : LaneRecord → List LaneRecord → List LaneRecord
unfolding overwrite_lane
upsert_rows lane rows =
    if any (has_key lane.workspace lane.lane_key) rows
    then update_where (has_key lane.workspace lane.lane_key) (overwrite_lane lane) rows
    else rows ++ lane ∷ []

unfoldable pub upsert_lane : LaneRecord → M (Unit {0})
unfolding upsert_rows
upsert_lane lane = do
  lane_key ← lift (normalize_lane_key lane.lane_key)
  modify (λ s. record s { lanes = upsert_rows (record lane { lane_key = lane_key }) s.lanes })

unfoldable pub find_lane : Store → String → Option LaneRecord
find_lane s lane_key = first (has_key s.workspace lane_key) s.lanes

unfoldable pub get_lane : String → M (Option LaneRecord)
unfolding find_lane
get_lane lane_key = do key ← lift (normalize_lane_key lane_key); gets (λ s. find_lane s key)

-- The lane record that `ensure_lane` makes.
abbrev pub new_lane : String → String → Option String → Option String → ℕ → LaneRecord
new_lane workspace lane_key owner model now = record {
  workspace = workspace;
  lane_key = lane_key;
  status = LaneStatus.idle;
  current_agent_id = none;
  prior_agent_ids = [];
  handover_path = none;
  last_activity = none;
  context_health_score = 100;
  owner = owner;
  active_artifact_claims = [];
  model = model;
  config = Fields.end;
  created_at = now;
  updated_at = now;
}

unfoldable pub create_lane : String → Option String → Option String → M LaneRecord
create_lane lane_key owner model = do
  now ← utcnow
  workspace ← gets (λ s. s.workspace)
  upsert_lane (new_lane workspace lane_key owner model now)
  pure (new_lane workspace lane_key owner model now)

unfoldable pub ensure_lane : String → Option String → Option String → M LaneRecord
ensure_lane lane_key owner model = do
  key ← lift (normalize_lane_key lane_key)
  found ← get_lane key
  elim found [ none ↦ create_lane key owner model | some lane ↦ pure lane ]

abbrev pub lane_key_le : LaneRecord → LaneRecord → Bool
lane_key_le a b = is_le (compare a.lane_key b.lane_key)

unfoldable pub list_lanes : Store → List LaneRecord
list_lanes s = sort_by lane_key_le (keep (λ lane. lane.workspace == s.workspace) s.lanes)

-- One lane of `_registry_payload`: the workspace by its hash, the configuration with no secret.
unfoldable pub redact : String → LaneRecord → LaneRecord
redact workspace_hash lane = record lane {
  workspace = workspace_hash;
  config = pop_field (pop_field lane.config "api_key") "secrets";
}

-- The file is replaced under a lock with retries; this is the outcome when the writing succeeds.
unfoldable pub export_lane_registry : M (Unit {0})
unfolding utcnow redact list_lanes
export_lane_registry = do
  lanes ← gets (λ s. map (redact (s.workspace_hash s.workspace)) (list_lanes s))
  generated_at ← utcnow
  modify (λ s. record s {
    registry = some (record {
      workspace_hash = s.workspace_hash s.workspace;
      generated_at = generated_at;
      lanes = lanes;
    });
  })

unfoldable pub delete_lane : String → M (Unit {0})
unfolding export_lane_registry
delete_lane lane_key = do
  key ← lift (normalize_lane_key lane_key)
  modify (λ s. record s { lanes = keep (λ lane. not (has_key s.workspace key lane)) s.lanes })
  export_lane_registry

-- ===== src/Coordinator/Cycle/Recovering.antt =====
-- `recover`, the start-up recovery and `rotate_lane` of orchestrator/coordinator.py. The backups are files:
-- what is done with them is given.
use luis_puentes.Prelude.{
  ℕ, suc, String, Bool, true, false, Option, none, some, List, [], ◌∷◌, length, if◌then◌else◌,
}
use luis_puentes.Models.{Fields, field, str, TaskEnvelope, TaskStatus, get_field, truthy}
use luis_puentes.Models.LaneKey.{normalize_lane_key}
use luis_puentes.State.{
  M, ◌>>=◌, ◌>>◌, pure, lift, gets, amount, append_event, record_metric, when_some,
}
use luis_puentes.State.Lanes.{export_lane_registry}
use luis_puentes.State.Tasks.{get_task, list_tasks, dead_letter_task}
use luis_puentes.State.Recovery.{expire_orphans, recover_interrupted_tasks}
use luis_puentes.Locks.{recover_stale}
use luis_puentes.Context.{given, text_or_null}
use luis_puentes.Agents.{Host, rotate}
use luis_puentes.Coordinator.{Config, Mode}
use luis_puentes.Coordinator.Answers.{strs}
use luis_puentes.Coordinator.Routing.{sync_source_message}

-- The backup files of the store, and the token of a live service.
pub record Backups : Type 0 where
  pub restore_backup : String → M String
  pub backup_daily : ℕ → M String
  pub live_service_owner_token : M (Option String)

pub record RecoverySummary : Type 0 where
  pub restored_backup : Option String
  pub backup : String
  pub expired : ℕ × ℕ
  pub stale_claims_recovered : ℕ
  pub dead_lettered : ℕ

abbrev pub is_exhausted : TaskEnvelope → Bool
is_exhausted task = elim (get_field task.metadata "retry_exhausted") [
  | none ↦ false
  | some v ↦ truthy v
]

-- `task.error_message or "retry exhausted"`
abbrev pub exhausted_reason : TaskEnvelope → String
exhausted_reason task = elim (given task.error_message) [ none ↦ "retry exhausted" | some m ↦ m ]

abbrev pub bury : TaskEnvelope → M (Unit {0})
bury task = do
  dead_letter_task task.task_id (exhausted_reason task)
  found ← get_task task.task_id
  when_some found sync_source_message

-- The failed tasks that are out of retries, and how many they were.
unfoldable pub dead_letter_exhausted : List TaskEnvelope → M ℕ
dead_letter_exhausted [] = pure 0
dead_letter_exhausted (task ∷ tasks) =
    let rest = dead_letter_exhausted tasks in
    if is_exhausted task then (do bury task; n ← rest; pure (suc n)) else rest

abbrev pub restore : Backups → Option String → M (Option String)
restore backups none = pure none
restore backups (some path) = do
  restored ← backups.restore_backup path
  record_metric "backup_recovery" (amount 1) (field "source" (str "backup") Fields.end)
  pure (some restored)

unfoldable pub recover : Backups → Option String → ℕ → M RecoverySummary
recover backups restore_backup retention_days = do
  restored ← restore backups restore_backup
  expired ← expire_orphans none
  stale_claims ← recover_stale none
  failed ← gets (list_tasks TaskStatus.failed)
  dead_lettered ← dead_letter_exhausted failed
  backup ← backups.backup_daily retention_days
  export_lane_registry
  pure (record {
    restored_backup = restored;
    backup = backup;
    expired = expired;
    stale_claims_recovered = length stale_claims;
    dead_lettered = dead_lettered;
  })

abbrev pub note_recovered : List String → M (List String)
note_recovered [] = pure []
note_recovered (id ∷ ids) = do
  record_metric "restart_recovery" (amount (length (id ∷ ids)))
      (field "task_ids" (strs (id ∷ ids)) Fields.end)
  export_lane_registry
  pure (id ∷ ids)

-- What a coordinator does as it starts.
unfoldable pub recover_interrupted_runs : Backups → M (List String)
recover_interrupted_runs backups = do
  live_token ← backups.live_service_owner_token
  recovered ← recover_interrupted_tasks live_token
  note_recovered recovered

pub record LaneRotation : Type 0 where
  pub lane_key : String
  pub agent_id : Option String
  pub handover_path : Option String
  pub proposed : Bool

abbrev pub propose_rotation : String → String → Option String → M LaneRotation
propose_rotation key objective spec_id = do
  append_event "rotation.proposed" (some "lane") (some key)
      (field "objective" (str objective) (field "spec_id" (text_or_null spec_id) Fields.end))
  pure (record { lane_key = key; agent_id = none; handover_path = none; proposed = true })

abbrev pub rotate_now : Host → Config → String → String → Option String → M LaneRotation
rotate_now host config key objective spec_id = do
  rotated ← rotate host config.policies key objective spec_id "context rotation"
  record_metric "rotation_success" (amount 1)
      (field "lane_key" (str key) (field "kind" (str "manual") Fields.end))
  export_lane_registry
  let lane = rotated.0
  pure (record {
    lane_key = lane.lane_key;
    agent_id = some (rotated.1);
    handover_path = lane.handover_path;
    proposed = false;
  })

unfoldable pub rotate_lane : Host → Config → String → String → Option String → M LaneRotation
rotate_lane host config lane_key objective spec_id = do
  key ← lift (normalize_lane_key lane_key)
  elim config.mode [
    | Mode.shadow ↦ propose_rotation key objective spec_id
    | _ ↦ rotate_now host config key objective spec_id
  ]

-- ===== src/Coordinator.antt =====
-- orchestrator/coordinator.py: tasks, their delegation, and what a coordinator is configured with.
pub mod Inbox
pub mod Routing
pub mod Supervision
pub mod Submission
pub mod Answers
pub mod Execution
pub mod Cycle
use luis_puentes.Prelude.{
  ℕ, suc, ◌+◌, ◌*◌, String, Bool, true, false, Option, none, some, List, [], ◌∷◌, concat, ◌==◌,
  ◌&&◌, ◌||◌, not, leb, if◌then◌else◌,
}
use luis_puentes.Result.{Failure, value_error, key_error, permission_error}
use luis_puentes.Models.{
  Json, Fields, field, bool, num, str, Permissions, default_permissions, TaskEnvelope, TaskStatus,
  get_field, truthy,
}
use luis_puentes.Models.Metadata.{int_field}
use luis_puentes.Models.LaneKey.{normalize_lane_key}
use luis_puentes.State.{
  Store, M, ◌>>=◌, ◌>>◌, pure, throw, lift, gets, utcnow, uuid4, amount, append_event,
  record_metric,
}
use luis_puentes.State.Lanes.{ensure_lane, export_lane_registry}
use luis_puentes.State.Tasks.{save_task, get_task, get_task_by_idempotency}
use luis_puentes.Policy.{Policy}
use luis_puentes.Rotation.{RotationPolicy}

pub data Mode : Type 0 where
  shadow read_only supervised : Mode

pub record Config : Type 0 where
  pub mode : Mode
  pub policies : List Policy
  pub rotation_policy : RotationPolicy
  pub execution_owner : String

abbrev pub is_read_only : Mode → Bool
is_read_only Mode.read_only = true
is_read_only _ = false

-- The permissions that read-only mode and agents' proposals may not ask for.
abbrev pub is_sensitive : Permissions → Bool
is_sensitive p = p.write_files || p.external_write || p.cross_lane_merge || p.destructive

-- `compute_expires_at`: no limit for a TTL that is missing or 0
abbrev pub compute_expires_at : Option ℕ → ℕ → Option ℕ
compute_expires_at none created_at = none
compute_expires_at (some ℕ.zero) created_at = none
compute_expires_at (some (ℕ.suc n)) created_at = some (created_at + (suc n) * 1000000)

-- The arguments of `submit_task`.
pub record TaskRequest : Type 0 where
  pub lane_key : String
  pub objective : String
  pub sender : String
  pub target : String
  pub permissions : Permissions
  pub idempotency_key : Option String
  pub reply_to : Option String
  pub artifacts : List String
  pub evidence : List String
  pub spec_id : Option String
  pub ttl_seconds : Option ℕ
  pub metadata : Fields

-- `if idempotency_key: existing = …`
unfoldable pub find_existing : Option String → M (Option TaskEnvelope)
find_existing none = pure none
find_existing (some key) = if key == "" then pure none else get_task_by_idempotency key

abbrev pub is_flagged : Fields → String → Bool
is_flagged metadata key = elim (get_field metadata key) [ none ↦ false | some v ↦ truthy v ]

-- The task is saved with a lane key that is normalized already, so that save_task leaves the task as it is.
unfoldable pub create_task : TaskRequest → M TaskEnvelope
create_task r = do
  now ← utcnow
  lane_key ← lift (normalize_lane_key r.lane_key)
  task_id ← uuid4
  workspace ← gets (λ s. s.workspace)
  let task : TaskEnvelope = record {
    task_id = task_id;
    workspace = workspace;
    lane_key = lane_key;
    objective = r.objective;
    sender = r.sender;
    target = r.target;
    status = TaskStatus.queued;
    permissions = r.permissions;
    idempotency_key = r.idempotency_key;
    reply_to = r.reply_to;
    evidence = r.evidence;
    artifacts = r.artifacts;
    spec_id = r.spec_id;
    ttl_seconds = r.ttl_seconds;
    created_at = now;
    updated_at = now;
    expires_at = compute_expires_at r.ttl_seconds now;
    agent_id = none;
    run_id = none;
    failure_kind = none;
    error_message = none;
    metadata = r.metadata;
  }
  ensure_lane lane_key none none
  save_task task
  export_lane_registry
  append_event "task.submitted" (some "task") (some task_id) Fields.end
  if is_flagged r.metadata "stale_source"
      then (do
        record_metric "stale_source_incident" (amount 1)
            (field "lane_key" (str lane_key) Fields.end)
        pure task)
      else pure task

unfoldable pub submit_task : Config → TaskRequest → M TaskEnvelope
submit_task config r =
    if is_read_only config.mode && is_sensitive r.permissions
    then throw (permission_error "Read-only mode denies write-capable permissions")
    else do
      existing ← find_existing r.idempotency_key
      elim existing [ none ↦ create_task r | some task ↦ pure task ]

-- `lane_key or parent.lane_key`
abbrev pub text_or : Option String → String → String
text_or none default = default
text_or (some s) default = if s == "" then default else s

unfoldable pub delegate_from :
    Config → TaskEnvelope → String → String → Option String → M TaskEnvelope
delegate_from config parent task_type objective lane_key =
    if not (task_type == "extraction" || task_type == "review")
    then throw (permission_error "Delegation is limited to extraction and review")
    else do
      depth ← lift (int_field parent.metadata "delegation_depth")
      if leb 1 depth then throw (permission_error "Recursive delegation is prohibited") else do
        key ← lift (normalize_lane_key (text_or lane_key parent.lane_key))
        submit_task config (record {
          lane_key = key;
          objective = objective;
          sender = "coordinator";
          target = "child";
          permissions = default_permissions;
          idempotency_key = some (concat ("child:" ∷ parent.task_id ∷ ":" ∷ task_type ∷ []));
          reply_to = none;
          artifacts = [];
          evidence = parent.evidence;
          spec_id = parent.spec_id;
          ttl_seconds = none;
          metadata = field "parent_task_id" (str parent.task_id) (
              field "delegation_depth" (num (depth + 1)) (
                field "task_type" (str task_type)
                  (field "coordinator_controlled" (bool true) Fields.end)));
        })

unfoldable pub delegate_task : Config → String → String → String → Option String → M TaskEnvelope
delegate_task config parent_task_id task_type objective lane_key = do
  found ← get_task parent_task_id
  elim found [
    | none ↦ throw (key_error parent_task_id)
    | some parent ↦ delegate_from config parent task_type objective lane_key
  ]

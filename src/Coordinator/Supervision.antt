-- ===== src/Coordinator/Supervision.antt =====
-- Pausing, resuming and approving: the operator's calls of orchestrator/coordinator.py.
pub mod Approval
pub mod Approve
use luis_puentes.Prelude.{
  ℕ, String, Bool, true, false, Option, none, some, List, [], ◌∷◌, ◌++◌, ◌==◌, ◌&&◌, not, keep,
  contains, if◌then◌else◌,
}
use luis_puentes.Result.{key_error}
use luis_puentes.Models.{
  Json, Fields, field, str, arr, TaskEnvelope, TaskStatus, LaneRecord, LaneStatus, ApprovalRequest,
  ApprovalStatus, set_field, pop_field,
}
use luis_puentes.Models.Metadata.{has_text, list_field, of_list}
use luis_puentes.Models.LaneKey.{normalize_lane_key}
use luis_puentes.State.{
  Store, M, ◌>>=◌, ◌>>◌, pure, throw, lift, gets, modify, utcnow, uuid4, amount, seconds_between,
  when_some, append_event, record_metric,
}
use luis_puentes.State.Lanes.{ensure_lane, upsert_lane}
use luis_puentes.State.Tasks.{save_task, get_task}
use luis_puentes.State.Approvals.{save_approval, get_approval}
use luis_puentes.Coordinator.Routing.{sync_source_message}

abbrev pub set_paused : (List String → List String) → M (Unit {0})
set_paused change =
    modify (λ s. record s {
      memory = record (s.memory) { paused_lanes = change (s.memory).paused_lanes };
    })

unfoldable pub set_lane_status : String → (LaneRecord → LaneStatus) → M (Unit {0})
set_lane_status lane_key status = do
  lane ← ensure_lane lane_key none none
  now ← utcnow
  upsert_lane (record lane { status = status lane; updated_at = now })

unfoldable pub pause_lane : String → M (Unit {0})
pause_lane lane_key = do
  key ← lift (normalize_lane_key lane_key)
  set_paused (λ keys. if contains keys key then keys else key ∷ keys)
  set_lane_status key (λ lane. LaneStatus.paused)
  append_event "lane.paused" (some "lane") (some key) Fields.end
  pure tt

-- `ACTIVE if lane.current_agent_id else IDLE`
abbrev pub resumed_status : LaneRecord → LaneStatus
resumed_status lane = elim lane.current_agent_id [
  | none ↦ LaneStatus.idle
  | some agent_id ↦ (if agent_id == "" then LaneStatus.idle else LaneStatus.active)
]

unfoldable pub resume_lane : String → M (Unit {0})
resume_lane lane_key = do
  key ← lift (normalize_lane_key lane_key)
  set_paused (keep (λ k. not (k == key)))
  set_lane_status key resumed_status
  append_event "lane.resumed" (some "lane") (some key) Fields.end
  pure tt

unfoldable pub move_task : String → TaskStatus → String → M TaskEnvelope
move_task task_id status event_type = do
  found ← get_task task_id
  elim found [
    | none ↦ throw (key_error task_id)
    | some task ↦ do
      now ← utcnow
      let moved : TaskEnvelope = record task { status = status; updated_at = now }
      saved ← save_task moved
      append_event event_type (some "task") (some task_id) Fields.end
      pure saved
  ]

unfoldable pub pause_task : String → M TaskEnvelope
unfolding move_task
pause_task task_id = move_task task_id TaskStatus.paused "task.paused"

unfoldable pub resume_task : String → M TaskEnvelope
unfolding move_task
resume_task task_id = move_task task_id TaskStatus.queued "task.resumed"

-- The request, and the task as it now waits.
unfoldable pub request_approval :
    TaskEnvelope → String → String → M (ApprovalRequest × TaskEnvelope)
request_approval task action reason = do
  approval_id ← uuid4
  requested_at ← utcnow
  workspace ← gets (λ s. s.workspace)
  let approval : ApprovalRequest = record {
    approval_id = approval_id;
    workspace = workspace;
    task_id = task.task_id;
    lane_key = task.lane_key;
    action = action;
    reason = reason;
    status = ApprovalStatus.pending;
    requested_at = requested_at;
    resolved_at = none;
    resolver = none;
    metadata = Fields.end;
  }
  save_approval approval
  now ← utcnow
  let waiting : TaskEnvelope = record task {
    status = TaskStatus.awaiting_approval;
    updated_at = now;
    metadata = set_field task.metadata "pending_approval_id" (str approval_id);
  }
  saved ← save_task waiting
  append_event "approval.requested" (some "approval") (some approval_id) Fields.end
  pure (approval, saved)

-- `if action not in approved_actions: approved_actions.append(action)`
abbrev pub add_action : List Json → String → List Json
add_action actions action = if has_text actions action then actions else actions ++ str action ∷ []

-- The actions that an approval grants: its own, and writing with the execution of a task that writes.
-- The source walks a set of the two, in the order that own_first says.
abbrev pub grant : Bool → ApprovalRequest → TaskEnvelope → List Json → List Json
grant own_first approval task actions =
    if approval.action == "execute" && task.permissions.write_files
    then (if own_first
        then add_action (add_action actions approval.action) "write_files"
        else add_action (add_action actions "write_files") approval.action)
    else add_action actions approval.action

unfoldable pub release_task : ApprovalRequest → TaskEnvelope → M (Unit {0})
release_task approval task = do
  let cleared = pop_field task.metadata "pending_approval_id"
  actions ← lift (list_field cleared "approved_actions")
  own_first ← gets (λ s. s.own_action_first approval.action)
  let granted = of_list (grant own_first approval task actions)
  now ← utcnow
  save_task (record task {
    status = TaskStatus.queued;
    metadata = set_field cleared "approved_actions" (arr granted);
    updated_at = now;
  })
  pure tt

unfoldable pub resolve : ApprovalRequest → ApprovalStatus → String → ℕ → ApprovalRequest
resolve approval status resolver now = record approval {
  status = status;
  resolved_at = some now;
  resolver = some resolver;
}

abbrev pub latency_labels : ApprovalRequest → String → Fields
latency_labels approval resolution =
    field "action" (str approval.action) (field "resolution" (str resolution) Fields.end)

unfoldable pub approve_found : ApprovalRequest → String → M ApprovalRequest
approve_found approval resolver = do
  now ← utcnow
  let resolved = resolve approval ApprovalStatus.approved resolver now
  save_approval resolved
  found ← get_task approval.task_id
  when_some found (release_task resolved)
  record_metric "approval_latency_seconds" (seconds_between approval.requested_at now)
      (latency_labels approval "approved")
  append_event "approval.approved" (some "approval") (some approval.approval_id) Fields.end
  pure resolved

unfoldable pub approve : String → String → M ApprovalRequest
approve approval_id resolver = do
  found ← get_approval approval_id
  elim found [
    | none ↦ throw (key_error approval_id)
    | some approval ↦ approve_found approval resolver
  ]

unfoldable pub fail_rejected : TaskEnvelope → M (Unit {0})
fail_rejected task = do
  now ← utcnow
  let refused : TaskEnvelope = record task {
    status = TaskStatus.failed;
    error_message = some "approval rejected";
    updated_at = now;
  }
  saved ← save_task refused
  sync_source_message saved

unfoldable pub reject_found : ApprovalRequest → String → M ApprovalRequest
reject_found approval resolver = do
  now ← utcnow
  let resolved = resolve approval ApprovalStatus.rejected resolver now
  save_approval resolved
  found ← get_task approval.task_id
  when_some found fail_rejected
  record_metric "approval_latency_seconds" (seconds_between approval.requested_at now)
      (latency_labels approval "rejected")
  record_metric "task_failure" (amount 1) (field "reason" (str "approval_rejected") Fields.end)
  append_event "approval.rejected" (some "approval") (some approval.approval_id) Fields.end
  pure resolved

unfoldable pub reject : String → String → M ApprovalRequest
reject approval_id resolver = do
  found ← get_approval approval_id
  elim found [
    | none ↦ throw (key_error approval_id)
    | some approval ↦ reject_found approval resolver
  ]

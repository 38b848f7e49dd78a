-- ===== src/Coordinator/Routing.antt =====
-- Messages that become tasks, and tasks that settle their message: `route_pending_messages` and
-- `_sync_source_message` of orchestrator/coordinator.py.
pub mod Held
use luis_puentes.Prelude.{
  ℕ, suc, String, Bool, true, false, Option, none, some, List, [], ◌∷◌, ◌++◌, concat, ◌==◌, take,
  if◌then◌else◌,
}
use luis_puentes.Result.{Result, ok, raise, permission_error}
use luis_puentes.Models.{
  Json, Fields, field, num, str, TaskEnvelope, TaskStatus, MessageEnvelope, MessageStatus,
  LaneRecord, executable, task_status_value, get_field, set_field,
}
use luis_puentes.Models.Metadata.{text_field}
use luis_puentes.Models.LaneKey.{normalize_lane_key}
use luis_puentes.State.{Store, M, ◌>>=◌, ◌>>◌, pure, gets, modify, utcnow, append_event}
use luis_puentes.State.Lanes.{find_lane}
use luis_puentes.State.Messages.{save_message, get_message, list_messages}
use luis_puentes.Coordinator.{Config, TaskRequest, submit_task}
use luis_puentes.Coordinator.Inbox.{is_open_lane, dead_letter}

-- `error_message or default`
abbrev pub message_or : Option String → String → String
message_or none default = default
message_or (some s) default = if s == "" then default else s

unfoldable pub deliver : MessageEnvelope → TaskEnvelope → M (Unit {0})
deliver message task = do
  now ← utcnow
  save_message (record message {
    status = MessageStatus.delivered;
    updated_at = now;
    metadata = set_field message.metadata "completed_task_id" (str task.task_id);
  })
  append_event "message.delivered" (some "message") (some message.message_id)
      (field "task_id" (str task.task_id) Fields.end)
  pure tt

-- What the status of a task means for its message.
unfoldable pub settle_message : TaskStatus → MessageEnvelope → TaskEnvelope → M (Unit {0})
settle_message TaskStatus.completed message task = deliver message task
settle_message TaskStatus.failed message task =
    dead_letter message (message_or task.error_message "source_task_failed")
settle_message TaskStatus.dead_letter message task =
    dead_letter message (message_or task.error_message "source_task_dead_letter")
settle_message TaskStatus.expired message task =
    dead_letter message (message_or task.error_message "source_task_expired")
settle_message _ message task = pure tt

unfoldable pub sync_source_message : TaskEnvelope → M (Unit {0})
sync_source_message task = elim (text_field task.metadata "source_message_id") [
  | none ↦ pure tt
  | some message_id ↦ do
    found ← get_message message_id
    elim found [ none ↦ pure tt | some message ↦ settle_message task.status message task ]
]

-- One round of the loop: the message was dropped, is held for a person, or became a task.
pub data Outcome : Type 0 where
  dropped held : Outcome
  routed : TaskEnvelope → Outcome

-- The task that an executable message asks for. A spec id that is no text is not modelled.
abbrev pub request_of : MessageEnvelope → String → ℕ → TaskRequest
request_of message target now = record {
  lane_key = target;
  objective = message.objective;
  sender = message.sender;
  target = "message";
  permissions = message.permissions;
  idempotency_key = some (concat ("message:" ∷ message.message_id ∷ []));
  reply_to = message.reply_to;
  artifacts = [];
  evidence = message.evidence;
  spec_id = text_field message.metadata "spec_id";
  ttl_seconds = message.ttl_seconds;
  metadata =
      field "source_message_id" (str message.message_id)
        (field "message_routed_at" (num now) Fields.end);
}

unfoldable pub mark_routed : MessageEnvelope → String → TaskEnvelope → M Outcome
mark_routed message target task = do
  now ← utcnow
  save_message (record message {
    status = MessageStatus.routed;
    updated_at = now;
    metadata = set_field message.metadata "routed_task_id" (str task.task_id);
  })
  append_event "message.routed" (some "message") (some message.message_id)
      (field "task_id" (str task.task_id) (field "lane_key" (str target) Fields.end))
  sync_source_message task
  pure (routed task)

unfoldable pub drop_message : MessageEnvelope → String → M Outcome
drop_message message reason = do dead_letter message reason; pure dropped

-- `except PermissionError as err`; any other exception goes on.
unfoldable pub after_submit :
    MessageEnvelope → String → Result TaskEnvelope × Store → Result Outcome × Store
after_submit message target (ok task, s) = mark_routed message target task s
after_submit message target (raise (permission_error reason), s) = drop_message message reason s
after_submit message target (raise e, s) = (raise e, s)

unfoldable pub execute_message : Config → MessageEnvelope → String → M Outcome
execute_message config message target = do
  now ← utcnow
  λ s. after_submit message target (submit_task config (request_of message target now) s)

unfoldable pub route_message : Config → MessageEnvelope → M Outcome
route_message config message = elim (normalize_lane_key message.target) [
  | raise e ↦ drop_message message "invalid_target_lane"
  | ok target ↦ do
    lane ← gets (λ s. find_lane s target)
    if is_open_lane lane
        then (if executable message then execute_message config message target else pure held)
        else drop_message message "unknown_target_lane"
]

abbrev pub add_outcome : Outcome → List TaskEnvelope × ℕ → List TaskEnvelope × ℕ
add_outcome dropped (tasks, n) = (tasks, n)
add_outcome held (tasks, n) = (tasks, suc n)
add_outcome (routed task) (tasks, n) = (task ∷ tasks, n)

-- The tasks in the order of their messages, and the number of messages held.
unfoldable pub route_all : Config → List MessageEnvelope → M (List TaskEnvelope × ℕ)
route_all config [] = pure ([], 0)
route_all config (message ∷ messages) =
    let rest = route_all config messages in
    do outcome ← route_message config message; others ← rest; pure (add_outcome outcome others)

unfoldable pub route_pending_messages : Config → ℕ → M (List TaskEnvelope)
route_pending_messages config max_messages = do
  pending ← gets (list_messages MessageStatus.pending)
  outcome ← route_all config (take max_messages pending)
  modify (λ s. record s { memory = record (s.memory) { coordination_held = outcome.1 } })
  pure outcome.0

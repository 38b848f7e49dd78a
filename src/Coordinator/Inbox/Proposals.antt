-- ===== src/Coordinator/Inbox/Proposals.antt =====
-- The messages that an agent proposes in its answer: `_enqueue_agent_proposal` of
-- orchestrator/coordinator.py.
use luis_puentes.Prelude.{
  String, Bool, true, false, Option, none, some, List, [], ◌∷◌, ◌==◌, ◌||◌, ltb, take, take_chars,
  count_chars, if◌then◌else◌,
}
use luis_puentes.Result.{ok, raise}
use luis_puentes.Models.{
  Json, Fields, field, null, bool, str, arr, obj, Permissions, default_permissions, TaskEnvelope,
  MessageStatus, get_field, truthy,
}
use luis_puentes.Models.Metadata.{to_list}
use luis_puentes.Models.LaneKey.{normalize_lane_key}
use luis_puentes.State.{Store, M, ◌>>=◌, ◌>>◌, pure, gets, utcnow, uuid4, append_event}
use luis_puentes.State.Lanes.{find_lane}
use luis_puentes.State.Messages.{save_message}
use luis_puentes.Coordinator.{is_sensitive}
use luis_puentes.Coordinator.Inbox.{MessageRequest, inbox_send, is_open_lane}

-- `proposal if isinstance(proposal, dict) else {}`
abbrev pub fields_of : Json → Fields
fields_of (obj fs) = fs
fields_of value = Fields.end

-- `str(value)`
abbrev pub text_of : (Json → String) → Option Json → String → String
text_of show none default = default
text_of show (some (str s)) default = s
text_of show (some value) default = show value

unfoldable pub record_rejected_proposal : TaskEnvelope → Json → String → M (Unit {0})
record_rejected_proposal task proposal reason = do
  let item = fields_of proposal
  objective ← gets (λ s. text_of s.show_json (get_field item "objective") "Rejected agent message")
  target ← gets (λ s. text_of s.show_json (get_field item "target") "(invalid)")
  now ← utcnow
  message_id ← uuid4
  workspace ← gets (λ s. s.workspace)
  save_message (record {
    message_id = message_id;
    workspace = workspace;
    sender = task.lane_key;
    target = take_chars 200 target;
    objective = take_chars 4000 objective;
    status = MessageStatus.dead_letter;
    permissions = default_permissions;
    reply_to = some task.task_id;
    evidence = [];
    ttl_seconds = none;
    created_at = now;
    updated_at = now;
    expires_at = none;
    metadata =
        field "source_task_id" (str task.task_id)
          (field "dead_letter_reason" (str reason) (field "agent_proposed" (bool true) Fields.end));
  })
  append_event "message.proposal_rejected" (some "message") (some message_id)
      (field "task_id" (str task.task_id) (field "reason" (str reason) Fields.end))
  pure tt

abbrev pub flag_or : Fields → String → Bool → Bool
flag_or fs key default = elim (get_field fs key) [ none ↦ default | some v ↦ truthy v ]

-- `Permissions.from_dict(data)`
unfoldable pub permissions_from : Fields → Permissions
permissions_from fs = record {
  read = flag_or fs "read" true;
  write_files = flag_or fs "write_files" false;
  external_write = flag_or fs "external_write" false;
  cross_lane_merge = flag_or fs "cross_lane_merge" false;
  destructive = flag_or fs "destructive" false;
}

pub data Verdict : Type 0 where
  refused : String → Verdict
  accepted : (lane_key objective : String) → Verdict

abbrev pub check_target : Store → String → String → Verdict
check_target s target objective = elim (normalize_lane_key target) [
  | raise e ↦ refused "invalid_target_lane"
  | ok lane_key ↦
      (if is_open_lane (find_lane s lane_key)
        then accepted lane_key objective
        else refused "unknown_target_lane")
]

-- A request for permissions: none, or an object that asks for nothing sensitive.
abbrev pub check_permissions : Option Json → Option String
check_permissions none = none
check_permissions (some null) = none
check_permissions (some (obj fs)) =
    if is_sensitive (permissions_from fs) then some "sensitive_permissions" else none
check_permissions (some value) = some "invalid_permissions"

-- A request for a workspace: none, or a path that resolves to this one.
abbrev pub check_workspace : Store → Option Json → Option String
check_workspace s none = none
check_workspace s (some null) = none
check_workspace s (some (str path)) =
    if s.normcase (s.resolve_path path) == s.normcase s.workspace
    then none
    else some "cross_workspace_route"
check_workspace s (some value) = some "cross_workspace_route"

abbrev pub check_item : Store → Fields → String → String → Verdict
check_item s item target objective =
    if ltb 200 (count_chars target) || ltb 4000 (count_chars objective)
    then refused "message_length_exceeded"
    else elim (check_workspace s (get_field item "workspace")) [
      | some reason ↦ refused reason
      | none ↦ elim (check_permissions (get_field item "permissions")) [
        | some reason ↦ refused reason
        | none ↦ check_target s target objective
      ]
    ]

abbrev pub check_texts : Store → Fields → Option Json → Option Json → Verdict
check_texts s item (some (str target)) (some (str objective)) = check_item s item target objective
check_texts s item _ _ = refused "missing_target_or_objective"

-- The checks of `_enqueue_agent_proposal`, in their order.
unfoldable pub judge_proposal : Store → Json → Verdict
judge_proposal s (obj item) =
    check_texts s item (get_field item "target") (get_field item "objective")
judge_proposal s proposal = refused "invalid_message_shape"

-- `[item[:2048] for item in value[:20] if isinstance(item, str)]`
pub pointers : List Json → List String
pointers [] = []
pointers (str s ∷ xs) = take_chars 2048 s ∷ pointers xs
pointers (_ ∷ xs) = pointers xs

abbrev pub evidence_of : Option Json → List String
evidence_of (some (arr items)) = pointers (take 20 (to_list items))
evidence_of _ = []

abbrev pub reply_of : Option Json → String → String
reply_of (some (str s)) task_id = take_chars 200 s
reply_of _ task_id = task_id

-- The message that an accepted proposal becomes: read-only, and not executable.
abbrev pub proposed : TaskEnvelope → Fields → String → String → MessageRequest
proposed task item lane_key objective = record {
  target = lane_key;
  objective = objective;
  sender = task.lane_key;
  permissions = default_permissions;
  reply_to = some (reply_of (get_field item "reply_to") task.task_id);
  evidence = evidence_of (get_field item "evidence");
  ttl_seconds = some 86400;
  metadata =
      field "source_task_id" (str task.task_id) (field "agent_proposed" (bool true) Fields.end);
  executable = false;
}

unfoldable pub enqueue_agent_proposal : TaskEnvelope → Json → M (Option String)
enqueue_agent_proposal task proposal = do
  verdict ← gets (λ s. judge_proposal s proposal)
  elim verdict [
    | refused reason ↦ do record_rejected_proposal task proposal reason; pure none
    | accepted lane_key objective ↦ do
      message ← inbox_send (proposed task (fields_of proposal) lane_key objective)
      pure (some message.message_id)
  ]

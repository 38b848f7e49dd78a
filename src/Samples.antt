-- ===== src/Samples.antt =====
-- A small workspace to run the control plane on: two lanes, a task that writes, and a policy registry.

mod Coordination
mod Storage
mod Decisions
mod Execution
mod Cycles
mod Workbooks
mod Rules
use luis_puentes.Prelude.{
  ℕ, zero, suc, ◌*◌, String, Bool, true, false, Option, none, some, List, [], ◌∷◌,
}
use luis_puentes.Models.{
  Json, Fields, field, num, str, obj, bool, Permissions, default_permissions, TaskEnvelope,
  TaskStatus, MessageEnvelope, MessageStatus, LaneRecord, LaneStatus, ArtifactClaim,
}
use luis_puentes.State.{Store}
use luis_puentes.Policy.{Policy}
use luis_puentes.Rotation.{default_policy}
use luis_puentes.Coordinator.{Config, Mode}

abbrev ids : ℕ → String
ids zero = "id-a"
ids (suc zero) = "id-b"
ids (suc (suc n)) = "id-c"

abbrev pub lane_named : String → LaneRecord
lane_named key = record {
  workspace = "/work";
  lane_key = key;
  status = LaneStatus.idle;
  current_agent_id = none;
  prior_agent_ids = [];
  handover_path = none;
  last_activity = none;
  context_health_score = 100;
  owner = none;
  active_artifact_claims = [];
  model = none;
  config = Fields.end;
  created_at = 1;
  updated_at = 1;
}

abbrev pub writing : Permissions
writing = record default_permissions { write_files = true }

abbrev pub sample_task : TaskEnvelope
sample_task = record {
  task_id = "task-1";
  workspace = "/work";
  lane_key = "ops";
  objective = "Update the ledger";
  sender = "operator";
  target = "lane";
  status = TaskStatus.running;
  permissions = writing;
  idempotency_key = none;
  reply_to = none;
  evidence = [];
  artifacts = "ledger.xlsx" ∷ [];
  spec_id = none;
  ttl_seconds = none;
  created_at = 2;
  updated_at = 2;
  expires_at = none;
  agent_id = none;
  run_id = some "run-1";
  failure_kind = none;
  error_message = none;
  metadata = field "run_owner" (str "old-service") Fields.end;
}

abbrev pub sample_message : MessageEnvelope
sample_message = record {
  message_id = "msg-1";
  workspace = "/work";
  sender = "ops";
  target = "audit";
  objective = "Check the ledger";
  status = MessageStatus.pending;
  permissions = default_permissions;
  reply_to = none;
  evidence = [];
  ttl_seconds = none;
  created_at = 3;
  updated_at = 3;
  expires_at = none;
  metadata = field "executable" (bool false) Fields.end;
}

abbrev pub held_claim : ArtifactClaim
held_claim = record {
  claim_id = "claim-1";
  workspace = "/work";
  artifact_path = "ledger.xlsx";
  lane_key = "ops";
  task_id = some "task-1";
  owner = "service";
  write_capable = true;
  acquired_at = 4;
  expires_at = none;
  released_at = none;
}

abbrev pub sample_store : Store
sample_store = record {
  workspace = "/work";
  lanes = lane_named "ops" ∷ lane_named "audit" ∷ [];
  tasks = sample_task ∷ [];
  messages = sample_message ∷ [];
  claims = held_claim ∷ [];
  approvals = [];
  events = [];
  metrics = [];
  meta = [];
  legacy_imports = [];
  registry = none;
  memory = record {
    paused_lanes = [];
    processed_tasks = 0;
    proposed_routes = 0;
    coordination_held = 0;
  };
  now = λ n. n * 1000;
  clock_reads = 5;
  fresh = ids;
  ids_drawn = 0;
  workspace_hash = λ w. w;
  resolve_path = λ p. p;
  normcase = λ p. p;
  own_action_first = λ action. true;
  show_json = λ v. "value";
}

-- The registry's rule that writing needs approval.
abbrev pub write_policy : Policy
write_policy = record {
  id = "write-files";
  actions = "execute" ∷ [];
  metadata_flag = none;
  permission = some "write_files";
  workspace_scope = none;
  client_isolation = false;
  requires_approval = false;
  write_authorization = true;
  external_write = false;
  destructive = false;
  reason = none;
}

-- The registry's rule that keeps clients apart.
abbrev pub isolation_policy : Policy
isolation_policy = record write_policy {
  id = "client-isolation";
  actions = "*" ∷ [];
  permission = none;
  client_isolation = true;
  write_authorization = false;
}

abbrev pub supervised_config : Config
supervised_config = record {
  mode = Mode.supervised;
  policies = isolation_policy ∷ write_policy ∷ [];
  rotation_policy = default_policy;
  execution_owner = "service";
}

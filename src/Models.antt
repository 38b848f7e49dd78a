-- ===== src/Models.antt =====
-- orchestrator/models.py: statuses as enumerations, dataclasses as records, and the JSON values that
-- the metadata and the lane configuration hold. A time is a number (the ISO texts of one UTC clock are
-- ordered as the times are), a score is in hundredths, and a JSON number is a count.
pub mod LaneKey
pub mod Metadata
use luis_puentes.Prelude.{
  ℕ, String, Bool, true, false, Option, none, some, List, [], ◌∷◌, not, ◌==◌, if◌then◌else◌,
}

pub data TaskStatus : Type 0 where
  queued running awaiting_approval paused completed failed dead_letter expired : TaskStatus

pub data MessageStatus : Type 0 where
  pending routed delivered expired dead_letter : MessageStatus

pub data LaneStatus : Type 0 where
  idle active rotating paused retired : LaneStatus

pub data ApprovalStatus : Type 0 where
  pending approved rejected expired : ApprovalStatus

pub data FailureKind : Type 0 where
  startup run : FailureKind

-- The texts that the database holds: `status.value`.
unfoldable pub task_status_value : TaskStatus → String
task_status_value TaskStatus.queued = "queued"
task_status_value TaskStatus.running = "running"
task_status_value TaskStatus.awaiting_approval = "awaiting_approval"
task_status_value TaskStatus.paused = "paused"
task_status_value TaskStatus.completed = "completed"
task_status_value TaskStatus.failed = "failed"
task_status_value TaskStatus.dead_letter = "dead_letter"
task_status_value TaskStatus.expired = "expired"

unfoldable pub message_status_value : MessageStatus → String
message_status_value MessageStatus.pending = "pending"
message_status_value MessageStatus.routed = "routed"
message_status_value MessageStatus.delivered = "delivered"
message_status_value MessageStatus.expired = "expired"
message_status_value MessageStatus.dead_letter = "dead_letter"

mutual
  pub data Json : Type 0 where
    null : Json
    bool : Bool → Json
    num : ℕ → Json
    str : String → Json
    arr : Items → Json
    obj : Fields → Json

  pub data Items : Type 0 where
    nil : Items
    cons : Json → Items → Items

  pub data Fields : Type 0 where
    end : Fields
    field : String → Json → Fields → Fields

-- `bool(value)`
abbrev pub truthy : Json → Bool
truthy null = false
truthy (bool b) = b
truthy (num ℕ.zero) = false
truthy (num (ℕ.suc n)) = true
truthy (str s) = not (s == "")
truthy (arr Items.nil) = false
truthy (arr (Items.cons x xs)) = true
truthy (obj Fields.end) = false
truthy (obj (Fields.field k v fs)) = true

-- `metadata.get(key)`
unfoldable pub get_field : Fields → String → Option Json
get_field Fields.end key = none
get_field (Fields.field k v fs) key =
    let rest = get_field fs key in if k == key then some v else rest

-- `metadata[key] = value`
unfoldable pub set_field : Fields → String → Json → Fields
set_field Fields.end key value = Fields.field key value Fields.end
set_field (Fields.field k v fs) key value =
    let rest = set_field fs key value in
    if k == key then Fields.field k value fs else Fields.field k v rest

-- `metadata.pop(key, None)`
unfoldable pub pop_field : Fields → String → Fields
pop_field Fields.end key = Fields.end
pop_field (Fields.field k v fs) key =
    let rest = pop_field fs key in if k == key then rest else Fields.field k v rest

pub record Permissions : Type 0 where
  pub read : Bool
  pub write_files : Bool
  pub external_write : Bool
  pub cross_lane_merge : Bool
  pub destructive : Bool

-- `Permissions()`
abbrev pub default_permissions : Permissions
default_permissions = record {
  read = true;
  write_files = false;
  external_write = false;
  cross_lane_merge = false;
  destructive = false;
}

pub record TaskEnvelope : Type 0 where
  pub task_id : String
  pub workspace : String
  pub lane_key : String
  pub objective : String
  pub sender : String
  pub target : String
  pub status : TaskStatus
  pub permissions : Permissions
  pub idempotency_key : Option String
  pub reply_to : Option String
  pub evidence : List String
  pub artifacts : List String
  pub spec_id : Option String
  pub ttl_seconds : Option ℕ
  pub created_at : ℕ
  pub updated_at : ℕ
  pub expires_at : Option ℕ
  pub agent_id : Option String
  pub run_id : Option String
  pub failure_kind : Option FailureKind
  pub error_message : Option String
  pub metadata : Fields

pub record MessageEnvelope : Type 0 where
  pub message_id : String
  pub workspace : String
  pub sender : String
  pub target : String
  pub objective : String
  pub status : MessageStatus
  pub permissions : Permissions
  pub reply_to : Option String
  pub evidence : List String
  pub ttl_seconds : Option ℕ
  pub created_at : ℕ
  pub updated_at : ℕ
  pub expires_at : Option ℕ
  pub metadata : Fields

-- The property `executable`: a missing flag means no.
unfoldable pub executable : MessageEnvelope → Bool
executable message = elim (get_field message.metadata "executable") [
  | none ↦ false
  | some value ↦ truthy value
]

pub record LaneRecord : Type 0 where
  pub workspace : String
  pub lane_key : String
  pub status : LaneStatus
  pub current_agent_id : Option String
  pub prior_agent_ids : List String
  pub handover_path : Option String
  pub last_activity : Option ℕ
  pub context_health_score : ℕ
  pub owner : Option String
  pub active_artifact_claims : List String
  pub model : Option String
  pub config : Fields
  pub created_at : ℕ
  pub updated_at : ℕ

pub record ArtifactClaim : Type 0 where
  pub claim_id : String
  pub workspace : String
  pub artifact_path : String
  pub lane_key : String
  pub task_id : Option String
  pub owner : String
  pub write_capable : Bool
  pub acquired_at : ℕ
  pub expires_at : Option ℕ
  pub released_at : Option ℕ

pub record ApprovalRequest : Type 0 where
  pub approval_id : String
  pub workspace : String
  pub task_id : String
  pub lane_key : String
  pub action : String
  pub reason : String
  pub status : ApprovalStatus
  pub requested_at : ℕ
  pub resolved_at : Option ℕ
  pub resolver : Option String
  pub metadata : Fields

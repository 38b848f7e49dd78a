-- ===== src/Policy.antt =====
-- orchestrator/policy.py: the decision on an action from the registry's policies. A policy is the JSON
-- object with the keys that the code reads; a key that is missing is `none` or `false`.
pub mod Decisions
pub mod Registry
use luis_puentes.Prelude.{
  String, Bool, true, false, Option, none, some, List, [], ◌∷◌, concat, ◌==◌, ◌&&◌, ◌||◌, not,
  if◌then◌else◌, contains,
}
use luis_puentes.Models.{Permissions, TaskEnvelope, Fields, truthy, get_field}

pub record PolicyDecision : Type 0 where
  pub allowed : Bool
  pub requires_approval : Bool
  pub policy_id : String
  pub reason : String

pub record Policy : Type 0 where
  pub id : String
  pub actions : List String
  pub metadata_flag : Option String
  pub permission : Option String
  pub workspace_scope : Option String
  pub client_isolation : Bool
  pub requires_approval : Bool
  pub write_authorization : Bool
  pub external_write : Bool
  pub destructive : Bool
  pub reason : Option String

-- `getattr(permissions, name, False)`
abbrev pub permission_named : Permissions → String → Bool
permission_named p name =
    if name == "read"
    then p.read
    else if name == "write_files"
    then p.write_files
    else if name == "external_write"
    then p.external_write
    else if name == "cross_lane_merge"
    then p.cross_lane_merge
    else if name == "destructive"
    then p.destructive
    else false

-- `when.get("metadata_flag") and not task.metadata.get(when["metadata_flag"])`
abbrev pub flag_missing : Option String → Fields → Bool
flag_missing none metadata = false
flag_missing (some flag) metadata =
    not (flag == "") && elim (get_field metadata flag) [ none ↦ true | some v ↦ not (truthy v) ]

-- `when.get("permission") and not getattr(task.permissions, when["permission"], False)`
abbrev pub permission_missing : Option String → Permissions → Bool
permission_missing none permissions = false
permission_missing (some name) permissions =
    not (name == "") && not (permission_named permissions name)

unfoldable pub policy_matches : Policy → String → TaskEnvelope → Bool
policy_matches policy action task =
    if not (contains policy.actions action) && not (contains policy.actions "*")
    then false
    else if flag_missing policy.metadata_flag task.metadata
    then false
    else if permission_missing policy.permission task.permissions
    then false
    else true

-- `policy.get("workspace_scope") and policy["workspace_scope"] != workspace`
unfoldable pub out_of_scope : Policy → String → Bool
out_of_scope policy workspace = elim policy.workspace_scope [
  | none ↦ false
  | some scope ↦ not (scope == "") && not (scope == workspace)
]

abbrev pub reason_or : Option String → String → String
reason_or none default = default
reason_or (some reason) default = reason

-- One round of the loop: it returns a decision, or goes on with the decision kept so far.
pub data Round : Type 0 where
  stop : PolicyDecision → Round
  keep_on : Option PolicyDecision → Round

abbrev pub needs_approval : Policy → String → PolicyDecision
needs_approval policy reason = record {
  allowed = false;
  requires_approval = true;
  policy_id = policy.id;
  reason = reason;
}

abbrev pub cross_workspace : Policy → PolicyDecision
cross_workspace policy = record {
  allowed = false;
  requires_approval = false;
  policy_id = policy.id;
  reason = "Cross-workspace action blocked by client isolation policy";
}

abbrev pub is_write_action : String → Bool
is_write_action action = action == "write_files" || action == "execute"

-- The checks of a policy that is in scope and matches, below client isolation.
unfoldable pub restrict :
    Policy → String → TaskEnvelope → Option PolicyDecision → Option PolicyDecision
restrict policy action task decision =
    if policy.write_authorization && is_write_action action
    then (if task.permissions.write_files
        then some (
            needs_approval policy
              (reason_or policy.reason "Write authorization requires supervised approval"))
        else if action == "write_files"
        then some (record {
          allowed = false;
          requires_approval = policy.requires_approval;
          policy_id = policy.id;
          reason = "Write authorization required";
        })
        else decision)
    else if policy.external_write && not task.permissions.external_write
    then some (needs_approval policy "External write requires approval")
    else if policy.destructive && not task.permissions.destructive
    then some (needs_approval policy "Destructive action requires approval")
    else if policy.requires_approval
    then some (
        needs_approval policy (
          reason_or policy.reason
            (concat ("Action " ∷ action ∷ " requires supervised approval" ∷ []))))
    else decision

unfoldable pub consider : Policy → String → TaskEnvelope → String → Option PolicyDecision → Round
consider policy action task workspace decision =
    if out_of_scope policy workspace
    then keep_on decision
    else if not (policy_matches policy action task)
    then keep_on decision
    else if policy.client_isolation && not (task.workspace == workspace)
    then stop (cross_workspace policy)
    else if policy.client_isolation
    then keep_on decision
    else keep_on (restrict policy action task decision)

abbrev pub default_decision : PolicyDecision
default_decision = record {
  allowed = true;
  requires_approval = false;
  policy_id = "default";
  reason = "No matching restrictive policy";
}

abbrev pub or_default : Option PolicyDecision → PolicyDecision
or_default none = default_decision
or_default (some decision) = decision

unfoldable pub evaluate_from :
    List Policy → String → TaskEnvelope → String → Option PolicyDecision → PolicyDecision
evaluate_from [] action task workspace decision = or_default decision
evaluate_from (policy ∷ policies) action task workspace decision =
    elim (consider policy action task workspace decision) [
      | stop d ↦ d
      | keep_on next ↦ evaluate_from policies action task workspace next
    ]

unfoldable pub evaluate_action : List Policy → String → TaskEnvelope → String → PolicyDecision
unfolding evaluate_from
evaluate_action policies action task workspace = evaluate_from policies action task workspace none

-- ===== src/Policy/Registry.antt =====
-- policies/registry.json: the policies that the repository ships, and what they decide on execution.
use luis_puentes.Prelude.{
  String, ◌≡◌, Bool, true, false, none, some, List, [], ◌∷◌, ◌==◌, ◌&&◌, not, arith,
}
use luis_puentes.Models.{TaskEnvelope, get_field, truthy}
use luis_puentes.Policy.{
  Policy, policy_matches, out_of_scope, restrict, consider, evaluate_from, evaluate_action,
}

-- A policy with an id and actions alone.
abbrev plain : String → List String → Policy
plain id actions = record {
  id = id;
  actions = actions;
  metadata_flag = none;
  permission = none;
  workspace_scope = none;
  client_isolation = false;
  requires_approval = false;
  write_authorization = false;
  external_write = false;
  destructive = false;
  reason = none;
}

abbrev pub shipped_policies : List Policy
shipped_policies =
    record (plain "client_isolation" ("*" ∷ [])) { client_isolation = true }
    ∷ record (plain "write_authorization" ("write_files" ∷ "execute" ∷ [])) {
      permission = some "write_files";
      write_authorization = true;
      requires_approval = true;
      reason = some "Shared artifact write requires supervised approval";
    }
    ∷ record (plain "external_write" ("external_write" ∷ [])) {
      external_write = true;
      requires_approval = true;
      reason = some "External write blocked pending approval";
    }
    ∷ record (plain "stale_source" ("execute" ∷ "write_files" ∷ [])) {
      metadata_flag = some "stale_source";
      requires_approval = true;
      reason = some "Stale or missing canonical source";
    }
    ∷ record (plain "number_change_lineage" ("decision_log_write" ∷ [])) {
      requires_approval = true;
      reason = some "Number change requires supervised review";
    }
    ∷ plain "model_selection" ("create_agent" ∷ "resume_agent" ∷ "rotate" ∷ [])
    ∷ record (plain "subagent_restrictions" ("delegate_subagent" ∷ [])) {
      requires_approval = true;
      reason = some "Subagent delegation requires coordinator approval";
    }
    ∷ record (plain "reuse_gate"
        ("adopt_dependency" ∷ "adopt_external_design" ∷ "adopt_external_component" ∷ [])) {
          requires_approval = true;
          reason = some "Third-party reuse requires documented compliance and security review";
        }
    ∷ []

-- Whether a task may run on sources that are known to be stale.
abbrev pub is_stale_source : TaskEnvelope → Bool
is_stale_source task = elim (get_field task.metadata "stale_source") [
  | none ↦ false
  | some v ↦ truthy v
]

-- Under the shipped policies a task runs without approval exactly if it is of this workspace, writes no
-- files, and is not marked as working on a stale source. Its other permissions play no part, not even
-- external_write.
pub shipped_policies-execute :
    (task : TaskEnvelope) (workspace : String)
    → (evaluate_action shipped_policies "execute" task workspace).allowed ≡ (
        task.workspace == workspace
        && not task.permissions.write_files
        && not (is_stale_source task))
unfolding evaluate_action evaluate_from consider restrict policy_matches out_of_scope
shipped_policies-execute task workspace = ground arith

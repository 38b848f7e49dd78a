-- ===== src/Context/Prompt.antt =====
-- `render_task_prompt` of orchestrator/context.py: the JSON that governs a run.
use luis_puentes.Prelude.{String, none, some, [], ◌∷◌}
use luis_puentes.Models.{
  Json, Fields, field, null, bool, str, obj, Permissions, TaskEnvelope, get_field,
}
use luis_puentes.State.{M, ◌>>=◌, pure, lift}
use luis_puentes.Context.{
  Documents, ContextEnvelope, text_or_null, array, texts, envelope_to_dict, spec_or_empty,
}

-- `permissions.to_dict()`
abbrev pub permissions_to_dict : Permissions → Fields
permissions_to_dict p = field "read" (bool p.read) (
    field "write_files" (bool p.write_files) (
      field "external_write" (bool p.external_write) (
        field "cross_lane_merge" (bool p.cross_lane_merge)
          (field "destructive" (bool p.destructive) Fields.end))))

abbrev pub task_section : TaskEnvelope → Fields
task_section t = field "task_id" (str t.task_id) (
    field "objective" (str t.objective) (
      field "sender" (str t.sender) (
        field "target" (str t.target) (
          field "permissions" (obj (permissions_to_dict t.permissions)) (
            field "evidence_pointers" (array (texts t.evidence)) (
              field "artifact_paths" (array (texts t.artifacts)) (
                field "reply_to" (text_or_null t.reply_to) (
                  field "idempotency_key" (text_or_null t.idempotency_key)
                    (field "metadata" (obj t.metadata) Fields.end)))))))))

-- `spec.get(key, default)`
abbrev pub spec_value : Fields → String → Json → Json
spec_value spec key default = elim (get_field spec key) [ none ↦ default | some v ↦ v ]

abbrev pub spec_section : Fields → Fields
spec_section spec = field "id" (spec_value spec "id" null) (
    field "version" (spec_value spec "version" null) (
      field "objective" (spec_value spec "objective" null) (
        field "kpi" (spec_value spec "kpi" (array [])) (
          field "work_graph" (spec_value spec "work_graph" (array [])) (
            field "decision_rights" (spec_value spec "decision_rights" (obj Fields.end)) (
              field "controls" (spec_value spec "controls" (obj Fields.end)) (
                field "dependencies" (spec_value spec "dependencies" (obj Fields.end)) (
                  field "integrations" (spec_value spec "integrations" (obj Fields.end)) (
                    field "evidence" (spec_value spec "evidence" (obj Fields.end)) (
                      field "failure_scenarios" (spec_value spec "failure_scenarios" (array [])) (
                        field "policy_ids" (spec_value spec "policy_ids" (array []))
                          Fields.end)))))))))))

abbrev pub supervision : Fields
supervision =
    field "instructions"
      (array (
        texts (
          "Operate only inside the supplied workspace and context envelope."
          ∷ "Stop before any file write, external-system write, cross-lane merge, destructive action, or action outside the task permissions."
          ∷ "Do not claim or perform an approval-gated action unless the task metadata records coordinator approval."
          ∷ "Return evidence and artifact pointers through the coordinator; do not message another agent directly."
          ∷ "If a canonical source is missing, stale, duplicated, or conflicting, stop and report the issue."
          ∷ [])))
      (field "approval_required_for"
        (array (
          texts (
            "file_write" ∷ "external_write" ∷ "cross_lane_merge" ∷ "destructive_action"
            ∷ "out_of_envelope_action" ∷ [])))
        Fields.end)

abbrev pub response_contract : Fields
response_contract = field "format" (str "json") (
    field "required" (array (texts ("summary" ∷ "status" ∷ "evidence" ∷ "proposed_messages" ∷ [])))
      (field "schema"
        (obj (
          field "summary" (str "string") (
            field "status" (str "completed|partial|blocked|failed") (
              field "evidence" (array (texts ("string pointer" ∷ []))) (
                field "proposed_messages"
                  (array (
                    obj (
                      field "target" (str "existing lane key") (
                        field "objective" (str "bounded read-only objective") (
                          field "evidence" (array (texts ("optional string pointer" ∷ [])))
                            (field "reply_to" (str "optional message or task id") Fields.end))))
                    ∷ []))
                  Fields.end)))))
        (field "constraints"
          (array (
            texts (
              "Do not include workspace; routing is limited to this workspace."
              ∷ "Proposed messages are read-only and cannot request sensitive permissions."
              ∷ "Unknown target lanes are rejected and dead-lettered."
              ∷ "Return no more than 8 proposed messages." ∷ [])))
          Fields.end)))

unfoldable pub prompt_payload : TaskEnvelope → ContextEnvelope → Fields → Fields
prompt_payload task envelope spec = field "protocol" (str "cursor-local-orchestrator-task/v1") (
    field "context_envelope" (obj (envelope_to_dict envelope)) (
      field "task" (obj (task_section task)) (
        field "execution_spec" (obj (spec_section spec)) (
          field "supervision" (obj supervision)
            (field "response_contract" (obj response_contract) Fields.end)))))

unfoldable pub render_task_prompt : Documents → TaskEnvelope → ContextEnvelope → M String
render_task_prompt docs task envelope = do
  spec ← lift (spec_or_empty docs task.spec_id)
  pure (docs.dumps (obj (prompt_payload task envelope spec)))

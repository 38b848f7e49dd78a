-- ===== src/Samples/Coordination.antt =====
-- Submission, delegation, routing and approvals on the sample workspace.
use luis_puentes.Prelude.{
  String, ◌≡◌, refl, true, false, none, some, [], ◌∷◌, arith, eq_iff, count_chars, concat, Option,
}
use luis_puentes.Result.{ok}
use luis_puentes.Models.{
  Json, Fields, field, str, bool, obj, default_permissions, executable, TaskEnvelope,
  MessageEnvelope, ApprovalRequest, ApprovalStatus, get_field, set_field, pop_field, Items, arr,
}
use luis_puentes.Models.Metadata.{list_field}
use luis_puentes.Models.LaneKey.{normalize_lane_key}
use luis_puentes.State.{Store, utcnow, uuid4, append_event}
use luis_puentes.State.Lanes.{find_lane, ensure_lane, get_lane, export_lane_registry}
use luis_puentes.State.Tasks.{save_task, get_task_by_idempotency, get_task}
use luis_puentes.State.Messages.{upsert_message, save_message, get_message}
use luis_puentes.Coordinator.{TaskRequest, submit_task, find_existing, create_task}
use luis_puentes.Coordinator.Submission.{new_task, submit_task-once}
use luis_puentes.Coordinator.Inbox.{is_open_lane}
use luis_puentes.Coordinator.Inbox.Proposals.{
  fields_of, proposed, judge_proposal, enqueue_agent_proposal,
}
use luis_puentes.Coordinator.Routing.{
  request_of, route_message, execute_message, after_submit, mark_routed, sync_source_message,
  settle_message,
}
use luis_puentes.Coordinator.Routing.Held.{
  sent_message, route_message-routed, enqueue_agent_proposal-accepted,
}
use luis_puentes.State.Approvals.{get_approval}
use luis_puentes.Coordinator.Supervision.{resolve, approve}
use luis_puentes.Coordinator.Supervision.Approve.{requeued, approve-done}
use luis_puentes.Samples.{sample_store, sample_task, sample_message, supervised_config, writing}

abbrev request : TaskRequest
request = record {
  lane_key = " audit ";
  objective = "Reconcile";
  sender = "operator";
  target = "lane";
  permissions = writing;
  idempotency_key = some "month-end";
  reply_to = none;
  artifacts = "ledger.xlsx" ∷ [];
  evidence = [];
  spec_id = none;
  ttl_seconds = some 60;
  metadata = Fields.end;
}

submit_task-once_example :
    let t = (submit_task supervised_config request sample_store).1 in
    ((submit_task supervised_config request sample_store).0
      ≡ ok (new_task request "audit" sample_store))
    × (t.tasks ≡ sample_task ∷ new_task request "audit" sample_store ∷ [])
    × (submit_task supervised_config (record request { objective = "Again" }) t
        ≡ (ok (new_task request "audit" sample_store), t))
unfolding normalize_lane_key
submit_task-once_example =
    submit_task-once supervised_config request (record request { objective = "Again" }) "month-end"
      "audit" sample_store refl refl refl refl (ground (arith, eq_iff "month-end" "")) refl refl
      refl

-- The message that asks a lane to work.
abbrev marked : MessageEnvelope
marked = record sample_message { metadata = field "executable" (bool true) Fields.end }

-- The store that routes it: its one message is the marked one.
abbrev marked_store : Store
marked_store = record sample_store { messages = marked ∷ [] }

abbrev marked_task : TaskEnvelope
marked_task =
    new_task (request_of marked "audit" 5000) "audit" (record marked_store { clock_reads = 6 })

route_message-routed_example :
    (executable marked ≡ true)
    × (target : String) × (normalize_lane_key "audit" ≡ ok target)
    × (is_open_lane (find_lane marked_store target) ≡ true)
unfolding route_message execute_message after_submit mark_routed sync_source_message settle_message
    submit_task create_task find_existing get_task_by_idempotency normalize_lane_key find_lane
    ensure_lane get_lane save_task export_lane_registry append_event utcnow uuid4 save_message
    get_message executable get_field set_field concat
route_message-routed_example =
    route_message-routed supervised_config marked marked_task marked_store
      (route_message supervised_config marked marked_store).1 refl

abbrev sample_proposal : Json
sample_proposal =
    obj (field "target" (str "audit") (field "objective" (str "Check the total") Fields.end))

enqueue_agent_proposal-accepted_example :
    let m =
      sent_message
        (proposed sample_task (fields_of sample_proposal) "audit" "Check the total")
        sample_store in
    let t = (enqueue_agent_proposal sample_task sample_proposal sample_store).1 in
    ((enqueue_agent_proposal sample_task sample_proposal sample_store).0 ≡ ok (some m.message_id))
    × (t.messages ≡ upsert_message m sample_store.messages)
    × (t.tasks ≡ sample_store.tasks)
    × (m.permissions ≡ default_permissions)
    × (executable m ≡ false)
unfolding judge_proposal get_field normalize_lane_key find_lane count_chars
enqueue_agent_proposal-accepted_example =
    enqueue_agent_proposal-accepted sample_task sample_proposal sample_store "audit"
      "Check the total" refl

abbrev execute_approval : ApprovalRequest
execute_approval = record {
  approval_id = "approval-1";
  workspace = "/work";
  task_id = "task-1";
  lane_key = "ops";
  action = "execute";
  reason = "Write permission requires authorization";
  status = ApprovalStatus.pending;
  requested_at = 3;
  resolved_at = none;
  resolver = none;
  metadata = Fields.end;
}

-- The sample workspace where the request waits.
abbrev asking_store : Store
asking_store = record sample_store { approvals = execute_approval ∷ [] }

approve-done_example :
    let (result, t) = approve "approval-1" "operator" asking_store in
    (result ≡ ok (resolve execute_approval ApprovalStatus.approved "operator" 5000))
    × ((get_approval "approval-1" t).0
        ≡ ok (some (resolve execute_approval ApprovalStatus.approved "operator" 5000)))
    × ((get_task "task-1" t).0 ≡ ok (some (requeued true execute_approval sample_task [] 6000)))
unfolding normalize_lane_key list_field get_field pop_field
approve-done_example =
    approve-done "approval-1" "operator" "ops" asking_store execute_approval sample_task [] refl
      refl refl refl

-- An answer with one proposal, whatever the text.
abbrev sample_loads : String → Option Json
sample_loads text = some (
    obj (
      field "summary" (str text) (
        field "status" (str "completed") (
          field "evidence" (arr Items.nil)
            (field "proposed_messages" (arr (Items.cons sample_proposal Items.nil)) Fields.end)))))

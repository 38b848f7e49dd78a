-- ===== src/Coordinator/Supervision/Approve.antt =====
-- `approve` from end to end: the task goes back into the queue with what was granted.
use luis_puentes.Prelude.{
  Bool, true, [], ◌∷◌, ◌==◌, any, first-update_where, ℕ, suc, String, ◌≡◌, refl, some, List, first,
  arith, ap, ◌∙◌, subst, sym, first-passes, eq_iff,
}
use luis_puentes.Result.{ok}
use luis_puentes.Models.{
  Json, arr, TaskEnvelope, TaskStatus, ApprovalRequest, ApprovalStatus, pop_field, set_field,
}
use luis_puentes.Models.Metadata.{list_field, of_list}
use luis_puentes.Models.LaneKey.{normalize_lane_key}
use luis_puentes.State.{Store, proceed, pure, ◌>>◌, utcnow, uuid4, append_event, record_metric}
use luis_puentes.State.Tasks.{has_own_id, overwrite_task, save_task, get_task}
use luis_puentes.State.Tasks.Saved.{save_task-resaved, get_task-resaved}
use luis_puentes.State.Approvals
use luis_puentes.State.Approvals.{overwrite_approval, save_approval, get_approval}
use luis_puentes.Coordinator.Supervision.{grant, release_task, resolve, approve_found, approve}

-- The task that an approval puts back into the queue, at the time that it does so.
abbrev pub requeued : Bool → ApprovalRequest → TaskEnvelope → List Json → ℕ → TaskEnvelope
requeued own_first approval task actions now = record task {
  status = TaskStatus.queued;
  metadata =
      set_field (pop_field task.metadata "pending_approval_id") "approved_actions"
        (arr (of_list (grant own_first approval task actions)));
  updated_at = now;
}

release_task_lem :
    (approval : ApprovalRequest) (task : TaskEnvelope) (actions : List Json) (n : String)
    (s : Store)
    → list_field (pop_field task.metadata "pending_approval_id") "approved_actions" ≡ ok actions
    → release_task approval task s
      ≡ (save_task (
              requeued
                (s.own_action_first approval.action)
                approval
                task
                actions
                (s.now s.clock_reads))
            >> pure tt)
          (record s { clock_reads = suc s.clock_reads })
unfolding release_task utcnow
release_task_lem approval task actions n s listed = ground (arith, listed)

-- `approve_found` between its reading of the clock and the metric: the task's row is replaced.
approve_found_lem :
    (approval : ApprovalRequest) (resolver n : String) (s : Store) (task : TaskEnvelope)
    (actions : List Json)
    → first (has_own_id s.workspace approval.task_id) s.tasks ≡ some task
    → first (has_own_id s.workspace task.task_id) s.tasks ≡ some task
    → normalize_lane_key task.lane_key ≡ ok n
    → list_field (pop_field task.metadata "pending_approval_id") "approved_actions" ≡ ok actions
    → let now = s.now (suc s.clock_reads) in
      let (result, t) = approve_found approval resolver s in
      (result ≡ ok (resolve approval ApprovalStatus.approved resolver (s.now s.clock_reads)))
      × ((get_task task.task_id t).0
          ≡ ok (some (requeued (s.own_action_first approval.action) approval task actions now)))
      × ((id : String)
          → (get_approval id t).0
            ≡ (get_approval id
                (save_approval
                  (resolve approval ApprovalStatus.approved resolver (s.now s.clock_reads))
                  s).1).0)
unfolding approve_found save_approval get_approval utcnow record_metric append_event uuid4 get_task
    resolve overwrite_task
approve_found_lem approval resolver n s task actions found row key listed =
    let resolved = resolve approval ApprovalStatus.approved resolver (s.now s.clock_reads) in
    let s1 : Store = (save_approval resolved (record s { clock_reads = suc s.clock_reads })).1 in
    let s2 : Store = record s1 { clock_reads = suc (suc s.clock_reads) } in
    let fresh : TaskEnvelope =
      requeued (s.own_action_first approval.action) approval task actions
        (s.now (suc s.clock_reads)) in
    let released = release_task_lem resolved task actions n s1 listed in
    let saved = save_task-resaved fresh n s2 task key row in
    let read = ap (λ p. p.0) (get_task-resaved fresh s2 task row) in
    rw (found, released ∙ ap (λ p. proceed p.0 (λ _. pure tt) p.1) saved) (refl, read, λ id. refl)

task_id-found :
    (s : Store) (id : String) (task : TaskEnvelope)
    → first (has_own_id s.workspace id) s.tasks ≡ some task
    → task.task_id ≡ id
task_id-found s id task h =
    ground (arith, first-passes (has_own_id s.workspace id) s.tasks task h, eq_iff task.task_id id)

approval-any :
    (w id : String) (rows : List ApprovalRequest) (row : ApprovalRequest)
    → first (Approvals.has_own_id w id) rows ≡ some row
    → any (Approvals.has_id id) rows ≡ true
approval-any w id [] row h = cc
approval-any w id (r ∷ rows) row h = ground (arith, approval-any w id rows row)

get_approval-saved :
    (resolver : String) (now : ℕ) (s : Store) (approval : ApprovalRequest)
    → first (Approvals.has_own_id s.workspace approval.approval_id) s.approvals ≡ some approval
    → let resolved = resolve approval ApprovalStatus.approved resolver now in
      (get_approval approval.approval_id (save_approval resolved s).1).0 ≡ ok (some resolved)
unfolding get_approval save_approval overwrite_approval resolve
get_approval-saved resolver now s approval asked =
    let resolved = resolve approval ApprovalStatus.approved resolver now in
    rw (approval-any s.workspace approval.approval_id s.approvals approval asked) (
      ap (λ o. ok o)
        (first-update_where (Approvals.has_own_id s.workspace approval.approval_id)
          (Approvals.has_id approval.approval_id) (overwrite_approval resolved) s.approvals approval
          (λ y h. ground arith) (λ y. refl) asked))

-- An approval that is resolved and saved is read back resolved.
get_approval-resolved :
    (id resolver : String) (now : ℕ) (s : Store) (approval : ApprovalRequest)
    → first (Approvals.has_own_id s.workspace id) s.approvals ≡ some approval
    → let resolved = resolve approval ApprovalStatus.approved resolver now in
      (get_approval id (save_approval resolved s).1).0 ≡ ok (some resolved)
get_approval-resolved id resolver now s approval asked =
    let resolved = resolve approval ApprovalStatus.approved resolver now in
    let own : (approval.approval_id == id) ≡ true =
      ground
        (arith, first-passes (Approvals.has_own_id s.workspace id) s.approvals approval asked) in
    let same : approval.approval_id ≡ id = (eq_iff approval.approval_id id).0 own in
    subst (λ i. (get_approval i (save_approval resolved s).1).0 ≡ ok (some resolved)) same
      (get_approval-saved resolver now s approval (
        subst (λ i. first (Approvals.has_own_id s.workspace i) s.approvals ≡ some approval)
          (sym same) asked))

-- Approving a request whose task is there resolves it and puts the task back into the queue: the
-- stored request reads back as approved by the resolver; and read back, the task is queued without its pending approval, and its approved actions are those it had, with the
-- ones that the approval grants, in the order in which the set of them is walked. The task's lane key must be one that can be normalized, and its approved
-- actions a list.
pub approve-done :
    (approval_id resolver n : String) (s : Store) (approval : ApprovalRequest) (task : TaskEnvelope)
    (actions : List Json)
    → first (Approvals.has_own_id s.workspace approval_id) s.approvals ≡ some approval
    → first (has_own_id s.workspace approval.task_id) s.tasks ≡ some task
    → normalize_lane_key task.lane_key ≡ ok n
    → list_field (pop_field task.metadata "pending_approval_id") "approved_actions" ≡ ok actions
    → let now = s.now (suc s.clock_reads) in
      let (result, t) = approve approval_id resolver s in
      (result ≡ ok (resolve approval ApprovalStatus.approved resolver (s.now s.clock_reads)))
      × ((get_approval approval_id t).0
          ≡ ok (some (resolve approval ApprovalStatus.approved resolver (s.now s.clock_reads))))
      × ((get_task approval.task_id t).0
          ≡ ok (some (requeued (s.own_action_first approval.action) approval task actions now)))
unfolding approve get_approval
approve-done approval_id resolver n s approval task actions asked found key listed =
    let same = task_id-found s approval.task_id task found in
    let (result, read, kept) =
      approve_found_lem approval resolver n s task actions found
        (subst (λ id. first (has_own_id s.workspace id) s.tasks ≡ some task) (sym same) found) key
        listed in
    rw asked (
      result,
      kept approval_id
          ∙ get_approval-resolved approval_id resolver (s.now s.clock_reads) s approval asked,
      subst
          (λ id.
            (get_task id (approve_found approval resolver s).1).0
            ≡ ok (
                some (
                  requeued (s.own_action_first approval.action) approval task actions
                    (s.now (suc s.clock_reads)))))
          same read,
    )

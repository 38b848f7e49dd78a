-- ===== src/Coordinator/Execution/Gates.antt =====
-- What the gates before a run settle: the runtime is not called, and no lock is taken.
use luis_puentes.Prelude.{
  ℕ, suc, String, ◌≡◌, refl, ap, true, false, none, some, List, first, ◌&&◌, ◌||◌, arith,
}
use luis_puentes.Result.{Result, ok, raise}
use luis_puentes.Models.{
  Json, Fields, str, TaskEnvelope, TaskStatus, ApprovalRequest, ApprovalStatus, get_field,
  set_field,
}
use luis_puentes.Models.Metadata.{get-set_field}
use luis_puentes.Models.LaneKey.{normalize_lane_key}
use luis_puentes.State.{Store, M, proceed, ◌>>=◌, pure, utcnow, uuid4, append_event}
use luis_puentes.State.Tasks.{has_own_id, overwrite_task, get_task}
use luis_puentes.State.Tasks.Saved.{save_task-resaved, get_task-resaved}
use luis_puentes.State.Approvals.{save_approval}
use luis_puentes.Policy.{evaluate_action}
use luis_puentes.Agents.{Host}
use luis_puentes.Coordinator.{Config, is_read_only}
use luis_puentes.Coordinator.Supervision.{request_approval}
use luis_puentes.Coordinator.Execution.{
  fail_task, read_back, ask_approval, approved_actions, needs, check_gates, run_past, execute_task,
}

-- The task that waits for an approval.
abbrev pub waiting : TaskEnvelope → String → ℕ → TaskEnvelope
waiting task approval_id now = record task {
  status = TaskStatus.awaiting_approval;
  updated_at = now;
  metadata = set_field task.metadata "pending_approval_id" (str approval_id);
}

ask_approval-waiting :
    (task : TaskEnvelope) (action reason n : String) (s : Store) (row : TaskEnvelope)
    → normalize_lane_key task.lane_key ≡ ok n
    → first (has_own_id s.workspace task.task_id) s.tasks ≡ some row
    → let (r, t) = ask_approval task action reason s in
      (r ≡ ok (overwrite_task (waiting task (s.fresh s.ids_drawn) (s.now (suc s.clock_reads))) row))
      × (t.claims ≡ s.claims)
unfolding ask_approval request_approval read_back save_approval utcnow uuid4 append_event
    overwrite_task get_task
ask_approval-waiting task action reason n s row key old =
    let fresh : TaskEnvelope = waiting task (s.fresh s.ids_drawn) (s.now (suc s.clock_reads)) in
    let asked : ApprovalRequest = record {
      approval_id = s.fresh s.ids_drawn;
      workspace = s.workspace;
      task_id = task.task_id;
      lane_key = task.lane_key;
      action = action;
      reason = reason;
      status = ApprovalStatus.pending;
      requested_at = s.now s.clock_reads;
      resolved_at = none;
      resolver = none;
      metadata = Fields.end;
    } in
    let s1 : Store =
      (save_approval asked
        (record s { ids_drawn = suc s.ids_drawn; clock_reads = suc s.clock_reads })).1 in
    let s2 : Store = record s1 { clock_reads = suc (suc s.clock_reads) } in
    let saved : TaskEnvelope = record fresh { lane_key = n } in
    rw (save_task-resaved fresh n s2 row key old) (
      ap (λ p. (proceed p.0 (λ found. pure (elim found [ none ↦ saved | some r ↦ r ])) s2).0)
          (get_task-resaved fresh s2 row old),
      refl,
    )

proceed-IsSettled :
    (host : Host) (config : Config) (task : TaskEnvelope) (r : Result TaskEnvelope) (s : Store)
    → proceed
        (proceed r (λ x. pure (some x)) s).0
        (run_past host config task)
        (proceed r (λ x. pure (some x)) s).1
      ≡ (r, s)
proceed-IsSettled host config task (ok done) s = refl
proceed-IsSettled host config task (raise e) s = refl

-- A gate that settles the task is the whole run.
execute_task-IsSettled :
    (host : Host) (config : Config) (task : TaskEnvelope) (s : Store) (m : M TaskEnvelope)
    → check_gates config task s ≡ (m >>= λ x. pure (some x)) s
    → execute_task host config task s ≡ m s
unfolding execute_task
execute_task-IsSettled host config task s m h =
    rw h (proceed-IsSettled host config task (m s).0 (m s).1)

-- Over its gates a run goes in this order: a read-only coordinator fails a task that writes; a task that
-- may not execute fails; one that needs an approval for it waits for that; and a task that writes waits
-- for an approval of its writes. The runtime has no part in any of them, and no artifact is locked.
-- The approved actions of the task must be a list of what can be hashed.
pub execute_task-gated :
    (host : Host) (config : Config) (task : TaskEnvelope) (s : Store) (approved : List Json)
    → approved_actions task ≡ ok approved
    → let execute = evaluate_action config.policies "execute" task s.workspace in
      let write = evaluate_action config.policies "write_files" task s.workspace in
      let read_only = is_read_only config.mode && task.permissions.write_files in
      (read_only ≡ true
        → execute_task host config task s
          ≡ fail_task task "Read-only mode denied write-capable task" "read_only_denial" s)
      × (read_only ≡ false
          → execute.allowed ≡ false
          → execute.requires_approval ≡ false
          → execute_task host config task s ≡ fail_task task execute.reason "policy_denial" s)
      × (read_only ≡ false
          → needs execute approved "execute" ≡ true
          → execute_task host config task s ≡ ask_approval task "execute" execute.reason s)
      × (read_only ≡ false
          → task.permissions.write_files ≡ true
          → (execute.allowed || execute.requires_approval) ≡ true
          → needs execute approved "execute" ≡ false
          → needs write approved "write_files" ≡ true
          → execute_task host config task s ≡ ask_approval task "write_files" write.reason s)
unfolding check_gates
execute_task-gated host config task s approved given = (
  λ e. execute_task-IsSettled host config task s (fail_task task _ "read_only_denial") (rw e refl),
  λ e a r.
      execute_task-IsSettled host config task s (fail_task task _ "policy_denial")
        (rw (e, given, a, r) refl),
  λ e n.
      execute_task-IsSettled host config task s (ask_approval task "execute" _)
        (ground (arith, given)),
  λ e w a n m.
      execute_task-IsSettled host config task s (ask_approval task "write_files" _)
        (ground (arith, given)),
)

-- A task that the mode lets run, and whose execution needs an approval that is not among its approved
-- actions, is left waiting, with the request noted in its row; its run takes no lock. Its approved actions
-- must be a list of what can be hashed, its row be there, and its lane key be one that can be normalized.
pub execute_task-waits :
    (host : Host) (config : Config) (task : TaskEnvelope) (s : Store) (approved : List Json)
    (n : String) (row : TaskEnvelope)
    → (is_read_only config.mode && task.permissions.write_files) ≡ false
    → approved_actions task ≡ ok approved
    → needs (evaluate_action config.policies "execute" task s.workspace) approved "execute" ≡ true
    → normalize_lane_key task.lane_key ≡ ok n
    → first (has_own_id s.workspace task.task_id) s.tasks ≡ some row
    → let (r, t) = execute_task host config task s in
      (done : TaskEnvelope) × (r ≡ ok done)
      × (done.status ≡ TaskStatus.awaiting_approval)
      × (get_field done.metadata "pending_approval_id" ≡ some (str (s.fresh s.ids_drawn)))
      × (t.claims ≡ s.claims)
unfolding overwrite_task
execute_task-waits host config task s approved n row mode given need key old =
    let reason = (evaluate_action config.policies "execute" task s.workspace).reason in
    let gated = (execute_task-gated host config task s approved given).2 mode need in
    let (asked, kept) = ask_approval-waiting task "execute" reason n s row key old in
    rw gated (
      _,
      asked,
      refl,
      get-set_field task.metadata "pending_approval_id" "pending_approval_id"
          (str (s.fresh s.ids_drawn)),
      kept,
    )

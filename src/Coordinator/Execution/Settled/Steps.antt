-- ===== src/Coordinator/Execution/Settled/Steps.antt =====
-- The steps of a run that return leave no row of the task running.
use luis_puentes.Prelude.{suc, String, ◌≡◌, refl, ap, ◌∙◌, Bool, false, Option, none, some, List}
use luis_puentes.Result.{Failure}
use luis_puentes.Models.{Fields, TaskEnvelope, ArtifactClaim}
use luis_puentes.State.{Store, M, ◌>>=◌, utcnow, uuid4, append_event, record_metric}
use luis_puentes.State.Frames.{On, append_event-On, record_metric-On}
use luis_puentes.State.Returns.{Returning, returned, returns, >>=-Returning, kept-Returning}
use luis_puentes.State.Tasks.{save_task}
use luis_puentes.State.Tasks.Saved.{IsSaveOf, save_task-IsSaveOf, save-id}
use luis_puentes.Agents.{Host}
use luis_puentes.Coordinator.Supervision.{request_approval}
use luis_puentes.Coordinator.Execution.{
  failed_at, fail_task, read_back, ask_approval, startup_failed, fail_startup, message_of,
  handle_by, handle,
}
use luis_puentes.State.Approvals.{save_approval}
use luis_puentes.Coordinator.Execution.Gates.{waiting}
use luis_puentes.Coordinator.Execution.Attempt.{startup_message}
use luis_puentes.Coordinator.Execution.Settled.{
  is_running, IsCalm, save_task-IsCalm, read_back-IsSettled,
}

-- The task is not running, and neither is its row.
abbrev pub IsSettled : String → TaskEnvelope → Store → Type 0
IsSettled id task s = (is_running task.status ≡ false) × IsCalm id s.tasks

abbrev pub OnCalm : String → List TaskEnvelope → List ArtifactClaim → String → Type 0
OnCalm id tasks claims workspace = IsCalm id tasks

-- A save that returns, and a rest that keeps the tasks.
saved-Returning :
    {A : Type 0} (Q : A → Store → Type 0) (task : TaskEnvelope) (f : TaskEnvelope → M A) (s : Store)
    → is_running task.status ≡ false
    → ((saved : TaskEnvelope) (t : Store)
        → IsSaveOf task saved
        → IsCalm task.task_id t.tasks
        → Returning Q (f saved t))
    → Returning Q ((save_task task >>= f) s)
saved-Returning Q task f s h k =
    >>=-Returning Q (λ saved t. IsSaveOf task saved × IsCalm task.task_id t.tasks) (save_task task)
      f s
      (returns _ (save_task task s) (λ u t e. (
        returned (λ saved t. IsSaveOf task saved) (save_task-IsSaveOf task s) e,
        save_task-IsCalm task s h e,
      )))
      (λ saved t both. k saved t (both.0) (both.1))

save-status :
    (task saved : TaskEnvelope)
    → IsSaveOf task saved
    → is_running task.status ≡ false
    → is_running saved.status ≡ false
save-status task saved (n, key, same) h = ap (λ (x : TaskEnvelope). is_running x.status) same ∙ h

pub fail_task-IsSettled :
    (task : TaskEnvelope) (message reason : String) (s : Store)
    → Returning (IsSettled task.task_id) (fail_task task message reason s)
unfolding fail_task utcnow
fail_task-IsSettled task message reason s =
    let Q = OnCalm task.task_id in
    saved-Returning _ (failed_at message (s.now s.clock_reads) task) _ _ refl (λ u t is_save h.
      kept-Returning _ (On Q) (record_metric _ _ _) _ t (record_metric-On Q _ _ _) h
        (λ a v k. (save-status _ u is_save refl, k)))

request_approval-IsSettled :
    (task : TaskEnvelope) (action reason : String) (s : Store)
    → Returning
        (λ asked t. (asked.1.task_id ≡ task.task_id) × IsSettled task.task_id (asked.1) t)
        (request_approval task action reason s)
unfolding request_approval utcnow uuid4 save_approval
request_approval-IsSettled task action reason s =
    let Q = OnCalm task.task_id in
    saved-Returning _ (waiting task (s.fresh s.ids_drawn) (s.now (suc s.clock_reads))) _ _ refl
      (λ u t is_save h.
        kept-Returning _ (On Q) (append_event _ _ _ _) _ t (append_event-On Q _ _ _ _) h
          (λ a v k. (save-id _ u is_save, (save-status _ u is_save refl, k))))

pub read_back-Returning :
    (id : String) (task : TaskEnvelope) (s : Store)
    → (task.task_id ≡ id) × IsSettled id task s
    → Returning (IsSettled id) (read_back task s)
read_back-Returning id task s (same, (h, calm)) =
    returns (IsSettled id) (read_back task s)
      (λ done t e. rw (← same) (read_back-IsSettled task s h (rw same calm) e))

pub ask_approval-IsSettled :
    (task : TaskEnvelope) (action reason : String) (s : Store)
    → Returning (IsSettled task.task_id) (ask_approval task action reason s)
unfolding ask_approval
ask_approval-IsSettled task action reason s =
    >>=-Returning _
      (λ asked t. (asked.1.task_id ≡ task.task_id) × IsSettled task.task_id (asked.1) t)
      (request_approval task action reason) (λ asked. read_back (asked.1)) s
      (request_approval-IsSettled task action reason s)
      (λ asked t h. read_back-Returning task.task_id (asked.1) t h)

-- So settled is the task of that id.
abbrev pub IsOver : String → TaskEnvelope → Store → Type 0
IsOver id task s = (task.task_id ≡ id) × IsSettled id task s

fail_startup-IsOver :
    (message : String) (payload : Fields) (task : TaskEnvelope) (s : Store)
    → Returning (IsOver task.task_id) (fail_startup message payload task s)
unfolding utcnow
fail_startup-IsOver message payload task s =
    let Q = OnCalm task.task_id in
    saved-Returning _ (startup_failed message (s.now s.clock_reads) task) _ _ refl (λ u t is_save h.
      kept-Returning _ (On Q) (record_metric _ _ _) _ t (record_metric-On Q _ _ _) h (λ a v k.
        kept-Returning _ (On Q) (append_event _ _ _ _) _ v (append_event-On Q _ _ _ _) k
          (λ b w l. (save-id _ u is_save, (save-status _ u is_save refl, l)))))

pub handle-IsOver :
    (host : Host) (e : Failure) (task : TaskEnvelope) (s : Store)
    → Returning (IsOver task.task_id) (handle host e task s)
unfolding handle
handle-IsOver host e task s = go (startup_message e)
  where
    go : (o : Option (String × Bool)) → Returning (IsOver task.task_id) (handle_by host task e o s)
    go (some (message, retryable)) = fail_startup-IsOver message _ task s
    go none = fail_startup-IsOver (message_of host e) _ task s

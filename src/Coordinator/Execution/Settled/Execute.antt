-- ===== src/Coordinator/Execution/Settled/Execute.antt =====
-- The whole run, from its gates on.
use luis_puentes.Prelude.{
  String, ◌≡◌, false, Option, some, none, List, [], ◌∷◌, ◌++◌, any, ◌&&◌, not,
}
use luis_puentes.Result.{Result, ok, raise, permission_error}
use luis_puentes.Models.{Json, TaskEnvelope}
use luis_puentes.State.{Store, M, ◌>>=◌, pure}
use luis_puentes.State.Returns.{if-Returning, after-Returning, Returning, returned, >>=-Returning}
use luis_puentes.Policy.{evaluate_action}
use luis_puentes.Coordinator.{is_read_only}
use luis_puentes.Agents.{Host}
use luis_puentes.Coordinator.{Config}
use luis_puentes.Coordinator.Execution.{
  Locked, locked, denied, release_all, on_acquired, acquire_all, fail_task, ask_approval,
  approved_actions, needs, write_gate, run_with, run_past, check_gates, execute_task,
}
use luis_puentes.Coordinator.Execution.Settled.{is_running, runs}
use luis_puentes.Coordinator.Execution.Settled.Steps.{
  IsSettled, fail_task-IsSettled, ask_approval-IsSettled,
}
use luis_puentes.State.{lift}
use luis_puentes.Coordinator.Execution.Settled.Run.{run_locked-IsSettled}

-- A task that was denied its locks is settled.
abbrev DeniedSettled : String → Locked → Store → Type 0
DeniedSettled id (locked held) t = Unit
DeniedSettled id (denied failed) t = IsSettled id failed t

on_acquired-IsSettled :
    {A : Type 0} (task : TaskEnvelope) (held : List String) (rest : M Locked) (r : Result A × Store)
    → ((s : Store) → Returning (DeniedSettled task.task_id) (rest s))
    → Returning (DeniedSettled task.task_id) (on_acquired task held rest r)
on_acquired-IsSettled task held rest (ok claim, s) k = k s
on_acquired-IsSettled task held rest (raise (permission_error message), s) k =
    after-Returning _ (release_all task held) _ s (λ _ u.
      >>=-Returning _ (IsSettled task.task_id) (fail_task task message "artifact_lock") _ u
        (fail_task-IsSettled task message "artifact_lock" u) (λ failed t h. h))
on_acquired-IsSettled task held rest (raise _, s) k = tt

acquire_all-IsSettled :
    (task : TaskEnvelope) (artifacts held : List String) (s : Store)
    → Returning (DeniedSettled task.task_id) (acquire_all task artifacts held s)
unfolding acquire_all
acquire_all-IsSettled task [] held s = tt
acquire_all-IsSettled task (artifact ∷ artifacts) held s =
    on_acquired-IsSettled task held (acquire_all task artifacts (held ++ artifact ∷ [])) _
      (acquire_all-IsSettled task artifacts (held ++ artifact ∷ []))

-- A gate that settles the task has settled its row.
abbrev GateSettled : String → Option TaskEnvelope → Store → Type 0
GateSettled id none t = Unit
GateSettled id (some done) t = IsSettled id done t

settles :
    (id : String) (m : M TaskEnvelope) (s : Store)
    → Returning (IsSettled id) (m s)
    → Returning (GateSettled id) ((m >>= λ done. pure (some done)) s)
settles id m s h = >>=-Returning _ (IsSettled id) m _ s h (λ done t k. k)

module _ (host : Host) (config : Config) (task : TaskEnvelope) where
  run_past-IsSettled :
      (gate : Option TaskEnvelope) (s : Store)
      → GateSettled task.task_id gate s
      → Returning (IsSettled task.task_id) (run_past host config task gate s)
  run_past-IsSettled (some done) s h = h
  run_past-IsSettled none s h =
      >>=-Returning _ (DeniedSettled task.task_id) (acquire_all task task.artifacts []) _ s
        (acquire_all-IsSettled task task.artifacts [] s) go
    where
      go :
          (l : Locked) (t : Store)
          → DeniedSettled task.task_id l t
          → Returning (IsSettled task.task_id) (run_with host config task l t)
      go (locked held) t k = run_locked-IsSettled host config task held t
      go (denied failed) t k = k

  write_gate-IsSettled :
      (approved : List Json) (s : Store)
      → Returning (GateSettled task.task_id) (write_gate config task approved s)
  write_gate-IsSettled approved s =
      let decision = evaluate_action config.policies "write_files" task s.workspace in
      if-Returning _ (needs decision approved "write_files") _ _ s
        (settles _ (ask_approval task "write_files" decision.reason) s
          (ask_approval-IsSettled task "write_files" decision.reason s))
        tt

  execute_gate-IsSettled :
      (s : Store) → Returning (GateSettled task.task_id) (check_gates config task s)
  unfolding check_gates
  execute_gate-IsSettled s =
      let decision = evaluate_action config.policies "execute" task s.workspace in
      if-Returning _ (is_read_only config.mode && task.permissions.write_files) _ _ s
        (settles _ (fail_task task _ _) s (fail_task-IsSettled task _ _ s))
        (after-Returning _ (lift (approved_actions task)) _ s (λ approved s.
          let decision = evaluate_action config.policies "execute" task s.workspace in
          if-Returning _ (not decision.allowed && not decision.requires_approval) _ _ s
            (settles _ (fail_task task decision.reason "policy_denial") s
              (fail_task-IsSettled task decision.reason "policy_denial" s))
            (if-Returning _ (needs decision approved "execute") _ _ s
              (settles _ (ask_approval task "execute" decision.reason) s
                (ask_approval-IsSettled task "execute" decision.reason s))
              (if-Returning _ task.permissions.write_files _ _ s (write_gate-IsSettled approved s)
                tt))))

-- When a run returns, by whichever way, the task that it returns is not running, and no row of that
-- task is: the runtime may fail or not as it will.
pub execute_task-IsSettled :
    (host : Host) (config : Config) (task : TaskEnvelope) (s : Store) {done : TaskEnvelope}
    {t : Store}
    → execute_task host config task s ≡ (ok done, t)
    → (is_running done.status ≡ false) × (any (runs task.task_id) t.tasks ≡ false)
unfolding execute_task
execute_task-IsSettled host config task s h =
    returned (IsSettled task.task_id)
      (>>=-Returning _ (GateSettled task.task_id) (check_gates config task) _ s
        (execute_gate-IsSettled host config task s) (run_past-IsSettled host config task))
      h

-- ===== src/Coordinator/Execution.antt =====
-- The run of a task: `_execute_task` of orchestrator/coordinator.py. The gates before it, the locks
-- around it, and what is done with each failure; the body of its `try` is in Attempt.
pub mod Work
pub mod Attempt
pub mod Framed
pub mod Returns
pub mod Frames
pub mod Gates
pub mod Released
pub mod Settled
use luis_puentes.Prelude.{
  ℕ, String, Bool, true, false, Option, none, some, List, [], ◌∷◌, ◌++◌, ◌==◌, ◌&&◌, ◌||◌, not,
  if◌then◌else◌,
}
use luis_puentes.Result.{
  Failure, Result, ok, raise, value_error, type_error, permission_error, startup_error, agent_busy,
  file_not_found, os_error,
}
use luis_puentes.Models.{
  Json, Fields, field, bool, num, str, arr, obj, FailureKind, LaneRecord, LaneStatus, TaskEnvelope,
  TaskStatus, set_field,
}
use luis_puentes.Models.Metadata.{list_field, has_text}
use luis_puentes.State.{
  Store, M, ◌>>=◌, ◌>>◌, pure, lift, gets, for_each, utcnow, amount, append_event, record_metric,
}
use luis_puentes.State.Lanes.{ensure_lane, get_lane, upsert_lane}
use luis_puentes.State.Tasks.{save_task, get_task}
use luis_puentes.Locks.{acquire, release}
use luis_puentes.Policy.{PolicyDecision, evaluate_action}
use luis_puentes.Rotation.{record_task_end}
use luis_puentes.Context.{given}
use luis_puentes.Agents.{Host, ask}
use luis_puentes.Coordinator.{Config, is_read_only}
use luis_puentes.Coordinator.Supervision.{request_approval}
use luis_puentes.Coordinator.Execution.Attempt.{startup_message, attempt}

-- A task that failed, at the time.
abbrev pub failed_at : String → ℕ → TaskEnvelope → TaskEnvelope
failed_at message now task = record task {
  status = TaskStatus.failed;
  error_message = some message;
  updated_at = now;
}

unfoldable pub fail_task : TaskEnvelope → String → String → M TaskEnvelope
fail_task task message reason = do
  now ← utcnow
  saved ← save_task (failed_at message now task)
  record_metric "task_failure" (amount 1) (field "reason" (str reason) Fields.end)
  pure saved

-- `self.store.get_task(task.task_id) or task`
unfoldable pub read_back : TaskEnvelope → M TaskEnvelope
read_back task = do
  found ← get_task task.task_id
  pure (elim found [ none ↦ task | some row ↦ row ])

unfoldable pub ask_approval : TaskEnvelope → String → String → M TaskEnvelope
ask_approval task action reason = do
  asked ← request_approval task action reason
  read_back (asked.1)

-- `set(values)`: a list or an object is not hashable.
abbrev pub hashed : List Json → Result (List Json)
hashed [] = ok []
hashed (arr items ∷ xs) = raise type_error
hashed (obj fs ∷ xs) = raise type_error
hashed (x ∷ xs) = let rest = hashed xs in elim rest [ ok ys ↦ ok (x ∷ ys) | raise e ↦ raise e ]

-- `set(task.metadata.get("approved_actions", []))`
abbrev pub approved_actions : TaskEnvelope → Result (List Json)
approved_actions task = elim (list_field task.metadata "approved_actions") [
  | raise e ↦ raise e
  | ok values ↦ hashed values
]

abbrev pub needs : PolicyDecision → List Json → String → Bool
needs decision approved action = decision.requires_approval && not (has_text approved action)

-- The gate of a task that writes, once it may execute.
abbrev pub write_gate : Config → TaskEnvelope → List Json → M (Option TaskEnvelope)
write_gate config task approved = do
  decision ← gets (λ s. evaluate_action config.policies "write_files" task s.workspace)
  if needs decision approved "write_files"
      then (do asked ← ask_approval task "write_files" decision.reason; pure (some asked))
      else pure none

-- The gates before the run. A task that does not pass is settled there.
unfoldable pub check_gates : Config → TaskEnvelope → M (Option TaskEnvelope)
check_gates config task =
    if is_read_only config.mode && task.permissions.write_files
    then (do
      failed ← fail_task task "Read-only mode denied write-capable task" "read_only_denial"
      pure (some failed))
    else do
      approved ← lift (approved_actions task)
      decision ← gets (λ s. evaluate_action config.policies "execute" task s.workspace)
      if not decision.allowed && not decision.requires_approval
          then (do failed ← fail_task task decision.reason "policy_denial"; pure (some failed))
          else if needs decision approved "execute"
          then (do asked ← ask_approval task "execute" decision.reason; pure (some asked))
          else if task.permissions.write_files
          then write_gate config task approved
          else pure none

-- Whether the locks were given: the artifacts, or the task that failed for want of one.
pub data Locked : Type 0 where
  locked : List String → Locked
  denied : TaskEnvelope → Locked

abbrev pub release_all : TaskEnvelope → List String → M (Unit {0})
release_all task held = for_each held (λ artifact. release artifact task.lane_key >> pure tt)

abbrev pub give_back : TaskEnvelope → List String → String → M Locked
give_back task held message = do
  release_all task held
  failed ← fail_task task message "artifact_lock"
  pure (denied failed)

-- `except PermissionError`; any other exception leaves `_execute_task`.
abbrev pub on_acquired {ℓ} :
    {A : Type ℓ} → TaskEnvelope → List String → M Locked → Result A × Store → Result Locked × Store
on_acquired task held rest (ok claim, s) = rest s
on_acquired task held rest (raise (permission_error message), s) = give_back task held message s
on_acquired task held rest (raise e, s) = (raise e, s)

-- The loop over the artifacts, with those that were acquired before.
unfoldable pub acquire_all : TaskEnvelope → List String → List String → M Locked
acquire_all task [] held s = (ok (locked held), s)
acquire_all task (artifact ∷ artifacts) held s =
    let rest = acquire_all task artifacts (held ++ artifact ∷ []) in
    on_acquired task held rest (
      acquire artifact task.lane_key task.sender (some task.task_id) task.permissions.write_files
        none s)

abbrev pub running_task : TaskEnvelope → String → ℕ → ℕ → TaskEnvelope
running_task task owner started_at updated_at = record task {
  status = TaskStatus.running;
  metadata =
      set_field (set_field task.metadata "run_owner" (str owner)) "run_started_at" (num started_at);
  updated_at = updated_at;
}

unfoldable pub begin_run : Config → TaskEnvelope → M (LaneRecord × TaskEnvelope)
begin_run config task = do
  lane ← ensure_lane task.lane_key none none
  started_at ← utcnow
  updated_at ← utcnow
  running ← save_task (running_task task config.execution_owner started_at updated_at)
  pure (lane, running)

-- The outcome of the `try`, with the task as it is then.
abbrev pub Outcome : Type 0
Outcome = Result (Unit {0}) × TaskEnvelope × Store

abbrev pub startup_failed : String → ℕ → TaskEnvelope → TaskEnvelope
startup_failed message now task = record (failed_at message now task) {
  failure_kind = some FailureKind.startup;
}

-- What both handlers do with the task.
abbrev pub fail_startup : String → Fields → TaskEnvelope → M TaskEnvelope
fail_startup message payload task = do
  now ← utcnow
  saved ← save_task (startup_failed message now task)
  record_metric "task_failure" (amount 1) (field "kind" (str "startup") Fields.end)
  append_event "task.startup_failed" (some "task") (some task.task_id) payload
  pure saved

-- `str(err)` of what is no StartupError
abbrev pub message_of : Host → Failure → String
message_of host (value_error message) = message
message_of host (permission_error message) = message
message_of host (file_not_found message) = message
message_of host (os_error message) = message
message_of host e = host.describe e

-- `except StartupError`, `except Exception`
abbrev pub handle_by : Host → TaskEnvelope → Failure → Option (String × Bool) → M TaskEnvelope
handle_by host task e (some (message, retryable)) =
    fail_startup message (field "retryable" (bool retryable) Fields.end) task
handle_by host task e none =
    fail_startup (message_of host e)
      (field "retryable" (bool false) (field "unexpected" (bool true) Fields.end)) task

unfoldable pub handle : Host → Failure → TaskEnvelope → M TaskEnvelope
handle host e task = handle_by host task e (startup_message e)

unfoldable pub after_attempt : Host → Outcome → Result TaskEnvelope × Store
after_attempt host (ok u, task, s) = (ok task, s)
after_attempt host (raise e, task, s) = handle host e task s

abbrev pub end_lane : Host → LaneRecord → String → M (Unit {0})
end_lane host lane agent_id = do
  ask (host.dispose_agent agent_id)
  ended ← lift (record_task_end (record lane { status = LaneStatus.idle }))
  now ← utcnow
  upsert_lane (record ended { updated_at = now })

abbrev pub end_agent : Host → LaneRecord → Option String → M (Unit {0})
end_agent host lane none = pure tt
end_agent host lane (some agent_id) = end_lane host lane agent_id

abbrev pub end_found : Host → Option LaneRecord → M (Unit {0})
end_found host none = pure tt
end_found host (some lane) = end_agent host lane (given lane.current_agent_id)

-- `finally`
unfoldable pub clean_up : Host → TaskEnvelope → List String → M (Unit {0})
clean_up host task held = do
  release_all task held
  found ← get_lane task.lane_key
  end_found host found

-- A clean-up that raises takes the place of the outcome.
abbrev pub keep_outcome {ℓ} : {A : Type ℓ} → Result A → Result (Unit {0}) × Store → Result A × Store
keep_outcome r (ok u, s) = (r, s)
keep_outcome r (raise e, s) = (raise e, s)

abbrev pub finally {ℓ} : {A : Type ℓ} → M (Unit {0}) → Result A × Store → Result A × Store
finally cleanup (r, s) = keep_outcome r (cleanup s)

-- The run under its locks. The clean-up reads the lane key of the task as it is then: the one that
-- begin_run's save has normalized, which saving again leaves.
unfoldable pub run_locked : Host → Config → TaskEnvelope → List String → M TaskEnvelope
run_locked host config task held = do
  begun ← begin_run config task
  done ← λ s.
      finally (clean_up host (begun.1) held)
        (after_attempt host (attempt host config (begun.0) (begun.1) s))
  read_back done

abbrev pub run_with : Host → Config → TaskEnvelope → Locked → M TaskEnvelope
run_with host config task (denied failed) = pure failed
run_with host config task (locked held) = run_locked host config task held

abbrev pub run_past : Host → Config → TaskEnvelope → Option TaskEnvelope → M TaskEnvelope
run_past host config task (some settled) = pure settled
run_past host config task none = do
  given_locks ← acquire_all task task.artifacts []
  run_with host config task given_locks

unfoldable pub execute_task : Host → Config → TaskEnvelope → M TaskEnvelope
execute_task host config task = do gate ← check_gates config task; run_past host config task gate

-- ===== src/Coordinator/Execution/Attempt.antt =====
-- The body of the `try` in `_execute_task`: an agent is chosen, the run is dispatched, and its outcome
-- is applied to the task.
use luis_puentes.Prelude.{
  joined, ℕ, String, Bool, true, false, Option, none, some, List, ◌==◌, ltb, if◌then◌else◌,
}
use luis_puentes.Result.{Failure, Result, ok, raise, startup_error, agent_busy}
use luis_puentes.Models.{
  Json, Fields, field, null, bool, num, str, obj, FailureKind, LaneRecord, TaskEnvelope, TaskStatus,
}
use luis_puentes.State.{Store, M, gets, utcnow, amount, append_event, record_metric}
use luis_puentes.State.Lanes.{ensure_lane, upsert_lane}
use luis_puentes.State.Tasks.{save_task}
use luis_puentes.Rotation.{
  RotationDecision, evaluate, record_task_start, record_startup_failure, clear_startup_failures,
}
use luis_puentes.Context.{ContextEnvelope, given, text_or_null, envelope_to_dict, build}
use luis_puentes.Context.Prompt.{render_task_prompt}
use luis_puentes.Agents.{Host, RunOutcome, Started, create, resume, rotate}
use luis_puentes.Coordinator.{Config}
use luis_puentes.Coordinator.Answers.{apply_agent_response}
use luis_puentes.Coordinator.Execution.Work.{
  W, ◌>>=◌, ◌>>◌, pure, throw, lift, asks, on_store, with_task, catch, change, for_each,
}

-- The failures that `except StartupError` takes.
abbrev pub startup_message : Failure → Option (String × Bool)
startup_message (startup_error message retryable) = some (message, retryable)
startup_message (agent_busy message) = some (message, false)
startup_message _ = none

abbrev pub set_time : ℕ → TaskEnvelope → TaskEnvelope
set_time now task = record task { updated_at = now }

-- `task.updated_at = utcnow_iso()`
abbrev pub touch : W (Unit {0})
touch = do now ← on_store utcnow; change (set_time now)

abbrev pub metric : String → Fields → M String
metric name labels = record_metric name (amount 1) labels

abbrev pub rotation_labels : TaskEnvelope → String → Fields
rotation_labels task kind =
    field "lane_key" (str task.lane_key) (field "kind" (str kind) Fields.end)

-- The task that a call returned takes the place of the one it was given.
abbrev pub applied :
    TaskEnvelope → Result TaskEnvelope × Store → Result (Unit {0}) × TaskEnvelope × Store
applied old (ok new, t) = (ok tt, new, t)
applied old (raise e, t) = (raise e, old, t)

-- `self.store.save_task(task)`: the task goes on as the call leaves it.
abbrev pub save : W (Unit {0})
save task s = applied task (save_task task s)

module _ (host : Host) (config : Config) where
  abbrev pub envelope_size : ContextEnvelope → ℕ
  envelope_size envelope = host.docs.json_size (obj (envelope_to_dict envelope))

  abbrev pub rotate_for : String → String → W Started
  rotate_for reason kind = do
    started ←
        with_task
          (λ task. rotate host config.policies task.lane_key task.objective task.spec_id reason)
    with_task (λ task. metric "rotation_success" (rotation_labels task kind))
    pure started

  -- `_recover_startup_failure`
  unfoldable pub recover_startup_failure : Failure → String → Bool → W Started
  recover_startup_failure err message retryable = do
    lane ← with_task (λ task. ensure_lane task.lane_key none none)
    counted ← lift (record_startup_failure lane message)
    now ← on_store utcnow
    let noted : LaneRecord = record (counted.0) { updated_at = now }
    on_store (upsert_lane noted)
    with_task (λ task. append_event "lane.startup_failed" (some "lane") (some task.lane_key) (
        field "task_id" (str task.task_id) (
          field "agent_id" (text_or_null lane.current_agent_id) (
            field "consecutive_failures" (num (counted.1))
              (field "retryable" (bool retryable) Fields.end)))))
    if ltb (counted.1) config.rotation_policy.max_startup_failures
        then throw err
        else rotate_for "startup_failure" "startup_recovery"

  abbrev pub recovery : Failure → Option (String × Bool) → Option (W Started)
  recovery err none = none
  recovery err (some (message, retryable)) = some (recover_startup_failure err message retryable)

  abbrev pub resume_or_recover : W Started
  resume_or_recover =
      catch
        (with_task
          (λ task. resume host config.policies task.lane_key (some task.objective) task.spec_id))
        (λ err. recovery err (startup_message err))

  abbrev pub replace_or_resume : Bool → List String → W Started
  replace_or_resume true reasons = rotate_for (joined "," reasons) "automatic"
  replace_or_resume false reasons = resume_or_recover

  abbrev pub start_agent : Option String → RotationDecision → W Started
  start_agent none rotation =
      with_task
        (λ task. create host config.policies task.lane_key task.objective task.spec_id none none)
  start_agent (some agent) rotation = replace_or_resume rotation.rotate rotation.reasons

  -- The agent for the run: a new one, the one that is there, or one that replaces it.
  unfoldable pub choose_agent : LaneRecord → RotationDecision → W Started
  choose_agent lane rotation = start_agent (given lane.current_agent_id) rotation

  abbrev pub assign : String → W (Unit {0})
  assign agent_id = change (λ task. record task { agent_id = some agent_id })

  -- `record_task_start`, and the lane and the task saved
  unfoldable pub record_start : LaneRecord → ContextEnvelope → W (Unit {0})
  record_start lane envelope = do
    noted ← asks (λ task. record_task_start lane task (envelope_size envelope))
    on_store (upsert_lane noted)
    save

  -- `persist_run_id`
  unfoldable pub persist_run_id : String → String → W (Unit {0})
  persist_run_id agent_id run_id = do
    change (λ task. record task { run_id = some run_id })
    touch
    save
    with_task (λ task.
        append_event "run.started" (some "task") (some task.task_id)
          (field "run_id" (str run_id) (field "agent_id" (str agent_id) Fields.end)))
    pure tt

  -- `_dispatch_run`
  unfoldable pub dispatch_run : String → ContextEnvelope → W RunOutcome
  dispatch_run agent_id envelope = do
    prompt ← with_task (λ task. render_task_prompt host.docs task envelope)
    answer ← with_task (λ task. gets (host.run_task agent_id prompt task.idempotency_key))
    for_each (answer.0) (persist_run_id agent_id)
    lift (answer.1)

  -- The second try, on a fresh agent.
  unfoldable pub run_elsewhere : W RunOutcome
  run_elsewhere = do
    started ←
        with_task (λ task.
          rotate host config.policies task.lane_key task.objective task.spec_id "agent_busy")
    assign (started.1)
    record_start (started.0) (started.2)
    with_task (λ task. metric "rotation_success" (rotation_labels task "recovery"))
    dispatch_run (started.1) (started.2)

  abbrev pub is_busy : Failure → Option (W RunOutcome)
  is_busy (agent_busy message) = some run_elsewhere
  is_busy _ = none

  -- `self._apply_agent_response(task, outcome.result_text)`
  abbrev pub apply_response : Option String → W (Unit {0})
  apply_response answer task s = applied task (apply_agent_response host.docs.loads task answer s)

  abbrev pub fail_run : Option String → W (Unit {0})
  fail_run message = do
    change (λ task. record task {
      status = TaskStatus.failed;
      failure_kind = some FailureKind.run;
      error_message = message;
    })
    on_store (metric "task_failure" (field "kind" (str "run") Fields.end))
    pure tt

  abbrev pub complete_run : W (Unit {0})
  complete_run = do
    change (λ task. record task { status = TaskStatus.completed })
    with_task (λ task. metric "task_throughput" (field "lane_key" (str task.lane_key) Fields.end))
    pure tt

  abbrev pub settle_run : Bool → Option String → W (Unit {0})
  settle_run true message = fail_run message
  settle_run false message = complete_run

  abbrev pub kind_or_null : Option FailureKind → Json
  kind_or_null none = null
  kind_or_null (some FailureKind.startup) = str "startup"
  kind_or_null (some FailureKind.run) = str "run"

  abbrev pub note_outcome : RunOutcome → TaskEnvelope → M String
  note_outcome outcome task =
      append_event (if outcome.status == "error" then "task.failed" else "task.completed")
        (some "task") (some task.task_id)
        (field "run_id" (str outcome.run_id)
          (field "failure_kind" (kind_or_null task.failure_kind) Fields.end))

  -- What becomes of the task by the outcome of its run.
  unfoldable pub conclude : RunOutcome → W (Unit {0})
  conclude outcome = do
    change (λ task. record task { run_id = some outcome.run_id })
    apply_response outcome.result_text
    settle_run (outcome.status == "error") outcome.error_message
    touch
    save
    with_task (note_outcome outcome)
    pure tt

  unfoldable pub attempt : LaneRecord → W (Unit {0})
  attempt lane = do
    preview ← with_task (λ task. build host.docs config.policies lane (some task) none)
    now ← on_store utcnow
    rotation ← asks (λ task. evaluate config.rotation_policy lane task (envelope_size preview) now)
    started ← choose_agent lane rotation
    assign (started.1)
    cleared ← lift (clear_startup_failures (started.0))
    record_start cleared (started.2)
    outcome ← catch (dispatch_run (started.1) (started.2)) is_busy
    conclude outcome

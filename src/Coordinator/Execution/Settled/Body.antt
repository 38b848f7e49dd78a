-- ===== src/Coordinator/Execution/Settled/Body.antt =====
-- The body of a run that returns has settled the task.
use luis_puentes.Prelude.{
  String, ◌≡◌, refl, sym, subst, Bool, true, false, Option, some, none, ◌==◌,
}
use luis_puentes.Result.{Result, ok, raise}
use luis_puentes.Models.{Fields, field, str, TaskEnvelope, TaskStatus, FailureKind, LaneRecord}
use luis_puentes.State.{Store, utcnow}
use luis_puentes.State.Frames.{append_event-On}
use luis_puentes.State.Returns.{returned}
use luis_puentes.State.Tasks.{save_task}
use luis_puentes.State.Tasks.Saved.{IsSaveOf, save_task-IsSaveOf}
use luis_puentes.Rotation.{evaluate, clear_startup_failures}
use luis_puentes.Context.{build}
use luis_puentes.Agents.{Host, RunOutcome}
use luis_puentes.Coordinator.{Config}
use luis_puentes.Coordinator.Execution.Work.{catch, asks, lift, on_store, with_task}
use luis_puentes.Coordinator.Execution.Returns.{
  ReturningW, >>=-ReturningW, after-ReturningW, with_task-ReturningW,
}
use luis_puentes.Coordinator.Execution.Attempt.{
  applied, save, metric, set_time, envelope_size, choose_agent, record_start, dispatch_run, is_busy,
  apply_response, settle_run, note_outcome, conclude, attempt,
}
use luis_puentes.Coordinator.Execution.Settled.{is_running, IsCalm, save_task-IsCalm}
use luis_puentes.Coordinator.Execution.Settled.Steps.{IsSettled, OnCalm}

abbrev IsOver : Unit {0} → TaskEnvelope → Store → Type 0
IsOver u task s = is_running task.status ≡ false

abbrev pub IsSaved : Unit {0} → TaskEnvelope → Store → Type 0
IsSaved u task s = IsSettled task.task_id task s

save-IsSaved :
    (task : TaskEnvelope) (s : Store)
    → is_running task.status ≡ false
    → ReturningW IsSaved (save task s)
save-IsSaved task s h = go (save_task task s) refl
  where
    go :
        (r : Result TaskEnvelope × Store)
        → save_task task s ≡ r
        → ReturningW IsSaved (applied task r)
    go (ok u, t) e =
        let (n, key, same) =
          returned (λ saved t. IsSaveOf task saved) (save_task-IsSaveOf task s) e in
        subst (λ (x : TaskEnvelope). IsSettled x.task_id x t) (sym same)
          (h, save_task-IsCalm task s h e)
    go (raise x, t) e = tt

module _ (host : Host) (config : Config) where
  settle_run-IsOver :
      (b : Bool) (message : Option String) (task : TaskEnvelope) (s : Store)
      → ReturningW IsOver (settle_run host config b message task s)
  settle_run-IsOver true message task s =
      with_task-ReturningW IsOver (λ s. Unit)
        (λ task. metric "task_failure" (field "kind" (str "run") Fields.end)) _
        (record task {
          status = TaskStatus.failed;
          failure_kind = some FailureKind.run;
          error_message = message;
        })
        s (λ s h. h) tt (λ a u h. refl)
  settle_run-IsOver false message task s =
      with_task-ReturningW IsOver (λ s. Unit)
        (λ task. metric "task_throughput" (field "lane_key" (str task.lane_key) Fields.end)) _
        (record task { status = TaskStatus.completed }) s (λ s h. h) tt (λ a u h. refl)

  conclude-IsSaved :
      (outcome : RunOutcome) (task : TaskEnvelope) (s : Store)
      → ReturningW IsSaved (conclude host config outcome task s)
  unfolding conclude utcnow
  conclude-IsSaved outcome task s =
      after-ReturningW IsSaved (apply_response host config outcome.result_text) _
        (λ _ task s.
          >>=-ReturningW IsSaved IsOver
            (settle_run host config (outcome.status == "error") outcome.error_message) _ task s
            (settle_run-IsOver (outcome.status == "error") outcome.error_message task s)
            (λ _ task s h.
              let now = s.now s.clock_reads in
              >>=-ReturningW IsSaved IsSaved save _ (set_time now task) _
                (save-IsSaved (set_time now task) _ h)
                (λ _ task s k.
                  with_task-ReturningW IsSaved (λ s. IsCalm task.task_id s.tasks)
                    (note_outcome host config outcome) _ task s
                    (append_event-On (OnCalm task.task_id) _ _ _ _) (k.1)
                    (λ _ u l. let settled : IsSaved tt task u = (k.0, l) in settled))))
        (record task { run_id = some outcome.run_id }) s

  -- When the body of a run returns, the task is not running, and neither is its row.
  pub attempt-IsSaved :
      (lane : LaneRecord) (task : TaskEnvelope) (s : Store)
      → ReturningW IsSaved (attempt host config lane task s)
  unfolding attempt
  attempt-IsSaved lane =
      after-ReturningW IsSaved
        (with_task (λ task. build host.docs config.policies lane (some task) none)) _
        (λ preview. after-ReturningW IsSaved (on_store utcnow) _ (λ now.
          after-ReturningW IsSaved
            (asks (λ task.
              evaluate config.rotation_policy lane task (envelope_size host config preview) now))
            _
            (λ rotation.
              after-ReturningW IsSaved (choose_agent host config lane rotation) _ (λ started task s.
                after-ReturningW IsSaved (lift (clear_startup_failures (started.0))) _
                  (λ cleared.
                    after-ReturningW IsSaved (record_start host config cleared (started.2)) _ (λ _.
                      after-ReturningW IsSaved
                        (catch (dispatch_run host config (started.1) (started.2))
                          (is_busy host config))
                        _ (λ outcome. conclude-IsSaved outcome)))
                  (record task { agent_id = some (started.1) }) s))))

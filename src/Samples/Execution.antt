-- ===== src/Samples/Execution.antt =====
-- Runs on the sample workspace, with a runtime that answers at once.
use luis_puentes.Prelude.{◌≡◌, refl, false, none, some, [], ◌∷◌, any}
use luis_puentes.Result.{Result, ok}
use luis_puentes.Models.{
  Json, Fields, field, str, TaskEnvelope, TaskStatus, default_permissions, get_field, set_field,
}
use luis_puentes.Models.Metadata.{list_field}
use luis_puentes.Models.LaneKey.{normalize_lane_key}
use luis_puentes.State.{Store, utcnow, uuid4, record_metric}
use luis_puentes.State.Tasks.{save_task, put_task}
use luis_puentes.Coordinator.{Config, Mode}
use luis_puentes.Agents.{Host, RunOutcome}
use luis_puentes.Coordinator.Execution.{
  failed_at, fail_task, running_task, begin_run, run_locked, check_gates, execute_task,
}
use luis_puentes.Coordinator.Execution.Released.{IsFree}
use luis_puentes.Coordinator.Execution.Released.Run.{run_locked-released}
use luis_puentes.State.Lanes.{ensure_lane, get_lane, find_lane}
use luis_puentes.State.Claims.{respects_index, is_write_lock}
use luis_puentes.Coordinator.Execution.Gates.{execute_task-waits}
use luis_puentes.Coordinator.Execution.Settled.{is_running, runs}
use luis_puentes.Coordinator.Execution.Settled.Execute.{execute_task-IsSettled}
use luis_puentes.Samples.{lane_named, sample_store, sample_task, supervised_config}

abbrev sample_outcome : RunOutcome
sample_outcome = record {
  agent_id = "agent-1";
  run_id = "run-1";
  status = "finished";
  failure_kind = none;
  error_message = none;
  result_text = none;
}

abbrev pub sample_host : Host
sample_host = record {
  docs = record {
    loads = λ text. none;
    dumps = λ value. "{}";
    json_size = λ value. 2;
    spec_text = λ name. none;
  };
  create_agent = λ config envelope s. ok "agent-1";
  resume_agent = λ agent_id config envelope s. ok agent_id;
  run_task = λ agent_id prompt key s. ("run-1" ∷ [], ok sample_outcome);
  dispose_agent = λ agent_id s. ok tt;
  describe = λ e. "unexpected";
  handover_root = "handovers";
  write_handover = λ path agent_id reason now s. ok tt;
}

execute_task-waits_example :
    let (r, t) = execute_task sample_host supervised_config sample_task sample_store in
    (done : TaskEnvelope) × (r ≡ ok done)
    × (done.status ≡ TaskStatus.awaiting_approval)
    × (get_field done.metadata "pending_approval_id" ≡ some (str "id-a"))
    × (t.claims ≡ sample_store.claims)
unfolding normalize_lane_key list_field get_field luis_puentes.Policy.evaluate_action
    luis_puentes.Policy.consider luis_puentes.Policy.out_of_scope luis_puentes.Policy.policy_matches
    luis_puentes.Policy.restrict luis_puentes.Models.Metadata.has_text
execute_task-waits_example =
    execute_task-waits sample_host supervised_config sample_task sample_store [] "ops" sample_task
      refl refl refl refl refl

-- A coordinator that only reads, to which the writing task is given.
abbrev pub read_only_config : Config
read_only_config = record supervised_config { mode = Mode.read_only }

abbrev refused_run : Result TaskEnvelope × Store
refused_run = execute_task sample_host read_only_config sample_task sample_store

abbrev pub refused_task : TaskEnvelope
refused_task = failed_at "Read-only mode denied write-capable task" 5000 sample_task

execute_task-IsSettled_example :
    (is_running refused_task.status ≡ false) × (any (runs "task-1") refused_run.1.tasks ≡ false)
unfolding execute_task check_gates fail_task save_task put_task record_metric utcnow uuid4
    normalize_lane_key
execute_task-IsSettled_example =
    execute_task-IsSettled sample_host read_only_config sample_task sample_store
      {done = refused_task} {t = refused_run.1} refl

-- The task as it runs, and its lane.
abbrev begun_task : TaskEnvelope
begun_task = running_task sample_task "service" 5000 6000

abbrev begun_store : Store
begun_store = (begin_run supervised_config sample_task sample_store).1

run_locked-released_example :
    IsFree "/work" "ledger.xlsx" "ops"
      (run_locked sample_host supervised_config sample_task
        ("ledger.xlsx" ∷ [])
        sample_store).1.claims
unfolding begin_run ensure_lane get_lane find_lane save_task put_task utcnow normalize_lane_key
    respects_index is_write_lock
run_locked-released_example =
    run_locked-released sample_host supervised_config sample_task ("ledger.xlsx" ∷ []) "ledger.xlsx"
      sample_store {begun = (lane_named "ops", begun_task)} {u = begun_store} refl refl refl refl

-- ===== src/Coordinator/Execution/Frames.antt =====
-- What the calls around the body of a run leave alone.
use luis_puentes.Prelude.{String, Bool, Option, some, none, List}
use luis_puentes.Result.{Failure}
use luis_puentes.Models.{Fields, TaskEnvelope, ArtifactClaim, LaneRecord, LaneStatus}
use luis_puentes.State.{utcnow, append_event, record_metric}
use luis_puentes.State.Keeps.{Keeps, >>=-Keeps, lift-Keeps}
use luis_puentes.State.Frames.{
  On, utcnow-On, append_event-On, record_metric-On, upsert_lane-On, ensure_lane-On,
}
use luis_puentes.State.Lanes.{ensure_lane}
use luis_puentes.State.Tasks.{save_task, get_task}
use luis_puentes.Rotation.{record_task_end}
use luis_puentes.Agents.{Host, ask}
use luis_puentes.Coordinator.{Config}
use luis_puentes.Coordinator.Execution.{
  read_back, begin_run, startup_failed, fail_startup, message_of, handle_by, handle, end_agent,
  end_found,
}
use luis_puentes.Coordinator.Execution.Attempt.{startup_message}
use luis_puentes.Coordinator.Execution.Framed.Body.{save_task-claims}

module _ (P : List TaskEnvelope → List ArtifactClaim → String → Type 0) where
  end_agent-On :
      (host : Host) (lane : LaneRecord) (agent : Option String)
      → Keeps (On P) (end_agent host lane agent)
  end_agent-On host lane none s h = h
  end_agent-On host lane (some agent_id) s h =
      >>=-Keeps (On P) (ask (host.dispose_agent agent_id)) _ (λ s h. h)
        (λ _.
          lift-Keeps (On P) (record_task_end (record lane { status = LaneStatus.idle })) _
            (λ ended. >>=-Keeps (On P) utcnow _ (utcnow-On P) (λ now. upsert_lane-On P _)))
        s h

  pub end_found-On : (host : Host) (found : Option LaneRecord) → Keeps (On P) (end_found host found)
  end_found-On host none s h = h
  end_found-On host (some lane) s h = end_agent-On host lane _ s h

  pub read_back-On : (task : TaskEnvelope) → Keeps (On P) (read_back task)
  unfolding read_back get_task
  read_back-On task s h = h

module _ (P : List ArtifactClaim → String → Type 0) where
  abbrev Q : List TaskEnvelope → List ArtifactClaim → String → Type 0
  Q tasks claims workspace = P claims workspace

  pub begin_run-claims :
      (config : Config) (task : TaskEnvelope) → Keeps (On Q) (begin_run config task)
  unfolding begin_run
  begin_run-claims config task =
      >>=-Keeps (On Q) (ensure_lane task.lane_key none none) _ (ensure_lane-On Q _ _ _) (λ lane.
        >>=-Keeps (On Q) utcnow _ (utcnow-On Q) (λ a.
          >>=-Keeps (On Q) utcnow _ (utcnow-On Q)
            (λ b. >>=-Keeps (On Q) (save_task _) _ (save_task-claims P _) (λ _ s h. h))))

  fail_startup-claims :
      (message : String) (payload : Fields) (task : TaskEnvelope)
      → Keeps (On Q) (fail_startup message payload task)
  fail_startup-claims message payload task = >>=-Keeps (On Q) utcnow _ (utcnow-On Q) (λ now.
      >>=-Keeps (On Q) (save_task (startup_failed message now task)) _ (save_task-claims P _) (λ _.
        >>=-Keeps (On Q) (record_metric _ _ _) _ (record_metric-On Q _ _ _) (λ _.
          >>=-Keeps (On Q) (append_event _ _ _ _) _ (append_event-On Q _ _ _ _) (λ _ s h. h))))

  pub handle-claims :
      (host : Host) (e : Failure) (task : TaskEnvelope) → Keeps (On Q) (handle host e task)
  unfolding handle
  handle-claims host e task = go (startup_message e)
    where
      go : (o : Option (String × Bool)) → Keeps (On Q) (handle_by host task e o)
      go (some (message, retryable)) = fail_startup-claims message _ task
      go none = fail_startup-claims (message_of host e) _ task

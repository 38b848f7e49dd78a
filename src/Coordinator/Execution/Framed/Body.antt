-- ===== src/Coordinator/Execution/Framed/Body.antt =====
-- Each call in the body of a run keeps the claims and the id of the task.
use luis_puentes.Prelude.{
  String, ◌≡◌, refl, ◌∙◌, Bool, true, false, Option, none, some, List, ◌==◌, Bool-cases, inl, inr,
  ltb, any, if◌then◌else◌,
}
use luis_puentes.Result.{Failure, Result, ok, raise, agent_busy}
use luis_puentes.Models.{Fields, field, str, TaskEnvelope, ArtifactClaim, LaneRecord}
use luis_puentes.Models.LaneKey.{normalize_lane_key}
use luis_puentes.State.{Store, utcnow}
use luis_puentes.State.Keeps.{>>=-Keeps, Keeps, lift-Keeps}
use luis_puentes.State.Frames.{
  On, utcnow-On, append_event-On, record_metric-On, upsert_lane-On, ensure_lane-On,
}
use luis_puentes.State.Lanes.{ensure_lane, upsert_lane}
use luis_puentes.State.Returns.{returned}
use luis_puentes.State.Tasks.Saved.{IsSaveOf, save_task-IsSaveOf, save-id}
use luis_puentes.State.Tasks.{has_id, repeats_key, put_task, save_task}
use luis_puentes.Rotation.{
  RotationDecision, evaluate, record_task_start, record_startup_failure, clear_startup_failures,
}
use luis_puentes.Context.{ContextEnvelope, given, build}
use luis_puentes.Context.Prompt.{render_task_prompt}
use luis_puentes.Agents.{Host, RunOutcome, resume, rotate}
use luis_puentes.Agents.Frames.{build-On, render_task_prompt-On, create-On, resume-On, rotate-On}
use luis_puentes.Coordinator.{Config}
use luis_puentes.Coordinator.Answers.{apply_agent_response}
use luis_puentes.Coordinator.Answers.Frames.{apply_agent_response-On, apply_agent_response-task_id}
use luis_puentes.Coordinator.Execution.Work.{throw, with_task, catch, for_each}
use luis_puentes.Coordinator.Execution.Framed.{
  OnClaims, Framed, KeepsW, >>=-KeepsW, with_task-KeepsW, on_store-KeepsW, lift-KeepsW, asks-KeepsW,
  catch-KeepsW, KeepsO, for_each-KeepsW,
}
use luis_puentes.Coordinator.Execution.Attempt.{
  startup_message, save, touch, metric, rotation_labels, envelope_size, rotate_for,
  recover_startup_failure, recovery, resume_or_recover, replace_or_resume, start_agent,
  choose_agent, record_start, persist_run_id, dispatch_run, run_elsewhere, is_busy, applied,
  apply_response, settle_run, conclude, attempt,
}

module _ (P : List ArtifactClaim → String → Type 0) where
  put_task-claims : (task : TaskEnvelope) → Keeps (On (λ tasks c w. P c w)) (put_task task)
  unfolding put_task
  put_task-claims task s h = elim (Bool-cases (any (has_id task.task_id) s.tasks)) [
    | inl e ↦ rw e h
    | inr e ↦ elim (Bool-cases (repeats_key task s.tasks)) [
      | inl f ↦ rw (e, f) h
      | inr f ↦ rw (e, f) h
    ]
  ]

  pub save_task-claims : (task : TaskEnvelope) → Keeps (On (λ tasks c w. P c w)) (save_task task)
  unfolding save_task
  save_task-claims task =
      lift-Keeps (On (λ tasks c w. P c w)) (normalize_lane_key task.lane_key) _ (λ key.
        >>=-Keeps (On (λ tasks c w. P c w)) (put_task (record task { lane_key = key })) _
          (put_task-claims (record task { lane_key = key })) (λ _ s h. h))

module _ (id : String) (P : List ArtifactClaim → String → Type 0) where
  abbrev Q : List TaskEnvelope → List ArtifactClaim → String → Type 0
  Q tasks c w = P c w

  save-KeepsW : KeepsW id P save
  save-KeepsW task s h = go (save_task task s) refl (save_task-claims P task s h.1)
    where
      go :
          (r : Result TaskEnvelope × Store)
          → save_task task s ≡ r
          → OnClaims id P r.1
          → Framed id P (applied task r).1 (applied task r).2
      go (ok new, t) e k = (
        save-id task new (returned (λ saved t. IsSaveOf task saved) (save_task-IsSaveOf task s) e)
            ∙ h.0,
        k,
      )
      go (raise x, t) e k = (h.0, k)

  touch-KeepsW : KeepsW id P touch
  touch-KeepsW = on_store-KeepsW id P utcnow _ (utcnow-On Q) (λ now task s h. h)

  module _ (host : Host) (config : Config) where
    rotate_for-KeepsW : (reason kind : String) → KeepsW id P (rotate_for host config reason kind)
    rotate_for-KeepsW reason kind =
        with_task-KeepsW id P
          (λ task. rotate host config.policies task.lane_key task.objective task.spec_id reason) _
          (λ task. rotate-On Q host config.policies _ _ _ _)
          (λ started.
            with_task-KeepsW id P (λ task. metric "rotation_success" (rotation_labels task kind)) _
              (λ task. record_metric-On Q _ _ _) (λ _ task s h. h))

    recover_startup_failure-KeepsW :
        (err : Failure) (message : String) (retryable : Bool)
        → KeepsW id P (recover_startup_failure host config err message retryable)
    unfolding recover_startup_failure
    recover_startup_failure-KeepsW err message retryable =
        with_task-KeepsW id P (λ task. ensure_lane task.lane_key none none) _
          (λ task. ensure_lane-On Q _ _ _)
          (λ lane. lift-KeepsW id P (record_startup_failure lane message) _ (λ counted.
            on_store-KeepsW id P utcnow _ (utcnow-On Q) (λ now.
              on_store-KeepsW id P (upsert_lane _) _ (upsert_lane-On Q _) (λ _.
                with_task-KeepsW id P _ _ (λ task. append_event-On Q _ _ _ _)
                  (λ _. go (ltb (counted.1) config.rotation_policy.max_startup_failures))))))
      where
        go :
            (b : Bool)
            → KeepsW id P (
                if b
                then throw err
                else rotate_for host config "startup_failure" "startup_recovery")
        go true task s h = h
        go false task s h = rotate_for-KeepsW "startup_failure" "startup_recovery" task s h

    recovery-KeepsW :
        (e : Failure) (o : Option (String × Bool)) → KeepsO id P (recovery host config e o)
    recovery-KeepsW e none = tt
    recovery-KeepsW e (some (message, retryable)) =
        recover_startup_failure-KeepsW e message retryable

    resume_or_recover-KeepsW : KeepsW id P (resume_or_recover host config)
    resume_or_recover-KeepsW =
        catch-KeepsW id P
          (with_task
            (λ task. resume host config.policies task.lane_key (some task.objective) task.spec_id))
          _ (λ task s h. (h.0, resume-On Q host config.policies _ _ _ s h.1))
          (λ e. recovery-KeepsW e (startup_message e))

    replace_or_resume-KeepsW :
        (b : Bool) (reasons : List String) → KeepsW id P (replace_or_resume host config b reasons)
    replace_or_resume-KeepsW true reasons = rotate_for-KeepsW _ "automatic"
    replace_or_resume-KeepsW false reasons = resume_or_recover-KeepsW

    start_agent-KeepsW :
        (o : Option String) (rotation : RotationDecision)
        → KeepsW id P (start_agent host config o rotation)
    start_agent-KeepsW none rotation task s h =
        (h.0, create-On Q host config.policies _ _ _ _ _ s h.1)
    start_agent-KeepsW (some agent) rotation task s h =
        replace_or_resume-KeepsW rotation.rotate rotation.reasons task s h

    choose_agent-KeepsW :
        (lane : LaneRecord) (rotation : RotationDecision)
        → KeepsW id P (choose_agent host config lane rotation)
    unfolding choose_agent
    choose_agent-KeepsW lane rotation = start_agent-KeepsW (given lane.current_agent_id) rotation

    record_start-KeepsW :
        (lane : LaneRecord) (envelope : ContextEnvelope)
        → KeepsW id P (record_start host config lane envelope)
    unfolding record_start
    record_start-KeepsW lane envelope =
        asks-KeepsW id P (λ task. record_task_start lane task (envelope_size host config envelope))
          _
          (λ noted.
            on_store-KeepsW id P (upsert_lane noted) _ (upsert_lane-On Q noted) (λ _. save-KeepsW))

    persist_run_id-KeepsW :
        (agent_id run_id : String) → KeepsW id P (persist_run_id host config agent_id run_id)
    unfolding persist_run_id
    persist_run_id-KeepsW agent_id run_id task s h =
        >>=-KeepsW id P touch _ touch-KeepsW
          (λ _.
            >>=-KeepsW id P save _ save-KeepsW (λ _.
              with_task-KeepsW id P _ _ (λ task. append_event-On Q _ _ _ _) (λ _ task s h. h)))
          (record task { run_id = some run_id }) s h

    dispatch_run-KeepsW :
        (agent_id : String) (envelope : ContextEnvelope)
        → KeepsW id P (dispatch_run host config agent_id envelope)
    unfolding dispatch_run
    dispatch_run-KeepsW agent_id envelope =
        with_task-KeepsW id P (λ task. render_task_prompt host.docs task envelope) _
          (λ task. render_task_prompt-On Q _ _ _)
          (λ prompt task s h.
            >>=-KeepsW id P (for_each _ (persist_run_id host config agent_id)) _
              (for_each-KeepsW id P _ _ (persist_run_id-KeepsW agent_id)) (λ _ task s h. h) task s
              h)

    run_elsewhere-KeepsW : KeepsW id P (run_elsewhere host config)
    unfolding run_elsewhere
    run_elsewhere-KeepsW =
        with_task-KeepsW id P
          (λ task.
            rotate host config.policies task.lane_key task.objective task.spec_id "agent_busy")
          _ (λ task. rotate-On Q host config.policies _ _ _ _)
          (λ started task s h.
            >>=-KeepsW id P (record_start host config (started.0) (started.2)) _
              (record_start-KeepsW _ _)
              (λ _.
                with_task-KeepsW id P
                  (λ task. metric "rotation_success" (rotation_labels task "recovery")) _
                  (λ task. record_metric-On Q _ _ _) (λ _. dispatch_run-KeepsW _ _))
              (record task { agent_id = some (started.1) }) s h)

    is_busy-KeepsW : (e : Failure) → KeepsO id P (is_busy host config e)
    is_busy-KeepsW (agent_busy message) = run_elsewhere-KeepsW
    is_busy-KeepsW _ = tt

    apply_response-KeepsW :
        (answer : Option String) → KeepsW id P (apply_response host config answer)
    apply_response-KeepsW answer task s h =
        go (apply_agent_response host.docs.loads task answer s) refl
          (apply_agent_response-On Q host.docs.loads task answer s h.1)
      where
        go :
            (r : Result TaskEnvelope × Store)
            → apply_agent_response host.docs.loads task answer s ≡ r
            → OnClaims id P r.1
            → Framed id P (applied task r).1 (applied task r).2
        go (ok new, t) e k = (apply_agent_response-task_id host.docs.loads task answer s e ∙ h.0, k)
        go (raise x, t) e k = (h.0, k)

    settle_run-KeepsW :
        (b : Bool) (message : Option String) → KeepsW id P (settle_run host config b message)
    settle_run-KeepsW true message task s h =
        on_store-KeepsW id P (metric "task_failure" (field "kind" (str "run") Fields.end)) _
          (record_metric-On Q _ _ _) (λ _ task s h. h)
          (record task { status = _; failure_kind = _; error_message = _ }) s h
    settle_run-KeepsW false message task s h =
        with_task-KeepsW id P
          (λ task. metric "task_throughput" (field "lane_key" (str task.lane_key) Fields.end)) _
          (λ task. record_metric-On Q _ _ _) (λ _ task s h. h) (record task { status = _ }) s h

    conclude-KeepsW : (outcome : RunOutcome) → KeepsW id P (conclude host config outcome)
    unfolding conclude
    conclude-KeepsW outcome task s h =
        >>=-KeepsW id P (apply_response host config outcome.result_text) _
          (apply_response-KeepsW outcome.result_text)
          (λ _.
            >>=-KeepsW id P
              (settle_run host config (outcome.status == "error") outcome.error_message) _
              (settle_run-KeepsW (outcome.status == "error") outcome.error_message)
              (λ _. >>=-KeepsW id P touch _ touch-KeepsW (λ _.
                >>=-KeepsW id P save _ save-KeepsW (λ _.
                  with_task-KeepsW id P _ _ (λ task. append_event-On Q _ _ _ _)
                    (λ _ task s h. h)))))
          (record task { run_id = some outcome.run_id }) s h

    -- Up to its conclusion, the body of a run keeps the claims and the id.
    pub attempt-KeepsW : (lane : LaneRecord) → KeepsW id P (attempt host config lane)
    unfolding attempt
    attempt-KeepsW lane =
        with_task-KeepsW id P (λ task. build host.docs config.policies lane (some task) none) _
          (λ task. build-On Q _ _ _ _ _)
          (λ preview. on_store-KeepsW id P utcnow _ (utcnow-On Q) (λ now.
            asks-KeepsW id P
              (λ task.
                evaluate config.rotation_policy lane task (envelope_size host config preview) now)
              _
              (λ rotation.
                >>=-KeepsW id P (choose_agent host config lane rotation) _
                  (choose_agent-KeepsW lane rotation)
                  (λ started task s h.
                    lift-KeepsW id P (clear_startup_failures (started.0)) _
                      (λ cleared.
                        >>=-KeepsW id P (record_start host config cleared (started.2)) _
                          (record_start-KeepsW cleared _)
                          (λ _.
                            >>=-KeepsW id P
                              (catch (dispatch_run host config (started.1) (started.2))
                                (is_busy host config))
                              _
                              (catch-KeepsW id P (dispatch_run host config (started.1) (started.2))
                                _ (dispatch_run-KeepsW _ _) is_busy-KeepsW)
                              (λ outcome. conclude-KeepsW outcome)))
                      (record task { agent_id = some (started.1) }) s h))))

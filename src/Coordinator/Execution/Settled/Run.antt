-- ===== src/Coordinator/Execution/Settled/Run.antt =====
-- The run under its locks, with its handlers and its clean-up.
use luis_puentes.Prelude.{String, ◌≡◌, subst, none, List}
use luis_puentes.Result.{Failure, Result, ok, raise}
use luis_puentes.Models.{TaskEnvelope}
use luis_puentes.State.{Store, M, ◌>>◌, pure, utcnow}
use luis_puentes.State.Keeps.{Keeps, >>=-Keeps, for_each-Keeps}
use luis_puentes.State.Returns.{after-Returning, Returning, >>=-Returning}
use luis_puentes.State.Frames.{On, get_lane-On}
use luis_puentes.State.Lanes.{ensure_lane, get_lane}
use luis_puentes.State.Tasks.{save_task}
use luis_puentes.State.Tasks.Saved.{IsSaveOf, save_task-IsSaveOf, save-id}
use luis_puentes.Locks.{release}
use luis_puentes.Locks.Frames.{release-OnTasks}
use luis_puentes.Agents.{Host}
use luis_puentes.Coordinator.{Config}
use luis_puentes.Coordinator.Execution.{
  Outcome, release_all, begin_run, after_attempt, clean_up, handle, keep_outcome, finally,
  run_locked, read_back,
}
use luis_puentes.Coordinator.Execution.Frames.{end_found-On}
use luis_puentes.Coordinator.Execution.Attempt.{attempt}
use luis_puentes.Coordinator.Execution.Framed.Body.{attempt-KeepsW}
use luis_puentes.Coordinator.Execution.Returns.{ReturningW}
use luis_puentes.Coordinator.Execution.Settled.{IsCalm}
use luis_puentes.Coordinator.Execution.Settled.Steps.{
  IsSettled, OnCalm, IsOver, handle-IsOver, read_back-Returning,
}
use luis_puentes.Coordinator.Execution.Settled.Body.{IsSaved, attempt-IsSaved}

module _ (id : String) where
  abbrev Calm : Store → Type 0
  Calm = On (OnCalm id)

  release_all-Calm : (task : TaskEnvelope) (held : List String) → Keeps Calm (release_all task held)
  release_all-Calm task held =
      for_each-Keeps Calm held (λ artifact. release artifact task.lane_key >> pure tt)
        (λ artifact.
          >>=-Keeps Calm (release artifact task.lane_key) _
            (release-OnTasks (λ tasks w. IsCalm id tasks) artifact task.lane_key) (λ _ s h. h))

  clean_up-Calm :
      (host : Host) (task : TaskEnvelope) (held : List String)
      → Keeps Calm (clean_up host task held)
  unfolding clean_up
  clean_up-Calm host task held =
      >>=-Keeps Calm (release_all task held) _ (release_all-Calm task held) (λ _.
        >>=-Keeps Calm (get_lane task.lane_key) _ (get_lane-On (OnCalm id) task.lane_key)
          (end_found-On (OnCalm id) host))

  keep_outcome-IsOver :
      (done : TaskEnvelope) (s : Store) (r : Result (Unit {0}) × Store)
      → IsOver id done s
      → Calm r.1
      → Returning (IsOver id) (keep_outcome (ok done) r)
  keep_outcome-IsOver done s (ok u, t) (same, (h, c)) calm = (same, (h, calm))
  keep_outcome-IsOver done s (raise e, t) h calm = tt

  raised-IsOver :
      (e : Failure) (r : Result (Unit {0}) × Store)
      → Returning (IsOver id) (keep_outcome (raise e) r)
  raised-IsOver e (ok u, t) = tt
  raised-IsOver e (raise x, t) = tt

  finally-IsOver :
      (cleanup : M (Unit {0})) (r : Result TaskEnvelope × Store)
      → Keeps Calm cleanup
      → Returning (IsOver id) r
      → Returning (IsOver id) (finally cleanup r)
  finally-IsOver cleanup (ok done, s) k h = keep_outcome-IsOver done s (cleanup s) h (k s (h.1.1))
  finally-IsOver cleanup (raise e, s) k h = raised-IsOver e (cleanup s)

  after_attempt-IsOver :
      (host : Host) (r : Outcome)
      → r.1.task_id ≡ id
      → ReturningW IsSaved r
      → Returning (IsOver id) (after_attempt host r)
  unfolding after_attempt
  after_attempt-IsOver host (ok u, task, s) same h = (same, rw same at h)
  after_attempt-IsOver host (raise e, task, s) same h =
      subst (λ i. Returning (IsOver i) (handle host e task s)) same (handle-IsOver host e task s)

begin_run-id :
    (config : Config) (task : TaskEnvelope) (s : Store)
    → Returning (λ begun t. begun.1.task_id ≡ task.task_id) (begin_run config task s)
unfolding begin_run
begin_run-id config task s = after-Returning _ (ensure_lane task.lane_key none none) _ s (λ lane u.
    after-Returning _ utcnow _ u (λ a u. after-Returning _ utcnow _ u (λ b u.
      >>=-Returning _ (λ saved t. IsSaveOf _ saved) (save_task _) _ u (save_task-IsSaveOf _ u)
        (λ saved t is_save. save-id _ saved is_save))))

module _ (host : Host) (config : Config) where
  pub run_locked-IsSettled :
      (task : TaskEnvelope) (held : List String) (s : Store)
      → Returning (IsSettled task.task_id) (run_locked host config task held s)
  unfolding run_locked
  run_locked-IsSettled task held s =
      let id = task.task_id in
      >>=-Returning _ (λ begun t. begun.1.task_id ≡ id) (begin_run config task) _ s
        (begin_run-id config task s)
        (λ begun u same.
          >>=-Returning _ (IsOver id)
            (λ s.
              finally (clean_up host (begun.1) held)
                (after_attempt host (attempt host config (begun.0) (begun.1) s)))
            read_back u
            (finally-IsOver id (clean_up host (begun.1) held) _
              (clean_up-Calm id host (begun.1) held)
              (after_attempt-IsOver id host _
                (attempt-KeepsW id (λ c w. Unit) host config (begun.0) (begun.1) u (same, tt)).0
                (attempt-IsSaved host config (begun.0) (begun.1) u)))
            (read_back-Returning id))

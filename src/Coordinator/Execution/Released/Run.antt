-- ===== src/Coordinator/Execution/Released/Run.antt =====
-- A run under its locks, from its start to what it returns or raises.
use luis_puentes.Prelude.{none, sym, ◌∙◌, String, ◌≡◌, refl, ap, subst, true, List, contains, inl}
use luis_puentes.Result.{Result, ok, raise}
use luis_puentes.Models.{TaskEnvelope, ArtifactClaim, LaneRecord}
use luis_puentes.Models.LaneKey.{normalize_lane_key}
use luis_puentes.State.Returns.{Returning, returned, after-Returning, >>=-Returning}
use luis_puentes.State.Tasks.{save_task}
use luis_puentes.State.Tasks.Saved.{save_task-key}
use luis_puentes.State.{utcnow, Store, M, proceed}
use luis_puentes.State.Keeps.{>>=-Keeps}
use luis_puentes.State.Frames.{On, get_lane-On}
use luis_puentes.State.Lanes.{ensure_lane, get_lane}
use luis_puentes.State.Claims.{respects_index}
use luis_puentes.Agents.{Host}
use luis_puentes.Coordinator.{Config}
use luis_puentes.Coordinator.Execution.{
  Outcome, release_all, begin_run, after_attempt, end_found, clean_up, keep_outcome, finally,
  run_locked, read_back,
}
use luis_puentes.Coordinator.Execution.Attempt.{attempt}
use luis_puentes.Coordinator.Execution.Framed.Body.{attempt-KeepsW}
use luis_puentes.Coordinator.Execution.Frames.{
  end_found-On, read_back-On, begin_run-claims, handle-claims,
}
use luis_puentes.Coordinator.Execution.Released.{IsFree, release_all-IsFree}

module _ (w : String) where
  -- The claims as the unique index accepts them, in the workspace.
  abbrev Indexed : List ArtifactClaim → String → Type 0
  Indexed claims workspace = (workspace ≡ w) × (respects_index claims ≡ true)

  abbrev IsIndexed : Store → Type 0
  IsIndexed = On (λ tasks claims workspace. Indexed claims workspace)

  after_attempt-IsIndexed :
      (host : Host) (r : Outcome) → IsIndexed r.2 → IsIndexed (after_attempt host r).1
  unfolding after_attempt
  after_attempt-IsIndexed host (ok u, task, s) h = h
  after_attempt-IsIndexed host (raise e, task, s) h = handle-claims Indexed host e task s h

  module _ (host : Host) (task : TaskEnvelope) (n path : String) (held : List String) where
    abbrev OnFree : List TaskEnvelope → List ArtifactClaim → String → Type 0
    OnFree tasks claims workspace = IsFree w path task.lane_key claims

    clean_up-IsFree :
        (s : Store)
        → IsIndexed s
        → normalize_lane_key task.lane_key ≡ ok n
        → contains held path ≡ true
        → On OnFree (clean_up host task held s).1
    unfolding clean_up
    clean_up-IsFree s (home, index) key locked =
        let (done, free) = release_all-IsFree task n w path held s index key home (inl locked) in
        rw done (
          >>=-Keeps (On OnFree) (get_lane task.lane_key) (end_found host)
            (get_lane-On OnFree task.lane_key) (end_found-On OnFree host)
            (release_all task held s).1 free)

    finally-IsFree :
        (cleanup : M (Unit {0})) (r : Result TaskEnvelope × Store)
        → On OnFree (cleanup r.1).1
        → On OnFree (finally cleanup r).1
    finally-IsFree cleanup (r, s) h = go (cleanup s) h
      where
        go : (c : Result (Unit {0}) × Store) → On OnFree c.1 → On OnFree (keep_outcome r c).1
        go (ok u, t) h = h
        go (raise e, t) h = h

    read_back-IsFree :
        (r : Result TaskEnvelope × Store) → On OnFree r.1 → On OnFree (proceed r.0 read_back r.1).1
    read_back-IsFree (ok done, t) h = read_back-On OnFree done t h
    read_back-IsFree (raise e, t) h = h

begin_run-key :
    (config : Config) (task : TaskEnvelope) (s : Store)
    → Returning
        (λ begun t. normalize_lane_key task.lane_key ≡ ok (begun.1.lane_key))
        (begin_run config task s)
unfolding begin_run
begin_run-key config task s = after-Returning _ (ensure_lane task.lane_key none none) _ s (λ lane u.
    after-Returning _ utcnow _ u (λ a u. after-Returning _ utcnow _ u (λ b u.
      >>=-Returning _ (λ saved t. normalize_lane_key task.lane_key ≡ ok (saved.lane_key))
        (save_task _) _ u (save_task-key _ u) (λ saved t key. key))))

-- Once a run under locks has begun, the lane holds no open claim afterwards on any artifact that was
-- locked for it: whatever the runtime does, and whether the run returns or raises. The unique index must accept the
-- claims, and the lane key of the task be a normalized one, as that of a task that was saved is.
pub run_locked-released :
    (host : Host) (config : Config) (task : TaskEnvelope) (held : List String) (path : String)
    (s : Store) {begun : LaneRecord × TaskEnvelope} {u : Store}
    → respects_index s.claims ≡ true
    → normalize_lane_key task.lane_key ≡ ok task.lane_key
    → contains held path ≡ true
    → begin_run config task s ≡ (ok begun, u)
    → IsFree s.workspace path task.lane_key (run_locked host config task held s).1.claims
unfolding run_locked
run_locked-released host config task held path s {begun} {u} index key locked begins =
    let w = s.workspace in
    let run : TaskEnvelope = begun.1 in
    let same : task.lane_key ≡ run.lane_key = cc (
      key,
      returned (λ b t. normalize_lane_key task.lane_key ≡ ok (b.1.lane_key))
          (begin_run-key config task s) begins,
    ) in
    let run_key : normalize_lane_key run.lane_key ≡ ok task.lane_key =
      ap normalize_lane_key (sym same) ∙ key in
    let start : IsIndexed w u =
      subst (λ (v : Store). IsIndexed w v) (ap (λ p. p.1) begins)
        (begin_run-claims (Indexed w) config task s (refl, index)) in
    let tried = attempt host config (begun.0) run u in
    let kept =
      (attempt-KeepsW run.task_id (Indexed w) host config (begun.0) run u (refl, start)).1 in
    let handled = after_attempt host tried in
    let free = finally-IsFree w host run task.lane_key path held (clean_up host run held) handled (
      clean_up-IsFree w host run task.lane_key path held handled.1
        (after_attempt-IsIndexed w host tried kept) run_key locked) in
    let cleaned = finally (clean_up host run held) handled in
    let done = read_back-IsFree w host run task.lane_key path held cleaned free in
    rw begins (
      subst (λ k. IsFree w path k (proceed cleaned.0 read_back cleaned.1).1.claims) (sym same) done)

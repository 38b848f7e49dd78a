-- ===== src/Coordinator/Cycle/Lanes.antt =====
-- The batches of a cycle, and what their runs return.
use luis_puentes.Prelude.{
  ℕ, suc, String, ◌≡◌, refl, sym, ◌∙◌, ap, Bool, true, false, none, some, List, [], ◌∷◌, ◌++◌, ◌==◌,
  if◌then◌else◌, keep, All, arith, eq_iff, Bool-cases, inl, inr,
}
use mathlib.Core.List.{append-nil, append_assoc}
use luis_puentes.Result.{ok}
use luis_puentes.Models.{num, obj, TaskEnvelope, set_field}
use luis_puentes.Models.Metadata.{get-set_field}
use luis_puentes.Models.LaneKey.{normalize_lane_key}
use luis_puentes.State.{Store, lift, utcnow, append_event}
use luis_puentes.State.Returns.{Returning, returned, returns, >>=-Returning, after-Returning}
use luis_puentes.State.Tasks.{save_task}
use luis_puentes.State.Tasks.Saved.{IsSaveOf, save_task-IsSaveOf}
use luis_puentes.State.Lanes.{get_lane}
use luis_puentes.Agents.{Host}
use luis_puentes.Coordinator.{Config}
use luis_puentes.Coordinator.Routing.{sync_source_message}
use luis_puentes.Coordinator.Execution.{execute_task}
use luis_puentes.Coordinator.Execution.Settled.{is_running}
use luis_puentes.Coordinator.Execution.Settled.Execute.{execute_task-IsSettled}
use luis_puentes.Coordinator.Cycle.{
  Batches, add_task, by_lane, has_key, proposed_route, with_route, propose_route, propose_routes,
  run_tasks, run_open, run_lane,
}

-- The tasks under a key.
abbrev pub batch : String → Batches → List TaskEnvelope
batch key [] = []
batch key ((k, tasks) ∷ batches) = let rest = batch key batches in if k == key then tasks else rest

abbrev pub has_lane : String → TaskEnvelope → Bool
has_lane key task = task.lane_key == key

batch-add_task :
    (key : String) (task : TaskEnvelope) (batches : Batches)
    → batch key (add_task task batches) ≡ batch key batches ++ keep (has_lane key) (task ∷ [])
batch-add_task key task [] = elim (Bool-cases (task.lane_key == key)) [
  | inl e ↦ rw e refl
  | inr e ↦ rw e refl
]
batch-add_task key task ((k, tasks) ∷ batches) = elim (Bool-cases (k == task.lane_key)) [
  | inl e ↦ elim (Bool-cases (k == key)) [
    | inl f ↦ rw (e, f, is_same (sym ((eq_iff k task.lane_key).0 e) ∙ (eq_iff k key).0 f)) refl
    | inr f ↦
        rw (e, f, ap (λ n. n == key) (sym ((eq_iff k task.lane_key).0 e)) ∙ f)
          (sym (append-nil (batch key batches)))
  ]
  | inr e ↦ elim (Bool-cases (k == key)) [
    | inl f ↦ rw (e, f, other e ((eq_iff k key).0 f)) (sym (append-nil tasks))
    | inr f ↦ rw (e, f) (batch-add_task key task batches)
  ]
]
  where
    is_same : task.lane_key ≡ key → (task.lane_key == key) ≡ true
    is_same h = (eq_iff task.lane_key key).1 h

    other : (k == task.lane_key) ≡ false → k ≡ key → (task.lane_key == key) ≡ false
    other e h = ground (arith, eq_iff k task.lane_key, eq_iff task.lane_key key)

batch-by_lane :
    (key : String) (tasks : List TaskEnvelope) (batches : Batches)
    → batch key (by_lane tasks batches) ≡ batch key batches ++ keep (has_lane key) tasks
unfolding by_lane
batch-by_lane key [] batches = sym (append-nil (batch key batches))
batch-by_lane key (task ∷ tasks) batches =
    batch-by_lane key tasks (add_task task batches)
    ∙ ap (λ b. b ++ keep (has_lane key) tasks) (batch-add_task key task batches)
    ∙ append_assoc (batch key batches) (keep (has_lane key) (task ∷ [])) (keep (has_lane key) tasks)
    ∙ elim (Bool-cases (has_lane key task)) [ inl e ↦ rw e refl | inr e ↦ rw e refl ]

-- Grouping a list of tasks by lane gives for each lane the tasks of the list that have that lane, all of
-- them and in the order of the list.
pub by_lane-reference :
    (key : String) (tasks : List TaskEnvelope)
    → batch key (by_lane tasks []) ≡ keep (has_lane key) tasks
by_lane-reference key tasks = batch-by_lane key tasks []

module _ (host : Host) (config : Config) where
  abbrev pub IsDone : TaskEnvelope → Type 0
  IsDone task = is_running task.status ≡ false

  run_tasks-IsDone :
      (tasks : List TaskEnvelope) (s : Store)
      → Returning (λ done t. All IsDone done) (run_tasks host config tasks s)
  unfolding run_tasks
  run_tasks-IsDone [] s = tt
  run_tasks-IsDone (task ∷ tasks) s =
      >>=-Returning _ (λ done t. IsDone done) (execute_task host config task) _ s
        (returns _ (execute_task host config task s)
          (λ done t e. (execute_task-IsSettled host config task s e).0))
        (λ done t h. after-Returning _ (sync_source_message done) _ t (λ _ u.
          >>=-Returning _ (λ others v. All IsDone others) (run_tasks host config tasks) _ u
            (run_tasks-IsDone tasks u) (λ others v k. (h, k))))

  run_open-IsDone :
      (lane_key : String) (tasks : List TaskEnvelope) (paused : Bool) (s : Store)
      → Returning (λ done t. All IsDone done) (run_open host config lane_key tasks paused s)
  run_open-IsDone lane_key tasks true s = tt
  run_open-IsDone lane_key tasks false s =
      after-Returning _ (lift (normalize_lane_key lane_key)) _ s (λ key u. run_tasks-IsDone tasks u)

  run_lane-Returning :
      (lane_key : String) (tasks : List TaskEnvelope) (s : Store)
      → Returning (λ done t. All IsDone done) (run_lane host config lane_key tasks s)
  unfolding run_lane
  run_lane-Returning lane_key tasks s =
      after-Returning _ (get_lane lane_key) _ s (λ lane u. run_open-IsDone lane_key tasks _ u)

-- When the run of a lane returns, no task that it returns is running.
pub run_lane-IsDone :
    (host : Host) (config : Config) (lane_key : String) (tasks : List TaskEnvelope) (s : Store)
    {done : List TaskEnvelope} {t : Store}
    → run_lane host config lane_key tasks s ≡ (ok done, t)
    → All (λ task. is_running task.status ≡ false) done
run_lane-IsDone host config lane_key tasks s h =
    returned (λ done t. All (IsDone host config) done)
      (run_lane-Returning host config lane_key tasks s) h

abbrev pub IsProposed : TaskEnvelope → Type 0
IsProposed task = has_key task.metadata "shadow_proposed_at" ≡ true

with_route-IsProposed : (task : TaskEnvelope) (a b : ℕ) → IsProposed (with_route task a b)
with_route-IsProposed task a b =
    ap (λ o. elim o as (λ _. Bool) [ none ↦ false | some v ↦ true ])
      (get-set_field (set_field task.metadata "proposed_route" (obj (proposed_route task)))
        "shadow_proposed_at" "shadow_proposed_at" (num a))

propose_route-IsProposed :
    (task : TaskEnvelope) (s : Store)
    → Returning (λ out t. IsProposed (out.0)) (propose_route task s)
unfolding propose_route utcnow
propose_route-IsProposed task s = elim (Bool-cases (has_key task.metadata "shadow_proposed_at")) [
  | inl e ↦ rw e e
  | inr e ↦ rw e (
      >>=-Returning _ (λ saved t. IsSaveOf _ saved) (save_task _) _ _ (save_task-IsSaveOf _ _)
        (λ saved u is_save. after-Returning _ (append_event _ _ _ _) _ u (λ _ v.
          ap (λ (x : TaskEnvelope). has_key x.metadata "shadow_proposed_at") is_save.2
          ∙ with_route-IsProposed task (s.now s.clock_reads) (s.now (suc s.clock_reads)))))
]

propose_routes-IsProposed :
    (tasks : List TaskEnvelope) (s : Store)
    → Returning (λ out t. All IsProposed (out.0)) (propose_routes tasks s)
unfolding propose_routes
propose_routes-IsProposed [] s = tt
propose_routes-IsProposed (task ∷ tasks) s =
    >>=-Returning _ (λ out t. IsProposed (out.0)) (propose_route task) _ s
      (propose_route-IsProposed task s)
      (λ out u h.
        >>=-Returning _ (λ others t. All IsProposed (others.0)) (propose_routes tasks) _ u
          (propose_routes-IsProposed tasks u) (λ others v k. (h, k)))

propose_routes-idle :
    (tasks : List TaskEnvelope) (s : Store)
    → All IsProposed tasks
    → propose_routes tasks s ≡ (ok (tasks, 0), s)
unfolding propose_routes propose_route
propose_routes-idle [] s h = refl
propose_routes-idle (task ∷ tasks) s (h, k) = rw (h, propose_routes-idle tasks s k) refl

-- A shadow coordinator proposes a route once: on the tasks that one pass returned, another pass proposes
-- nothing and writes nothing, on any store.
pub propose_routes-once :
    (tasks out : List TaskEnvelope) (n : ℕ) (s t u : Store)
    → propose_routes tasks s ≡ (ok (out, n), t)
    → propose_routes out u ≡ (ok (out, 0), u)
propose_routes-once tasks out n s t u h =
    propose_routes-idle out u
      (returned (λ o t. All IsProposed (o.0)) (propose_routes-IsProposed tasks s) h)

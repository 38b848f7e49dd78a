-- ===== src/Coordinator/Cycle.antt =====
-- One cycle of orchestrator/coordinator.py: the recovery at its start, the proposals of a shadow
-- coordinator, and the queued tasks run lane by lane.
pub mod Recovering
pub mod Lanes
use luis_puentes.Prelude.{
  ℕ, suc, zero, ◌+◌, String, Bool, true, false, Option, none, some, List, [], ◌∷◌, ◌++◌, ◌==◌, ◌||◌,
  contains, length, take, map, if◌then◌else◌,
}
use luis_puentes.Result.{Result, ok, raise}
use luis_puentes.Models.{
  Json, Fields, field, str, num, bool, obj, TaskEnvelope, TaskStatus, LaneRecord, LaneStatus,
  get_field, set_field,
}
use luis_puentes.Models.LaneKey.{normalize_lane_key}
use luis_puentes.State.{Store, M, ◌>>=◌, ◌>>◌, pure, lift, gets, modify, utcnow, append_event}
use luis_puentes.State.Lanes.{get_lane, export_lane_registry}
use luis_puentes.State.Tasks.{save_task, list_tasks}
use luis_puentes.Context.{text_or_null}
use luis_puentes.Agents.{Host}
use luis_puentes.Coordinator.{Config, Mode}
use luis_puentes.Coordinator.Routing.{route_pending_messages, sync_source_message}
use luis_puentes.Coordinator.Execution.{execute_task}
use luis_puentes.Coordinator.Cycle.Recovering.{Backups, recover}

abbrev pub is_shadow : Mode → Bool
is_shadow Mode.shadow = true
is_shadow _ = false

abbrev pub has_key : Fields → String → Bool
has_key fs key = elim (get_field fs key) [ none ↦ false | some v ↦ true ]

abbrev pub proposed_route : TaskEnvelope → Fields
proposed_route task = field "lane_key" (str task.lane_key) (
    field "spec_id" (text_or_null task.spec_id)
      (field "requires_approval" (bool task.permissions.write_files) Fields.end))

-- The task with its proposed route, and the two readings of the clock.
abbrev pub with_route : TaskEnvelope → ℕ → ℕ → TaskEnvelope
with_route task proposed_at updated_at = record task {
  metadata =
      set_field (set_field task.metadata "proposed_route" (obj (proposed_route task)))
        "shadow_proposed_at" (num proposed_at);
  updated_at = updated_at;
}

abbrev pub propose_new : TaskEnvelope → M (TaskEnvelope × ℕ)
propose_new task = do
  proposed_at ← utcnow
  updated_at ← utcnow
  saved ← save_task (with_route task proposed_at updated_at)
  append_event "route.proposed" (some "task") (some task.task_id) (proposed_route task)
  pure (saved, 1)

-- The task as it is afterwards, and whether it was proposed now, as a number.
unfoldable pub propose_route : TaskEnvelope → M (TaskEnvelope × ℕ)
propose_route task =
    if has_key task.metadata "shadow_proposed_at" then pure (task, 0) else propose_new task

unfoldable pub propose_routes : List TaskEnvelope → M (List TaskEnvelope × ℕ)
propose_routes [] = pure ([], 0)
propose_routes (task ∷ tasks) =
    let rest = propose_routes tasks in
    do first ← propose_route task; others ← rest; pure (first.0 ∷ others.0, first.1 + others.1)

abbrev pub set_stats : ℕ → ℕ → M (Unit {0})
set_stats processed proposed = modify (λ s. record s {
  memory = record (s.memory) { processed_tasks = processed; proposed_routes = proposed };
})

abbrev pub shadow_cycle : List TaskEnvelope → M (List TaskEnvelope)
shadow_cycle tasks = do outcome ← propose_routes tasks; set_stats 0 (outcome.1); pure (outcome.0)

-- `by_lane.setdefault(task.lane_key, []).append(task)`
abbrev pub Batches : Type 0
Batches = List (String × List TaskEnvelope)

abbrev pub add_task : TaskEnvelope → Batches → Batches
add_task task [] = (task.lane_key, task ∷ []) ∷ []
add_task task ((key, tasks) ∷ batches) =
    let rest = add_task task batches in
    if key == task.lane_key then (key, tasks ++ task ∷ []) ∷ batches else (key, tasks) ∷ rest

unfoldable pub by_lane : List TaskEnvelope → Batches → Batches
by_lane [] batches = batches
by_lane (task ∷ tasks) batches = by_lane tasks (add_task task batches)

abbrev pub is_paused : Option LaneRecord → Bool
is_paused none = false
is_paused (some lane) = elim lane.status [ LaneStatus.paused ↦ true | _ ↦ false ]

-- The tasks of a lane, one after the other.
unfoldable pub run_tasks : Host → Config → List TaskEnvelope → M (List TaskEnvelope)
run_tasks host config [] = pure []
run_tasks host config (task ∷ tasks) =
    let rest = run_tasks host config tasks in
    do
      done ← execute_task host config task
      sync_source_message done
      others ← rest
      pure (done ∷ others)

-- `async with self._lane_lock(lane_key)`: the lock is that of the normalized key.
abbrev pub run_open : Host → Config → String → List TaskEnvelope → Bool → M (List TaskEnvelope)
run_open host config lane_key tasks true = pure []
run_open host config lane_key tasks false = do
  key ← lift (normalize_lane_key lane_key)
  run_tasks host config tasks

unfoldable pub run_lane : Host → Config → String → List TaskEnvelope → M (List TaskEnvelope)
run_lane host config lane_key tasks = do
  lane ← get_lane lane_key
  paused ← gets (λ s. contains (s.memory).paused_lanes lane_key)
  run_open host config lane_key tasks (paused || is_paused lane)

-- `asyncio.gather` on the runs of the lanes: how they interleave is its own.
abbrev pub Gather : Type 0
Gather = List (M (List TaskEnvelope)) → M (List (List TaskEnvelope))

abbrev pub join_batches : List (List TaskEnvelope) → List TaskEnvelope
join_batches [] = []
join_batches (batch ∷ batches) = batch ++ join_batches batches

abbrev pub run_lanes : Host → Config → Gather → List TaskEnvelope → M (List TaskEnvelope)
run_lanes host config gather tasks = do
  batches ← gather (map (λ b. run_lane host config (b.0) (b.1)) (by_lane tasks []))
  let results = join_batches batches
  modify (λ s. record s { memory = record (s.memory) { processed_tasks = length results } })
  export_lane_registry
  pure results

abbrev pub run_queued : Host → Config → Gather → ℕ → List TaskEnvelope → M (List TaskEnvelope)
run_queued host config gather max_tasks [] = pure []
run_queued host config gather max_tasks (task ∷ tasks) =
    if is_shadow config.mode
    then shadow_cycle (take max_tasks (task ∷ tasks))
    else run_lanes host config gather (take max_tasks (task ∷ tasks))

unfoldable pub process : Host → Backups → Config → Gather → ℕ → M (List TaskEnvelope)
process host backups config gather max_tasks = do
  recover backups none 14
  route_pending_messages config max_tasks
  queued ← gets (list_tasks TaskStatus.queued)
  set_stats 0 0
  run_queued host config gather max_tasks queued

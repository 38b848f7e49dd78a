-- ===== src/State/Recovery.antt =====
-- The sweeps of orchestrator/state.py: rows past their time, and runs that a restart interrupted.
pub mod Interrupted
pub mod Expired
use luis_puentes.Prelude.{
  ℕ, suc, ◌+◌, String, Bool, true, false, Option, none, some, List, [], ◌∷◌, ◌++◌, ◌==◌, ◌&&◌, ◌||◌,
  not, ltb, length, contains, keep, any, update_where, map, if◌then◌else◌,
}
use luis_puentes.Result.{Result, ok, raise}
use luis_puentes.Models.{
  Json, Fields, field, null, num, str, TaskEnvelope, TaskStatus, MessageEnvelope, MessageStatus,
  LaneRecord, ArtifactClaim, task_status_value, get_field, set_field, pop_field,
}
use luis_puentes.Models.Metadata.{int_field}
use luis_puentes.State.{Store, M, ◌>>=◌, ◌>>◌, pure, lift, gets, modify, for_each, utcnow, uuid4}
use luis_puentes.State.Tasks
use luis_puentes.State.Tasks.{list_tasks}
use luis_puentes.State.Messages
use luis_puentes.State.Claims.{is_open}

-- `expires_at IS NOT NULL AND expires_at < ?`
abbrev pub is_past : Option ℕ → ℕ → Bool
is_past none current = false
is_past (some t) current = ltb t current

-- `status IN ('queued', 'paused')`
abbrev pub is_waiting : TaskStatus → Bool
is_waiting TaskStatus.queued = true
is_waiting TaskStatus.paused = true
is_waiting _ = false

abbrev pub is_pending : MessageStatus → Bool
is_pending MessageStatus.pending = true
is_pending _ = false

abbrev pub is_orphan_task : String → ℕ → TaskEnvelope → Bool
is_orphan_task workspace current t =
    t.workspace == workspace && is_waiting t.status && is_past t.expires_at current

abbrev pub is_orphan_message : String → ℕ → MessageEnvelope → Bool
is_orphan_message workspace current m =
    m.workspace == workspace && is_pending m.status && is_past m.expires_at current

unfoldable pub expire_task : TaskEnvelope → M (Unit {0})
unfolding utcnow
expire_task task = do
  now ← utcnow
  modify (λ s. record s {
    tasks =
        update_where (Tasks.has_id task.task_id)
          (λ t. record t { status = TaskStatus.expired; updated_at = now }) s.tasks;
  })

unfoldable pub expire_message : MessageEnvelope → M (Unit {0})
unfolding utcnow
expire_message message = do
  now ← utcnow
  modify (λ s. record s {
    messages =
        update_where (Messages.has_id message.message_id)
          (λ m. record m { status = MessageStatus.expired; updated_at = now }) s.messages;
  })

-- The numbers of tasks and of messages that expired.
unfoldable pub expire_orphans : Option ℕ → M (ℕ × ℕ)
expire_orphans now = do
  current ← elim now [ none ↦ utcnow | some t ↦ pure t ]
  tasks ← gets (λ s. keep (is_orphan_task s.workspace current) s.tasks)
  for_each tasks expire_task
  messages ← gets (λ s. keep (is_orphan_message s.workspace current) s.messages)
  for_each messages expire_message
  pure (length tasks, length messages)

-- `live_service_token and run_owner == live_service_token`
abbrev pub is_owned : Option String → TaskEnvelope → Bool
is_owned none task = false
is_owned (some token) task =
    not (token == "")
    && elim (get_field task.metadata "run_owner") [ some (str owner) ↦ owner == token | _ ↦ false ]

abbrev pub is_running : TaskStatus → Bool
is_running TaskStatus.running = true
is_running _ = false

abbrev pub is_claim_of : String → String → ArtifactClaim → Bool
is_claim_of workspace task_id claim =
    claim.workspace == workspace && Tasks.same_text claim.task_id task_id && is_open claim

abbrev pub opt_json : Option String → Json
opt_json none = null
opt_json (some s) = str s

-- The metadata of a task that is put back into the queue.
abbrev pub recovered_metadata : TaskEnvelope → ℕ → ℕ → Fields
recovered_metadata task now recoveries =
    let timed = set_field task.metadata "restart_recovered_at" (num now) in
    let counted = set_field timed "restart_recovery_count" (num (recoveries + 1)) in
    pop_field (set_field counted "interrupted_run_id" (opt_json task.run_id)) "run_owner"

-- `WHERE workspace = ? AND task_id = ? AND status = 'running'`
abbrev pub is_run : String → String → TaskEnvelope → Bool
is_run workspace task_id t = t.workspace == workspace && t.task_id == task_id && is_running t.status

abbrev pub requeue : ℕ → Fields → TaskEnvelope → TaskEnvelope
requeue now metadata t = record t {
  status = TaskStatus.queued;
  run_id = none;
  updated_at = now;
  metadata = metadata;
}

abbrev pub paths_of : String → List ArtifactClaim → List String
paths_of lane_key claims = map (λ c. c.artifact_path) (keep (λ c. c.lane_key == lane_key) claims)

-- A lane that held some of the claims gives their paths up.
abbrev pub give_up : List ArtifactClaim → ℕ → LaneRecord → LaneRecord
give_up claims now lane = record lane {
  active_artifact_claims =
      keep (λ path. not (contains (paths_of lane.lane_key claims) path))
        lane.active_artifact_claims;
  updated_at = now;
}

unfoldable pub recover_task : ℕ → TaskEnvelope → M (Unit {0})
unfolding uuid4
recover_task now task = do
  claims ← gets (λ s. keep (is_claim_of s.workspace task.task_id) s.claims)
  recoveries ← lift (int_field task.metadata "restart_recovery_count")
  modify (λ s. record s {
    tasks =
        update_where (is_run s.workspace task.task_id)
          (requeue now (recovered_metadata task now recoveries)) s.tasks;
  })
  modify (λ s. record s {
    claims =
        update_where (is_claim_of s.workspace task.task_id)
          (λ c. record c { released_at = some now }) s.claims;
  })
  modify (λ s. record s {
    lanes =
        update_where
          (λ lane. lane.workspace == s.workspace && any (λ c. c.lane_key == lane.lane_key) claims)
          (give_up claims now) s.lanes;
  })
  event_id ← uuid4
  modify (λ s. record s {
    events =
        s.events
        ++ record {
          event_id = event_id;
          workspace = s.workspace;
          event_type = "task.restart_recovered";
          entity_type = some "task";
          entity_id = some task.task_id;
          payload =
              field "interrupted_run_id" (opt_json task.run_id)
                (field "released_claims" (num (length claims)) Fields.end);
          created_at = now;
        }
          ∷ [];
  })

-- `BEGIN IMMEDIATE`, and a rollback if the body raises.
abbrev pub settle {ℓ} : {A : Type ℓ} → Store → Result A × Store → Result A × Store
settle s (ok a, t) = (ok a, t)
settle s (raise e, t) = (raise e, record s { clock_reads = t.clock_reads; ids_drawn = t.ids_drawn })

abbrev pub transaction {ℓ} : {A : Type ℓ} → M A → M A
transaction m s = settle s (m s)

unfoldable pub recover_rows : Option String → ℕ → M (List String)
recover_rows live_service_token now = do
  rows ←
      gets (λ s. keep (λ t. not (is_owned live_service_token t)) (list_tasks TaskStatus.running s))
  for_each rows (recover_task now)
  pure (map (λ t. t.task_id) rows)

-- The ids of the tasks that went back into the queue.
unfoldable pub recover_interrupted_tasks : Option String → M (List String)
recover_interrupted_tasks live_service_token = do
  now ← utcnow
  transaction (recover_rows live_service_token now)

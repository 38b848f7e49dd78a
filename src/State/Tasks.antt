-- ===== src/State/Tasks.antt =====
-- The task rows of orchestrator/state.py. The primary key is task_id, and UNIQUE(workspace,
-- idempotency_key) holds besides; rows with no idempotency key are never alike.
pub mod Saved
use luis_puentes.Prelude.{
  ℕ, suc, String, Bool, true, false, Option, none, some, List, [], ◌∷◌, ◌++◌, ◌==◌, ◌&&◌, ◌||◌,
  if◌then◌else◌, leb, ltb, first, any, keep, count, update_where, sort_by, map,
}
use luis_puentes.Result.{raise, ok, integrity_error}
use luis_puentes.Models.{TaskEnvelope, TaskStatus, task_status_value}
use luis_puentes.Models.LaneKey.{normalize_lane_key}
use luis_puentes.State.{Store, M, ◌>>=◌, ◌>>◌, pure, throw, lift, gets, modify, utcnow}

abbrev pub has_id : String → TaskEnvelope → Bool
has_id task_id row = row.task_id == task_id

abbrev pub has_own_id : String → String → TaskEnvelope → Bool
has_own_id workspace task_id row = row.task_id == task_id && row.workspace == workspace

abbrev pub same_text : Option String → String → Bool
same_text none key = false
same_text (some k) key = k == key

-- `workspace = ? AND idempotency_key = ?`
abbrev pub has_idempotency : String → String → TaskEnvelope → Bool
has_idempotency workspace key row = row.workspace == workspace && same_text row.idempotency_key key

-- The columns that `DO UPDATE SET` names.
unfoldable pub overwrite_task : TaskEnvelope → TaskEnvelope → TaskEnvelope
overwrite_task task row = record row {
  status = task.status;
  evidence = task.evidence;
  updated_at = task.updated_at;
  expires_at = task.expires_at;
  agent_id = task.agent_id;
  run_id = task.run_id;
  failure_kind = task.failure_kind;
  error_message = task.error_message;
  metadata = task.metadata;
}

-- Whether the unique index refuses a new row.
abbrev pub repeats_key : TaskEnvelope → List TaskEnvelope → Bool
repeats_key task rows = elim task.idempotency_key [
  | none ↦ false
  | some key ↦ any (has_idempotency task.workspace key) rows
]

unfoldable pub put_task : TaskEnvelope → M (Unit {0})
unfolding overwrite_task
put_task task s =
    if any (has_id task.task_id) s.tasks
    then (
      ok tt,
      record s { tasks = update_where (has_id task.task_id) (overwrite_task task) s.tasks },
    )
    else if repeats_key task s.tasks
    then (raise integrity_error, s)
    else (ok tt, record s { tasks = s.tasks ++ task ∷ [] })

-- The task that it returns is the caller's own, whose lane key it has normalized.
unfoldable pub save_task : TaskEnvelope → M TaskEnvelope
unfolding put_task
save_task task = do
  lane_key ← lift (normalize_lane_key task.lane_key)
  let normal : TaskEnvelope = record task { lane_key = lane_key }
  put_task normal
  pure normal

unfoldable pub get_task : String → M (Option TaskEnvelope)
get_task task_id s = (ok (first (has_own_id s.workspace task_id) s.tasks), s)

unfoldable pub get_task_by_idempotency : String → M (Option TaskEnvelope)
get_task_by_idempotency key s = (ok (first (has_idempotency s.workspace key) s.tasks), s)

abbrev pub created_le : TaskEnvelope → TaskEnvelope → Bool
created_le a b = leb a.created_at b.created_at

abbrev pub has_status : String → TaskStatus → TaskEnvelope → Bool
has_status workspace status row =
    row.workspace == workspace && task_status_value row.status == task_status_value status

-- `list_tasks(status)`
unfoldable pub list_tasks : TaskStatus → Store → List TaskEnvelope
unfolding task_status_value
list_tasks status s = sort_by created_le (keep (has_status s.workspace status) s.tasks)

-- `list_tasks()`
unfoldable pub list_all_tasks : Store → List TaskEnvelope
list_all_tasks s = sort_by created_le (keep (λ t. t.workspace == s.workspace) s.tasks)

unfoldable pub dead_letter_task : String → String → M (Unit {0})
unfolding utcnow
dead_letter_task task_id reason = do
  now ← utcnow
  modify (λ s. record s {
    tasks =
        update_where (has_own_id s.workspace task_id)
          (λ t. record t {
            status = TaskStatus.dead_letter;
            error_message = some reason;
            updated_at = now;
          })
          s.tasks;
  })

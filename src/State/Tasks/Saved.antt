-- ===== src/State/Tasks/Saved.antt =====
-- What `get_task` reads after `save_task`.
use luis_puentes.Prelude.{
  String, ◌≡◌, refl, ap, true, false, some, List, [], ◌∷◌, ◌++◌, arith, eq_iff, eq_refl, first, any,
  update_where, inl, inr, first-update_where, first-append_none,
}
use luis_puentes.Result.{ok}
use luis_puentes.Models.{TaskEnvelope}
use luis_puentes.Models.LaneKey.{normalize_lane_key}
use luis_puentes.State.{Store}
use luis_puentes.State.Laws.{Result-cases}
use luis_puentes.State.Returns.{Returning, after-Returning}
use luis_puentes.State.Tasks.{
  has_id, has_own_id, repeats_key, overwrite_task, put_task, save_task, get_task,
}

own-id : (w id : String) (t : TaskEnvelope) → has_own_id w id t ≡ true → has_id id t ≡ true
own-id w id t h = ground arith

own-overwrite :
    (w id : String) (task t : TaskEnvelope)
    → has_own_id w id (overwrite_task task t) ≡ has_own_id w id t
unfolding overwrite_task
own-overwrite w id task t = refl

own-any :
    (w id : String) (rows : List TaskEnvelope) (row : TaskEnvelope)
    → first (has_own_id w id) rows ≡ some row
    → any (has_id id) rows ≡ true
own-any w id [] row h = cc
own-any w id (t ∷ rows) row h = ground (arith, own-any w id rows row)

-- The store after a task with a row of its own was saved.
abbrev pub resaved : TaskEnvelope → Store → Store
resaved task s = record s {
  tasks = update_where (has_id task.task_id) (overwrite_task task) s.tasks;
}

pub save_task-resaved :
    (task : TaskEnvelope) (n : String) (s : Store) (row : TaskEnvelope)
    → normalize_lane_key task.lane_key ≡ ok n
    → first (has_own_id s.workspace task.task_id) s.tasks ≡ some row
    → save_task task s ≡ (ok (record task { lane_key = n }), resaved task s)
unfolding save_task put_task overwrite_task
save_task-resaved task n s row key old =
    ground (arith, key, own-any s.workspace task.task_id s.tasks row old)

-- Saving a task that has a row changes the columns that the statement names, in that row.
pub get_task-resaved :
    (task : TaskEnvelope) (s : Store) (row : TaskEnvelope)
    → first (has_own_id s.workspace task.task_id) s.tasks ≡ some row
    → get_task task.task_id (resaved task s) ≡ (ok (some (overwrite_task task row)), resaved task s)
unfolding get_task
get_task-resaved task s row old = rw (
    first-update_where (has_own_id s.workspace task.task_id) (has_id task.task_id)
      (overwrite_task task) s.tasks row (own-id s.workspace task.task_id)
      (own-overwrite s.workspace task.task_id task) old)

-- The store after a new task was saved.
abbrev pub added : TaskEnvelope → Store → Store
added task s = record s { tasks = s.tasks ++ task ∷ [] }

pub save_task-added :
    (task : TaskEnvelope) (n : String) (s : Store)
    → normalize_lane_key task.lane_key ≡ ok n
    → any (has_id task.task_id) s.tasks ≡ false
    → repeats_key task s.tasks ≡ false
    → save_task task s ≡ (ok (record task { lane_key = n }), added (record task { lane_key = n }) s)
unfolding save_task put_task
save_task-added task n s key new unseen = ground (arith, key)

own-none :
    (w id : String) (rows : List TaskEnvelope)
    → any (has_id id) rows ≡ false
    → any (has_own_id w id) rows ≡ false
own-none w id [] h = refl
own-none w id (t ∷ rows) h = ground (arith, own-none w id rows)

get_task-added :
    (task : TaskEnvelope) (s : Store)
    → task.workspace ≡ s.workspace
    → any (has_id task.task_id) s.tasks ≡ false
    → get_task task.task_id (added task s) ≡ (ok (some task), added task s)
unfolding get_task
get_task-added task s home new = ground (
  arith,
  first-append_none (has_own_id s.workspace task.task_id) s.tasks (task ∷ []),
  own-none s.workspace task.task_id s.tasks,
  eq_refl task.task_id,
  eq_iff task.workspace s.workspace,
)

-- What save_task returns: the task with its lane key normalized.
abbrev pub IsSaveOf : TaskEnvelope → TaskEnvelope → Type 0
IsSaveOf task saved =
    (n : String) × (normalize_lane_key task.lane_key ≡ ok n)
    × (saved ≡ record task { lane_key = n })

pub save_task-IsSaveOf :
    (task : TaskEnvelope) (s : Store)
    → Returning (λ saved t. IsSaveOf task saved) (save_task task s)
unfolding save_task
save_task-IsSaveOf task s = elim (Result-cases (normalize_lane_key task.lane_key)) [
  | inl (key, e) ↦ rw e (after-Returning _ (put_task _) _ s (λ _ u. (key, refl, refl)))
  | inr (x, e) ↦ rw e tt
]

pub save-id : (task saved : TaskEnvelope) → IsSaveOf task saved → saved.task_id ≡ task.task_id
save-id task saved (n, key, same) = ap (λ (x : TaskEnvelope). x.task_id) same

pub save_task-key :
    (task : TaskEnvelope) (s : Store)
    → Returning (λ saved t. normalize_lane_key task.lane_key ≡ ok saved.lane_key) (save_task task s)
unfolding save_task
save_task-key task s = elim (Result-cases (normalize_lane_key task.lane_key)) [
  | inl (key, e) ↦ rw e (after-Returning _ (put_task _) _ s (λ _ u. refl))
  | inr (x, e) ↦ rw e tt
]

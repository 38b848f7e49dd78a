-- ===== src/Coordinator/Execution/Settled.antt =====
-- A run that returns has settled its task: neither the task nor its row is running any longer.
pub mod Steps
pub mod Body
pub mod Run
pub mod Execute
use luis_puentes.Prelude.{
  ℕ, String, ◌≡◌, refl, sym, ap, subst, Bool, true, false, Option, none, some, List, [], ◌∷◌, ◌++◌,
  ◌&&◌, ◌==◌, first, any, arith, eq_iff, eq_refl, first-passes, update_where, Bool-cases,
  Option-cases, inl, inr,
}
use luis_puentes.Result.{Result, ok, raise}
use luis_puentes.Models.{TaskEnvelope, TaskStatus}
use luis_puentes.Models.LaneKey.{normalize_lane_key}
use luis_puentes.State.{Store, ◌>>◌, pure}
use luis_puentes.State.Returns.{Returning, returns, returned, >>=-Returning}
use luis_puentes.State.Laws.{Result-cases, >>=-ok}
use luis_puentes.State.Tasks.{
  has_id, has_own_id, repeats_key, overwrite_task, put_task, save_task, get_task,
}
use luis_puentes.Coordinator.Execution.{read_back}

abbrev pub is_running : TaskStatus → Bool
is_running TaskStatus.running = true
is_running _ = false

abbrev pub runs : String → TaskEnvelope → Bool
runs task_id row = has_id task_id row && is_running row.status

-- No row of the task is running.
abbrev pub IsCalm : String → List TaskEnvelope → Type 0
IsCalm task_id rows = any (runs task_id) rows ≡ false

overwrite-IsCalm :
    (task : TaskEnvelope) (rows : List TaskEnvelope)
    → is_running task.status ≡ false
    → IsCalm task.task_id (update_where (has_id task.task_id) (overwrite_task task) rows)
unfolding overwrite_task
overwrite-IsCalm task [] h = refl
overwrite-IsCalm task (row ∷ rows) h = elim (Bool-cases (has_id task.task_id row)) [
  | inl e ↦ rw (e, h) (ground (arith, overwrite-IsCalm task rows h))
  | inr e ↦ rw e (ground (arith, overwrite-IsCalm task rows h))
]

append-IsCalm :
    (task : TaskEnvelope) (rows : List TaskEnvelope)
    → is_running task.status ≡ false
    → any (has_id task.task_id) rows ≡ false
    → IsCalm task.task_id (rows ++ task ∷ [])
append-IsCalm task [] h new = ground (arith, h)
append-IsCalm task (row ∷ rows) h new = ground (arith, append-IsCalm task rows h)

put_task-IsCalm :
    (task : TaskEnvelope) (s : Store) {t : Store}
    → is_running task.status ≡ false
    → put_task task s ≡ (ok tt, t)
    → IsCalm task.task_id t.tasks
unfolding put_task
put_task-IsCalm task s h saved = elim (Bool-cases (any (has_id task.task_id) s.tasks)) [
  | inl e ↦
      subst (λ (u : Store). IsCalm task.task_id u.tasks) (ap (λ p. p.1) (rw e at saved))
        (overwrite-IsCalm task s.tasks h)
  | inr e ↦ elim (Bool-cases (repeats_key task s.tasks)) [
    | inl f ↦ absurd (cc (ap (λ p. p.0) (rw (e, f) at saved)))
    | inr f ↦
        subst (λ (u : Store). IsCalm task.task_id u.tasks) (ap (λ p. p.1) (rw (e, f) at saved))
          (append-IsCalm task s.tasks h e)
  ]
]

put_task-returns :
    (task : TaskEnvelope) (s : Store) {u : TaskEnvelope} {t : Store}
    → is_running task.status ≡ false
    → (put_task task >> pure task) s ≡ (ok u, t)
    → IsCalm task.task_id t.tasks
put_task-returns task s h saved =
    returned (λ u t. IsCalm task.task_id t.tasks)
      (>>=-Returning _ (λ u t. IsCalm task.task_id t.tasks) (put_task task) _ s
        (returns _ (put_task task s) (λ u t e. put_task-IsCalm task s h e)) (λ u t k. k))
      saved

-- Once a task that is not running is saved, no row of it is.
pub save_task-IsCalm :
    (task : TaskEnvelope) (s : Store) {u : TaskEnvelope} {t : Store}
    → is_running task.status ≡ false
    → save_task task s ≡ (ok u, t)
    → IsCalm task.task_id t.tasks
unfolding save_task
save_task-IsCalm task s h saved = elim (Result-cases (normalize_lane_key task.lane_key)) [
  | inl (key, e) ↦ put_task-returns (record task { lane_key = key }) s h (rw e at saved)
  | inr (x, e) ↦ absurd (cc (ap (λ p. p.0) (rw e at saved)))
]

first-IsCalm :
    (w id : String) (rows : List TaskEnvelope) (row : TaskEnvelope)
    → first (has_own_id w id) rows ≡ some row
    → IsCalm id rows
    → is_running row.status ≡ false
first-IsCalm w id [] row h calm = cc
first-IsCalm w id (r ∷ rows) row h calm = elim (Bool-cases (has_own_id w id r)) [
  | inl e ↦ ground (arith, e)
  | inr e ↦ first-IsCalm w id rows row (rw e at h) (ground arith)
]

-- What is read back from a table without a running row of the task is not running.
pub read_back-IsSettled :
    (task : TaskEnvelope) (s : Store) {done : TaskEnvelope} {t : Store}
    → is_running task.status ≡ false
    → IsCalm task.task_id s.tasks
    → read_back task s ≡ (ok done, t)
    → (is_running done.status ≡ false) × IsCalm task.task_id t.tasks
unfolding read_back get_task
read_back-IsSettled task s h calm read =
    elim (Option-cases (first (has_own_id s.workspace task.task_id) s.tasks)) [
      | inl e ↦ let (same, left) = parts (rw e at read) in (rw (← same) h, rw (← left) calm)
      | inr (row, e) ↦
          let (same, left) = parts (rw e at read) in
          (rw (← same) (first-IsCalm s.workspace task.task_id s.tasks row e calm), rw (← left) calm)
    ]
  where
    parts :
        {a b : TaskEnvelope} {u v : Store}
        → Path (Result TaskEnvelope × Store) (ok a, u) (ok b, v)
        → (a ≡ b) × (u ≡ v)
    parts e = (cc (ap (λ p. p.0) e), ap (λ p. p.1) e)

-- ===== src/State/Recovery/Interrupted.antt =====
-- What a restart leaves behind: no run that nobody owns, and nothing at all where it fails.
use luis_puentes.Prelude.{
  ℕ, suc, String, ◌≡◌, refl, sym, ap, ◌∙◌, subst, Bool, true, false, Option, List, [], ◌∷◌, ◌==◌,
  ◌&&◌, not, arith, eq_iff, keep, any, map, update_where, inl, inr,
}
use luis_puentes.Prelude.Sweep.{
  keep-In, sort_by-In, Covered, Covered-start, Covered-step, Covered-end,
}
use luis_puentes.Result.{Failure, Result, ok, raise}
use luis_puentes.Models.{TaskEnvelope, TaskStatus, Fields, task_status_value}
use luis_puentes.Models.Metadata.{int_field}
use luis_puentes.State.{Store, pure, for_each, utcnow}
use luis_puentes.State.Laws.{Result-cases, >>=-ok, for_each-cons, for_each-nil}
use luis_puentes.State.Tasks.{list_tasks, has_status, created_le}
use luis_puentes.State.Recovery.{
  is_owned, is_running, is_run, requeue, recovered_metadata, recover_task, recover_rows, settle,
  recover_interrupted_tasks,
}

-- A run of this workspace that the live service does not own.
abbrev pub is_interrupted : String → Option String → TaskEnvelope → Bool
is_interrupted workspace token t =
    t.workspace == workspace && is_running t.status && not (is_owned token t)

abbrev pub Counted : TaskEnvelope → Type 0
Counted task = (n : ℕ) × (int_field task.metadata "restart_recovery_count" ≡ ok n)

recover_task-tasks :
    (now : ℕ) (task : TaskEnvelope) (s t : Store)
    → recover_task now task s ≡ (ok tt, t)
    → (metadata : Fields) × (t.tasks
        ≡ update_where (is_run s.workspace task.task_id) (requeue now metadata) s.tasks)
      × (t.workspace ≡ s.workspace)
unfolding recover_task
recover_task-tasks now task s t h =
    elim (Result-cases (int_field task.metadata "restart_recovery_count")) [
      | inl (n, e) ↦ (recovered_metadata task now n, ground (arith, e), ground (arith, e))
      | inr (x, e) ↦ absurd (ground (arith, e))
    ]

abbrev pub task_key : TaskEnvelope → String
task_key t = t.task_id

requeue-done :
    (w : String) (token : Option String) (now : ℕ) (metadata : Fields) (r : TaskEnvelope)
    → is_interrupted w token (requeue now metadata r) ≡ false
requeue-done w token now metadata r = ground arith

interrupted-is_run :
    (w : String) (token : Option String) (task r : TaskEnvelope)
    → is_interrupted w token r ≡ true
    → task.task_id ≡ r.task_id
    → is_run w task.task_id r ≡ true
interrupted-is_run w token task r h e = ground (arith, eq_iff r.task_id task.task_id)

sweep_interrupted :
    (w : String) (token : Option String) (now : ℕ) (todo : List TaskEnvelope) (s t : Store)
    → s.workspace ≡ w
    → Covered task_key (is_interrupted w token) todo s.tasks
    → for_each todo (recover_task now) s ≡ (ok tt, t)
    → any (is_interrupted w token) t.tasks ≡ false
sweep_interrupted w token now [] s t same c h =
    subst (λ (u : Store). any (is_interrupted w token) u.tasks ≡ false)
      (for_each-nil (recover_task now) s h)
      (Covered-end task_key (is_interrupted w token) s.tasks c)
sweep_interrupted w token now (x ∷ todo) s t same c h =
    let (u, e, g) = for_each-cons x todo (recover_task now) s h in
    let (metadata, tasks, kept) = recover_task-tasks now x s u e in
    sweep_interrupted w token now todo u t (kept ∙ same)
      (subst (Covered task_key (is_interrupted w token) todo) (sym tasks) (
        Covered-step task_key (is_interrupted w token) x todo s.tasks (is_run s.workspace x.task_id)
          (requeue now metadata)
          (λ r b i.
            subst (λ v. is_run v x.task_id r ≡ true) (sym same)
              (interrupted-is_run w token x r b i))
          (requeue-done w token now metadata) c))
      g

running-value : (x : TaskStatus) → is_running x ≡ true → (task_status_value x == "running") ≡ true
unfolding task_status_value
running-value TaskStatus.running h = refl
running-value TaskStatus.queued h = cc
running-value _ h = cc

interrupted-has_status :
    (w : String) (token : Option String) (r : TaskEnvelope)
    → is_interrupted w token r ≡ true
    → has_status w TaskStatus.running r ≡ true
unfolding task_status_value
interrupted-has_status w token r h = ground (arith, running-value r.status)

interrupted-unowned :
    (w : String) (token : Option String) (r : TaskEnvelope)
    → is_interrupted w token r ≡ true
    → not (is_owned token r) ≡ true
interrupted-unowned w token r h = ground arith

-- The rows that the sweep goes through.
abbrev pub rows_of : Option String → Store → List TaskEnvelope
rows_of token s = keep (λ t. not (is_owned token t)) (list_tasks TaskStatus.running s)

rows_of-Covered :
    (token : Option String) (s : Store)
    → Covered task_key (is_interrupted s.workspace token) (rows_of token s) s.tasks
unfolding list_tasks
rows_of-Covered token s =
    Covered-start task_key (is_interrupted s.workspace token) (rows_of token s) s.tasks λ r m h.
      keep-In (λ t. not (is_owned token t)) r _
        (sort_by-In created_le r _ (
          keep-In (has_status s.workspace TaskStatus.running) r s.tasks m
            (interrupted-has_status s.workspace token r h)))
        (interrupted-unowned s.workspace token r h)

recover_rows-done :
    (token : Option String) (now : ℕ) (s t : Store) (ids : List String)
    → recover_rows token now s ≡ (ok ids, t)
    → any (is_interrupted s.workspace token) t.tasks ≡ false
unfolding recover_rows
recover_rows-done token now s t ids h =
    let (_, u, e, g) =
      >>=-ok (for_each (rows_of token s) (recover_task now))
        (λ _. pure (map task_key (rows_of token s))) s h in
    subst (λ (v : Store). any (is_interrupted s.workspace token) v.tasks ≡ false) (ap (λ p. p.1) g)
      (sweep_interrupted s.workspace token now (rows_of token s) s u refl (rows_of-Covered token s)
        e)

settle-ok :
    {A : Type 0} (s : Store) (p : Result A × Store) {a : A} {t : Store}
    → settle s p ≡ (ok a, t)
    → p ≡ (ok a, t)
settle-ok s (ok a, u) h = h
settle-ok s (raise e, u) h = absurd (cc (ap (λ q. q.0) h))

settle-raise :
    {A : Type 0} (s : Store) (p : Result A × Store) {e : Failure} {t : Store}
    → settle s p ≡ (raise e, t)
    → (t.tasks ≡ s.tasks) × (t.claims ≡ s.claims) × (t.lanes ≡ s.lanes) × (t.events ≡ s.events)
settle-raise s (ok a, u) h = absurd (cc (ap (λ q. q.0) h))
settle-raise s (raise e, u) h =
    let same = ap (λ q. q.1) h in
    (
      sym (ap (λ v. v.tasks) same),
      sym (ap (λ v. v.claims) same),
      sym (ap (λ v. v.lanes) same),
      sym (ap (λ v. v.events) same),
    )

-- When the recovery after a restart succeeds, no task of the workspace is left running unless the live
-- service owns its run.
pub recover_interrupted_tasks-done :
    (token : Option String) (s t : Store) (ids : List String)
    → recover_interrupted_tasks token s ≡ (ok ids, t)
    → any (is_interrupted s.workspace token) t.tasks ≡ false
unfolding recover_interrupted_tasks utcnow
recover_interrupted_tasks-done token s t ids h =
    let s1 : Store = record s { clock_reads = suc s.clock_reads } in
    recover_rows-done token (s.now s.clock_reads) s1 t ids
      (settle-ok s1 (recover_rows token (s.now s.clock_reads) s1) h)

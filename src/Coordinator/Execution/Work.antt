-- ===== src/Coordinator/Execution/Work.antt =====
-- Calls that change a task as they go: the task object outlives the exception, so that a handler sees
-- what was done to it.
use luis_puentes.Prelude.{Option, List, [], ◌∷◌}
use luis_puentes.Result.{Failure, Result, ok, raise}
use luis_puentes.Models.{TaskEnvelope}
use luis_puentes.State.{Store, M}

abbrev pub W {ℓ} : Type ℓ → Type ℓ
W A = TaskEnvelope → Store → Result A × TaskEnvelope × Store

module _ {ℓ κ} {A : Type ℓ} {B : Type κ} where
  abbrev pub proceed : Result A → (A → W B) → W B
  proceed (ok a) f task s = f a task s
  proceed (raise e) f task s = (raise e, task, s)

  infixl 5 ◌>>=◌ ◌>>◌
  abbrev pub ◌>>=◌ : W A → (A → W B) → W B
  ◌>>=◌ m f task s = let (r, task', s') = m task s in proceed r f task' s'

  abbrev pub ◌>>◌ : W A → W B → W B
  m >> n = m >>= λ _. n

module _ {ℓ} {A : Type ℓ} where
  abbrev pub pure : A → W A
  pure a task s = (ok a, task, s)

  abbrev pub throw : Failure → W A
  throw e task s = (raise e, task, s)

  abbrev pub lift : Result A → W A
  lift r task s = (r, task, s)

  -- What is worked out from the task.
  abbrev pub asks : (TaskEnvelope → Result A) → W A
  asks f task s = (f task, task, s)

  -- A call that leaves the task as it is.
  abbrev pub on_store : M A → W A
  on_store m task s = let (r, s') = m s in (r, task, s')

  -- A call that is given the task.
  abbrev pub with_task : (TaskEnvelope → M A) → W A
  with_task f task s = on_store (f task) task s

  -- What an `except` clause does, if one takes the failure.
  abbrev pub caught : Option (W A) → Failure → W A
  caught Option.none e = throw e
  caught (Option.some h) e = h

  abbrev pub settle : (Failure → Option (W A)) → Result A → W A
  settle handler (ok a) task s = (ok a, task, s)
  settle handler (raise e) task s = caught (handler e) e task s

  -- `try: m` with `except` clauses; a failure that none of them takes goes on.
  abbrev pub catch : W A → (Failure → Option (W A)) → W A
  catch m handler task s = let (r, task', s') = m task s in settle handler r task' s'

abbrev pub change : (TaskEnvelope → TaskEnvelope) → W (Unit {0})
change f task s = (ok tt, f task, s)

unfoldable pub for_each {ℓ} : {A : Type ℓ} → List A → (A → W (Unit {0})) → W (Unit {0})
for_each [] f = pure tt
for_each (x ∷ xs) f = let rest = for_each xs f in do f x; rest

-- ===== src/Coordinator/Execution/Returns.antt =====
-- What holds where a call that changes the task returns.
use luis_puentes.Result.{Result, ok, raise}
use luis_puentes.Models.{TaskEnvelope}
use luis_puentes.State.{Store, M}
use luis_puentes.State.Keeps.{Keeps}
use luis_puentes.Coordinator.Execution.Work.{W, proceed, ◌>>=◌, with_task}

module _ {A : Type 0} where
  abbrev pub ReturningW :
      (A → TaskEnvelope → Store → Type 0) → Result A × TaskEnvelope × Store → Type 0
  ReturningW Q (ok a, task, s) = Q a task s
  ReturningW Q (raise e, task, s) = Unit

module _ {A B : Type 0} (Q : B → TaskEnvelope → Store → Type 0) where
  proceed-ReturningW :
      (R : A → TaskEnvelope → Store → Type 0) (f : A → W B) (r : Result A × TaskEnvelope × Store)
      → ReturningW R r
      → ((a : A) (task : TaskEnvelope) (u : Store) → R a task u → ReturningW Q (f a task u))
      → ReturningW Q (proceed r.0 f r.1 r.2)
  proceed-ReturningW R f (ok a, task, s) h k = k a task s h
  proceed-ReturningW R f (raise e, task, s) h k = tt

  pub >>=-ReturningW :
      (R : A → TaskEnvelope → Store → Type 0) (m : W A) (f : A → W B) (task : TaskEnvelope)
      (s : Store)
      → ReturningW R (m task s)
      → ((a : A) (task : TaskEnvelope) (u : Store) → R a task u → ReturningW Q (f a task u))
      → ReturningW Q ((m >>= f) task s)
  >>=-ReturningW R m f task s h k = proceed-ReturningW R f (m task s) h k

  -- A first call of which nothing is asked.
  pub after-ReturningW :
      (m : W A) (f : A → W B)
      → ((a : A) (task : TaskEnvelope) (u : Store) → ReturningW Q (f a task u))
      → (task : TaskEnvelope) (s : Store) → ReturningW Q ((m >>= f) task s)
  after-ReturningW m f k task s =
      >>=-ReturningW (λ a task u. Unit) m f task s (trivial (m task s)) (λ a task u h. k a task u)
    where
      trivial : (r : Result A × TaskEnvelope × Store) → ReturningW (λ a task u. Unit) r
      trivial (ok a, task, s) = tt
      trivial (raise e, task, s) = tt

  -- A first call on the store alone: the task is as it was.
  pub with_task-ReturningW :
      (R : Store → Type 0) (m : TaskEnvelope → M A) (f : A → W B) (task : TaskEnvelope) (s : Store)
      → Keeps R (m task)
      → R s
      → ((a : A) (u : Store) → R u → ReturningW Q (f a task u))
      → ReturningW Q ((with_task m >>= f) task s)
  with_task-ReturningW R m f task s keeps h k = go (m task s) (keeps s h)
    where
      go : (r : Result A × Store) → R r.1 → ReturningW Q (proceed r.0 f task r.1)
      go (ok a, u) h = k a u h
      go (raise e, u) h = tt

-- ===== src/Coordinator/Execution/Framed.antt =====
-- The body of a run keeps the claims, whatever the runtime answers: it works on the task, the lanes, the
-- messages and the events. The task keeps its id.
pub mod Body
use luis_puentes.Prelude.{
  ℕ, String, ◌≡◌, refl, sym, ◌∙◌, Bool, true, false, Option, none, some, List, [], ◌∷◌, Bool-cases,
  inl, inr,
}
use luis_puentes.Result.{Failure, Result, ok, raise}
use luis_puentes.Models.{TaskEnvelope, ArtifactClaim}
use luis_puentes.State.{Store, M}
use luis_puentes.State.Keeps.{Keeps}
use luis_puentes.State.Frames.{On}
use luis_puentes.Coordinator.Execution.Work.{
  W, proceed, ◌>>=◌, ◌>>◌, on_store, with_task, asks, lift, catch, change, for_each, settle, caught,
}

module _ (id : String) (P : List ArtifactClaim → String → Type 0) where
  abbrev pub OnClaims : Store → Type 0
  OnClaims = On (λ tasks claims workspace. P claims workspace)

  abbrev pub Framed : TaskEnvelope → Store → Type 0
  Framed task s = (task.task_id ≡ id) × OnClaims s

  abbrev pub KeepsW {ℓ} : {A : Type ℓ} → W A → Type 0
  KeepsW m = (task : TaskEnvelope) (s : Store) → Framed task s → Framed (m task s).1 (m task s).2

  module _ {A B : Type 0} where
    proceed-KeepsW : (r : Result A) (f : A → W B) → ((a : A) → KeepsW (f a)) → KeepsW (proceed r f)
    proceed-KeepsW (ok a) f k task s h = k a task s h
    proceed-KeepsW (raise e) f k task s h = h

    pub >>=-KeepsW :
        (m : W A) (f : A → W B) → KeepsW m → ((a : A) → KeepsW (f a)) → KeepsW (m >>= f)
    >>=-KeepsW m f km k task s h =
        proceed-KeepsW (m task s).0 f k (m task s).1 (m task s).2 (km task s h)

    pub with_task-KeepsW :
        (m : TaskEnvelope → M A) (f : A → W B)
        → ((task : TaskEnvelope) → Keeps OnClaims (m task))
        → ((a : A) → KeepsW (f a))
        → KeepsW (with_task m >>= f)
    with_task-KeepsW m f km k = >>=-KeepsW (with_task m) f (λ task s h. (h.0, km task s h.1)) k

    pub on_store-KeepsW :
        (m : M A) (f : A → W B)
        → Keeps OnClaims m
        → ((a : A) → KeepsW (f a))
        → KeepsW (on_store m >>= f)
    on_store-KeepsW m f km k = >>=-KeepsW (on_store m) f (λ task s h. (h.0, km s h.1)) k

    pub lift-KeepsW :
        (r : Result A) (f : A → W B) → ((a : A) → KeepsW (f a)) → KeepsW (lift r >>= f)
    lift-KeepsW r f k = >>=-KeepsW (lift r) f (λ task s h. h) k

    pub asks-KeepsW :
        (g : TaskEnvelope → Result A) (f : A → W B)
        → ((a : A) → KeepsW (f a))
        → KeepsW (asks g >>= f)
    asks-KeepsW g f k = >>=-KeepsW (asks g) f (λ task s h. h) k

  module _ {A : Type 0} where
    -- The `except` clause, if there is one, keeps it too.
    abbrev pub KeepsO : Option (W A) → Type 0
    KeepsO none = Unit
    KeepsO (some h) = KeepsW h

    caught-KeepsW : (o : Option (W A)) (e : Failure) → KeepsO o → KeepsW (caught o e)
    caught-KeepsW none e k task s h = h
    caught-KeepsW (some m) e k task s h = k task s h

    settle-KeepsW :
        (handler : Failure → Option (W A))
        → ((e : Failure) → KeepsO (handler e))
        → (r : Result A) → KeepsW (settle handler r)
    settle-KeepsW handler k (ok a) task s h = h
    settle-KeepsW handler k (raise e) task s h = caught-KeepsW (handler e) e (k e) task s h

    pub catch-KeepsW :
        (m : W A) (handler : Failure → Option (W A))
        → KeepsW m
        → ((e : Failure) → KeepsO (handler e))
        → KeepsW (catch m handler)
    catch-KeepsW m handler km k task s h =
        settle-KeepsW handler k (m task s).0 (m task s).1 (m task s).2 (km task s h)

    pub for_each-KeepsW :
        (xs : List A) (f : A → W (Unit {0})) → ((x : A) → KeepsW (f x)) → KeepsW (for_each xs f)
    unfolding for_each
    for_each-KeepsW [] f k task s h = h
    for_each-KeepsW (x ∷ xs) f k task s h =
        >>=-KeepsW (f x) (λ _. for_each xs f) (k x) (λ _. for_each-KeepsW xs f k) task s h

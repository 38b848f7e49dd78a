-- ===== src/State/Returns.antt =====
-- What holds where a call returns: a condition on its value and the store, which says nothing of a call
-- that raises.
use luis_puentes.Prelude.{Bool, true, false, if◌then◌else◌, ◌≡◌, refl}
use luis_puentes.Result.{Result, ok, raise}
use luis_puentes.State.{Store, M, proceed, ◌>>=◌}
use luis_puentes.State.Keeps.{Keeps}

module _ {A : Type 0} where
  abbrev pub Returning : (A → Store → Type 0) → Result A × Store → Type 0
  Returning Q (ok a, s) = Q a s
  Returning Q (raise e, s) = Unit

  pub returns :
      (Q : A → Store → Type 0) (r : Result A × Store)
      → ((a : A) (s : Store) → r ≡ (ok a, s) → Q a s)
      → Returning Q r
  returns Q (ok a, s) k = k a s refl
  returns Q (raise e, s) k = tt

  pub returned :
      (Q : A → Store → Type 0) {r : Result A × Store} {a : A} {s : Store}
      → Returning Q r
      → r ≡ (ok a, s)
      → Q a s
  returned Q h e = rw e at h

  keeps_go : (Inv : Store → Type 0) (r : Result A × Store) → Inv r.1 → Returning (λ a t. Inv t) r
  keeps_go Inv (ok a, s) h = h
  keeps_go Inv (raise e, s) h = tt

  pub Keeps-Returning :
      (Inv : Store → Type 0) (m : M A) (s : Store)
      → Keeps Inv m
      → Inv s
      → Returning (λ a t. Inv t) (m s)
  Keeps-Returning Inv m s k h = keeps_go Inv (m s) (k s h)

  pub if-Returning :
      (Q : A → Store → Type 0) (b : Bool) (m n : M A) (s : Store)
      → Returning Q (m s)
      → Returning Q (n s)
      → Returning Q ((if b then m else n) s)
  if-Returning Q true m n s h k = h
  if-Returning Q false m n s h k = k

module _ {A B : Type 0} (Q : B → Store → Type 0) where
  proceed-Returning :
      (R : A → Store → Type 0) (f : A → M B) (r : Result A × Store)
      → Returning R r
      → ((a : A) (u : Store) → R a u → Returning Q (f a u))
      → Returning Q (proceed r.0 f r.1)
  proceed-Returning R f (ok a, s) h k = k a s h
  proceed-Returning R f (raise e, s) h k = tt

  pub >>=-Returning :
      (R : A → Store → Type 0) (m : M A) (f : A → M B) (s : Store)
      → Returning R (m s)
      → ((a : A) (u : Store) → R a u → Returning Q (f a u))
      → Returning Q ((m >>= f) s)
  >>=-Returning R m f s h k = proceed-Returning R f (m s) h k

  -- A first call that keeps what is asked of the store.
  pub kept-Returning :
      (Inv : Store → Type 0) (m : M A) (f : A → M B) (s : Store)
      → Keeps Inv m
      → Inv s
      → ((a : A) (u : Store) → Inv u → Returning Q (f a u))
      → Returning Q ((m >>= f) s)
  kept-Returning Inv m f s keeps h k =
      >>=-Returning (λ a t. Inv t) m f s (Keeps-Returning Inv m s keeps h) k

  -- A first call of which nothing is asked.
  pub after-Returning :
      (m : M A) (f : A → M B) (s : Store)
      → ((a : A) (u : Store) → Returning Q (f a u))
      → Returning Q ((m >>= f) s)
  after-Returning m f s k =
      >>=-Returning (λ a u. Unit) m f s (returns _ (m s) (λ a u e. tt)) (λ a u h. k a u)

-- ===== src/State/Laws.antt =====
-- Taking apart a call that succeeded.
use luis_puentes.Prelude.{◌≡◌, refl, ap, List, [], ◌∷◌, ◌⊎◌, inl, inr}
use luis_puentes.Result.{Failure, Result, ok, raise}
use luis_puentes.State.{Store, M, proceed, ◌>>=◌, for_each}

pub Result-cases {ℓ} :
    {A : Type ℓ} (r : Result A) → ((a : A) × (r ≡ ok a)) ⊎ ((e : Failure) × (r ≡ raise e))
Result-cases (ok a) = inl (a, refl)
Result-cases (raise e) = inr (e, refl)

module _ {A B : Type 0} where
  proceed-ok :
      (r : Result A) (s : Store) (f : A → M B) {b : B} {t : Store}
      → proceed r f s ≡ (ok b, t)
      → (a : A) × (r ≡ ok a) × (f a s ≡ (ok b, t))
  proceed-ok (ok a) s f h = (a, refl, h)
  proceed-ok (raise e) s f h = absurd (cc (ap (λ p. p.0) h))

  -- A call that succeeded is two calls that succeeded.
  pub >>=-ok :
      (m : M A) (f : A → M B) (s : Store) {b : B} {t : Store}
      → (m >>= f) s ≡ (ok b, t)
      → (a : A) × (u : Store) × (m s ≡ (ok a, u)) × (f a u ≡ (ok b, t))
  >>=-ok m f s h =
      let (a, e, g) = proceed-ok (m s).0 (m s).1 f h in (a, (m s).1, λ i. (e i, (m s).1), g)

pub for_each-cons :
    {A : Type 0} (x : A) (xs : List A) (f : A → M (Unit {0})) (s : Store) {t : Store}
    → for_each (x ∷ xs) f s ≡ (ok tt, t)
    → (u : Store) × (f x s ≡ (ok tt, u)) × (for_each xs f u ≡ (ok tt, t))
unfolding for_each
for_each-cons x xs f s h = let (a, u, e, g) = >>=-ok (f x) (λ _. for_each xs f) s h in (u, e, g)

pub for_each-nil :
    {A : Type 0} (f : A → M (Unit {0})) (s : Store) {t : Store}
    → for_each [] f s ≡ (ok tt, t)
    → s ≡ t
unfolding for_each
for_each-nil f s h = ap (λ p. p.1) h

-- ===== src/State/Keeps.antt =====
-- What a method keeps: a condition on the store that holds after it wherever it held before, whether
-- the method returns or raises.
use luis_puentes.Prelude.{List, [], ◌∷◌}
use luis_puentes.Result.{Result, ok, raise}
use luis_puentes.State.{Store, M, proceed, ◌>>=◌, lift, for_each}

module _ (Inv : Store → Type 0) where
  abbrev pub Keeps {ℓ} : {A : Type ℓ} → M A → Type 0
  Keeps m = (s : Store) → Inv s → Inv (m s).1

  module _ {A B : Type 0} where
    proceed-Keeps :
        (r : Result A) (f : A → M B)
        → ((a : A) → Keeps (f a))
        → (s : Store) → Inv s
        → Inv (proceed r f s).1
    proceed-Keeps (ok a) f kf s h = kf a s h
    proceed-Keeps (raise e) f kf s h = h

    pub >>=-Keeps : (m : M A) (f : A → M B) → Keeps m → ((a : A) → Keeps (f a)) → Keeps (m >>= f)
    >>=-Keeps m f km kf s h = proceed-Keeps (m s).0 f kf (m s).1 (km s h)

    -- A value or an exception to go on with.
    pub lift-Keeps : (r : Result A) (f : A → M B) → ((a : A) → Keeps (f a)) → Keeps (lift r >>= f)
    lift-Keeps r f k = >>=-Keeps (lift r) f (λ s h. h) k

  pub for_each-Keeps :
      {A : Type 0} (xs : List A) (f : A → M (Unit {0}))
      → ((x : A) → Keeps (f x))
      → Keeps (for_each xs f)
  unfolding for_each
  for_each-Keeps [] f k s h = h
  for_each-Keeps (x ∷ xs) f k s h =
      >>=-Keeps (f x) (λ _. for_each xs f) (k x) (λ _. for_each-Keeps xs f k) s h

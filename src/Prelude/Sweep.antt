-- ===== src/Prelude/Sweep.antt =====
-- A sweep over a table: rows are picked by a test, and each pick changes the rows with its id so that
-- they no longer pass. When every pick is done, no row of the table passes.
use Prim.Native.String.{String}
use mathlib.Core.Path.{◌≡◌, refl, sym, ◌∙◌, subst, ap}
use mathlib.Core.Logic.{◌⊎◌, inl, inr}
use mathlib.Core.Bool.{Bool, true, false}
use mathlib.Core.List.{List, [], ◌∷◌, ◌++◌}
use native.Mathlib.Omega.{arith}
use text.Mathlib.Text.{◌==◌}
use text.Mathlib.TextEquality.{eq_iff}
use luis_puentes.Prelude.Tests.{Bool-cases}
use luis_puentes.Prelude.Lists.{keep, any, update_where, insert_by, sort_by, All}

module _ {A : Type 0} where
  abbrev pub In : A → List A → Type 0
  In x [] = ⊥
  In x (y ∷ ys) = (x ≡ y) ⊎ In x ys

  pub keep-In : (p : A → Bool) (x : A) (xs : List A) → In x xs → p x ≡ true → In x (keep p xs)
  keep-In p x [] m h = absurd m
  keep-In p x (y ∷ ys) (inl e) h = rw (sym (ap p e) ∙ h) (inl e)
  keep-In p x (y ∷ ys) (inr m) h = elim (Bool-cases (p y)) [
    | inl t ↦ rw t (inr (keep-In p x ys m h))
    | inr f ↦ rw f (keep-In p x ys m h)
  ]

  insert_by-head : (le : A → A → Bool) (x : A) (xs : List A) → In x (insert_by le x xs)
  insert_by-head le x [] = inl refl
  insert_by-head le x (y ∷ ys) = elim (Bool-cases (le x y)) [
    | inl t ↦ rw t (inl refl)
    | inr f ↦ rw f (inr (insert_by-head le x ys))
  ]

  insert_by-In : (le : A → A → Bool) (x y : A) (xs : List A) → In x xs → In x (insert_by le y xs)
  insert_by-In le x y [] m = absurd m
  insert_by-In le x y (z ∷ zs) m = elim (Bool-cases (le y z)) [
    | inl t ↦ rw t (inr m)
    | inr f ↦ rw f (elim m [ inl e ↦ inl e | inr n ↦ inr (insert_by-In le x y zs n) ])
  ]

  pub sort_by-In : (le : A → A → Bool) (x : A) (xs : List A) → In x xs → In x (sort_by le xs)
  sort_by-In le x [] m = absurd m
  sort_by-In le x (y ∷ ys) (inl e) =
      subst (λ z. In z (insert_by le y (sort_by le ys))) (sym e)
        (insert_by-head le y (sort_by le ys))
  sort_by-In le x (y ∷ ys) (inr m) = insert_by-In le x y (sort_by le ys) (sort_by-In le x ys m)

module _ {A : Type 0} (id : A → String) where
  abbrev pub listed : String → List A → Bool
  listed k todo = any (λ t. id t == k) todo

  -- Every row that passes has its id among those still to do.
  abbrev pub Covered : (A → Bool) → List A → List A → Type 0
  Covered bad todo rows = All (λ r. (bad r ≡ true) → listed (id r) todo ≡ true) rows

  pub listed-In : (x : A) (todo : List A) → In x todo → listed (id x) todo ≡ true
  listed-In x [] m = absurd m
  listed-In x (y ∷ ys) (inl e) = ground (arith, ap id e, eq_iff (id y) (id x))
  listed-In x (y ∷ ys) (inr m) = ground (arith, listed-In x ys m)

  pub Covered-start :
      (bad : A → Bool) (todo rows : List A)
      → ((r : A) → In r rows → bad r ≡ true → In r todo)
      → Covered bad todo rows
  Covered-start bad todo [] f = tt
  Covered-start bad todo (r ∷ rs) f =
      (λ h. listed-In r todo (f r (inl refl) h), Covered-start bad todo rs (λ x m h. f x (inr m) h))

  pub Covered-end : (bad : A → Bool) (rows : List A) → Covered bad [] rows → any bad rows ≡ false
  Covered-end bad [] c = refl
  Covered-end bad (r ∷ rs) c = elim (Bool-cases (bad r)) [
    | inl t ↦ absurd (cc (c.0 t))
    | inr f ↦ rw f (Covered-end bad rs c.1)
  ]

  pub Covered-step :
      (bad : A → Bool) (x : A) (todo rows : List A) (q : A → Bool) (fix : A → A)
      → ((r : A) → bad r ≡ true → id x ≡ id r → q r ≡ true)
      → ((r : A) → bad (fix r) ≡ false)
      → Covered bad (x ∷ todo) rows
      → Covered bad todo (update_where q fix rows)
  Covered-step bad x todo [] q fix hit fixed c = tt
  Covered-step bad x todo (r ∷ rs) q fix hit fixed c = (
    elim (Bool-cases (q r)) [
      | inl t ↦ rw t (λ h. absurd (cc (fixed r, h)))
      | inr f ↦ rw f (λ h. others f h)
    ],
    Covered-step bad x todo rs q fix hit fixed c.1,
  )
    where
      others : q r ≡ false → bad r ≡ true → listed (id r) todo ≡ true
      others f h = elim (Bool-cases (id x == id r)) [
        | inl t ↦ absurd (cc (f, hit r h ((eq_iff (id x) (id r)).0 t)))
        | inr n ↦ ground (arith, c.0 h)
      ]

  -- An id that no row has needs no pick.
  pub Covered-absent :
      (bad : A → Bool) (x : A) (todo rows : List A)
      → any (λ r. id r == id x) rows ≡ false
      → Covered bad (x ∷ todo) rows
      → Covered bad todo rows
  Covered-absent bad x todo [] none_has c = tt
  Covered-absent bad x todo (r ∷ rs) none_has c = (
    λ h. ground (arith, c.0 h, eq_iff (id x) (id r), eq_iff (id r) (id x)),
    Covered-absent bad x todo rs (ground arith) c.1,
  )

  pub Covered-append :
      (bad : A → Bool) (x : A) (todo rows : List A)
      → bad x ≡ false
      → Covered bad todo rows
      → Covered bad todo (rows ++ x ∷ [])
  Covered-append bad x todo [] fine c = (λ h. absurd (cc (fine, h)), tt)
  Covered-append bad x todo (r ∷ rs) fine c = (c.0, Covered-append bad x todo rs fine c.1)

-- ===== src/Lint/Rules/Structure/Once.antt =====
-- The cells that XL104 names: src/xllib/lint/rules/__init__.py of excel-library.
use luis_puentes.Prelude.{
  ℕ, ◌≡◌, String, Bool, false, List, [], ◌∷◌, ◌||◌, any, All, arith, Bool-cases, Option-cases, inl,
  inr,
}
use luis_puentes.Workbook.{Library, Cell, Sheet, Workbook}
use luis_puentes.Workbook.Graph.{RefEdge}
use luis_puentes.Lint.Rules.Structure.{is_at_key, key_of, plain_target, plain_cells}

module _ (lib : Library) (wb : Workbook) where
  abbrev pub is_same_place : Sheet × Cell → Sheet × Cell → Bool
  is_same_place x y = is_at_key lib wb (key_of lib wb x) (key_of lib wb y)

  -- No two cells of the list are at the same place.
  abbrev pub IsDistinct : List (Sheet × Cell) → Type 0
  IsDistinct [] = Unit
  IsDistinct (x ∷ xs) = All (λ y. is_same_place y x ≡ false) xs × IsDistinct xs

  abbrev is_seen : List (String × ℕ × ℕ) → Sheet × Cell → Bool
  is_seen seen y = any (is_at_key lib wb (key_of lib wb y)) seen

  or-left : (b c : Bool) → (b || c) ≡ false → b ≡ false
  or-left b c h = ground (arith, h)

  or-right : (b c : Bool) → (b || c) ≡ false → c ≡ false
  or-right b c h = ground (arith, h)

  All-weaken :
      {P Q : Sheet × Cell → Type 0} (each : (y : Sheet × Cell) → P y → Q y)
      (xs : List (Sheet × Cell))
      → All P xs
      → All Q xs
  All-weaken each [] h = tt
  All-weaken each (x ∷ xs) (p, h) = (each x p, All-weaken each xs h)

  plain_cells-new :
      (edges : List RefEdge) (seen : List (String × ℕ × ℕ))
      → All (λ y. is_seen seen y ≡ false) (plain_cells lib wb seen edges)
  unfolding plain_cells
  plain_cells-new [] seen = tt
  plain_cells-new (edge ∷ edges) seen = elim (Option-cases (plain_target lib wb edge)) [
    | inl e ↦ rw (plain_cells, e) (plain_cells-new edges seen)
    | inr (found, e) ↦ elim (Bool-cases (is_seen seen found)) [
      | inl f ↦ rw (plain_cells, e, f) (plain_cells-new edges seen)
      | inr f ↦
          rw (plain_cells, e, f)
            (
              f,
              All-weaken (λ y. or-right _ _) _ (plain_cells-new edges (key_of lib wb found ∷ seen)),
            )
    ]
  ]

  -- The cells that XL104 names are at distinct places, whatever edges lead to them.
  pub plain_cells-IsDistinct :
      (edges : List RefEdge) (seen : List (String × ℕ × ℕ))
      → IsDistinct (plain_cells lib wb seen edges)
  unfolding plain_cells
  plain_cells-IsDistinct [] seen = tt
  plain_cells-IsDistinct (edge ∷ edges) seen = elim (Option-cases (plain_target lib wb edge)) [
    | inl e ↦ rw (plain_cells, e) (plain_cells-IsDistinct edges seen)
    | inr (found, e) ↦ elim (Bool-cases (is_seen seen found)) [
      | inl f ↦ rw (plain_cells, e, f) (plain_cells-IsDistinct edges seen)
      | inr f ↦
          rw (plain_cells, e, f)
            (
              All-weaken (λ y. or-left _ _) _ (plain_cells-new edges (key_of lib wb found ∷ seen)),
              plain_cells-IsDistinct edges (key_of lib wb found ∷ seen),
            )
    ]
  ]

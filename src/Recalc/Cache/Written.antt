-- ===== src/Recalc/Cache/Written.antt =====
-- The cells before and after a writing, and its counts: src/xllib/recalc/cache.py of excel-library.
use luis_puentes.Prelude.{
  ℕ, suc, ◌+◌, ◌≡◌, refl, ap, String, Bool, true, false, Option, none, some, List, [], ◌∷◌,
  if◌then◌else◌, length, length-append, map, keep, count, arith, look_up, value_or, length-map,
}
use luis_puentes.Recalc.Cache.{
  Computed, Encoded, encode, Child, formula, value, inline_text, another, Element, is_formula_child,
  has_formula, Patch, encoded_for, write_cell, patch_cell, patch_sheet, CacheReport, patch_of,
  named_ref, add_patch, add_parts, unmatched, Sheets, wanted_of, write_cached_values,
}

-- The value that a reader of the cell finds.
abbrev pub cached_text : List Child → Option String
cached_text [] = none
cached_text (value s ∷ cs) = some s
cached_text (formula s ∷ cs) = cached_text cs
cached_text (inline_text s ∷ cs) = cached_text cs
cached_text (another s ∷ cs) = cached_text cs

abbrev pub formulas : List Child → List Child
formulas = keep is_formula_child

-- A cell before and after, by the value for it.
abbrev pub IsWritten : Option Encoded → Element → Element → Type 0
IsWritten none before after = after ≡ before
IsWritten (some (cell_type, s)) before after =
    (after.ref ≡ before.ref)
    × (after.type ≡ cell_type)
    × (cached_text after.children ≡ some s)
    × (formulas after.children ≡ formulas before.children)

module _ (upper : String → String) (computed : List (String × Computed)) where
  abbrev pub IsPatched : Element → Element → Type 0
  unfolding encode
  IsPatched before after =
      IsWritten (if has_formula before then encoded_for upper computed before else none) before
        after

  abbrev pub ArePatched : List Element → List Element → Type 0
  unfolding encode
  ArePatched [] [] = Unit
  ArePatched (x ∷ xs) (y ∷ ys) = IsPatched x y × ArePatched xs ys
  ArePatched _ _ = ⊥

  -- What a pass has counted.
  abbrev IsCounted : List Element → Patch → Type 0
  IsCounted cells p = (p.written + length p.missing ≡ p.seen) × (p.seen ≡ count has_formula cells)

  patch_cell-IsCounted :
      (cell : Element) (cells : List Element) (p : Patch) (b : Bool)
      → has_formula cell ≡ b
      → IsCounted cells p
      → IsCounted (cell ∷ cells) (patch_cell upper computed cell b p)
  unfolding encode patch_cell
  patch_cell-IsCounted cell cells p false e (w, s) = (w, rw e s)
  patch_cell-IsCounted cell cells p true e (w, s) = go (encoded_for upper computed cell)
    where
      go : (o : Option Encoded) → IsCounted (cell ∷ cells) (write_cell upper computed cell o p)
      go none = (omega (arith, w), rw e (ap suc s))
      go (some x) = (omega (arith, w), rw e (ap suc s))

  patch_sheet-IsCounted :
      (cells : List Element) → IsCounted cells (patch_sheet upper computed cells)
  unfolding patch_sheet
  patch_sheet-IsCounted [] = (refl, refl)
  patch_sheet-IsCounted (cell ∷ cells) =
      patch_cell-IsCounted cell cells (patch_sheet upper computed cells) (has_formula cell) refl
        (patch_sheet-IsCounted cells)

-- The cells with a formula in all the sheets.
abbrev pub count_formulas : List (String × List Element) → ℕ
count_formulas [] = 0
count_formulas (part ∷ parts) = count has_formula part.1 + count_formulas parts

module _ (upper : String → String) (wanted : List (String × List (String × Computed))) where
  abbrev AddsUp : List (String × List Element) → CacheReport → Type 0
  AddsUp parts r =
      (r.written + length r.unwritten ≡ r.formula_cells) × (r.formula_cells ≡ count_formulas parts)

  add_patch-AddsUp :
      (part : String × List Element) (parts : List (String × List Element)) (p : Patch)
      (r : CacheReport)
      → IsCounted upper [] part.1 p
      → AddsUp parts r
      → AddsUp (part ∷ parts) (add_patch upper wanted part.0 p r)
  add_patch-AddsUp part parts p r (w, s) (x, y) =
      let refs = map (named_ref upper wanted part.0) p.missing in
      (
        omega (
          arith,
          w,
          x,
          length-append refs r.unwritten,
          length-map (named_ref upper wanted part.0) p.missing,
        ),
        omega (arith, s, y),
      )

  add_parts-AddsUp :
      (unknown : List String) (parts : List (String × List Element))
      → AddsUp parts (add_parts upper wanted unknown parts)
  unfolding add_parts patch_of
  add_parts-AddsUp unknown [] = (refl, refl)
  add_parts-AddsUp unknown (part ∷ parts) =
      add_patch-AddsUp part parts (patch_of upper wanted part)
        (add_parts upper wanted unknown parts)
        (patch_sheet-IsCounted upper (value_or [] (look_up wanted part.0)) part.1)
        (add_parts-AddsUp unknown parts)

-- The report of a writing counts every cell with a formula, and each of them either as written or among the
-- references that are left unwritten.
pub write_cached_values-counts :
    (upper : String → String) (values : Sheets) (parts : List (String × List Element))
    → ((write_cached_values upper values parts).0.written
          + length (write_cached_values upper values parts).0.unwritten
        ≡ (write_cached_values upper values parts).0.formula_cells)
      × ((write_cached_values upper values parts).0.formula_cells ≡ count_formulas parts)
unfolding write_cached_values
write_cached_values-counts upper values parts =
    let wanted = wanted_of upper values in
    add_parts-AddsUp upper wanted (unmatched upper wanted parts) parts

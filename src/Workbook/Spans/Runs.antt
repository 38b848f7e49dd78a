-- ===== src/Workbook/Spans/Runs.antt =====
-- The runs of infer_formula_runs and the columns of their cells: src/xllib/inspect/spans.py of excel-library.
use luis_puentes.Prelude.{ℕ, ◌+◌, ◌≤◌, ◌≡◌, List, length, map}
use luis_puentes.Workbook.Spans.{range_from, FormulaRun}

module _ {A : Type 0} (column_of : A → ℕ) where
  -- The columns of a run, which ends before a column.
  abbrev pub IsRunTo : ℕ → List A → Type 0
  IsRunTo column run =
      (start : ℕ) × (map column_of run ≡ range_from start (length run))
      × (start + length run ≡ column)

  abbrev pub IsRun : ℕ → List A → Type 0
  IsRun minimum run = (minimum ≤ length run) × (column : ℕ) × IsRunTo column run

-- A run of formulas that is long enough, has a shape for each cell, and ends as many columns after its start
-- as it has cells.
abbrev pub IsGapless : ℕ → FormulaRun → Type 0
IsGapless minimum run =
    (minimum ≤ length run.coordinates)
    × (length run.shapes ≡ length run.coordinates)
    × (run.start_column + length run.coordinates ≡ run.end_column + 1)

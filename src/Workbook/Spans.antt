-- ===== src/Workbook/Spans.antt =====
-- The shape of a worksheet, guessed from its cells: src/xllib/inspect/spans.py of excel-library.
pub mod Runs
pub mod Sections
use luis_puentes.Prelude.{
  ℕ, zero, suc, ◌+◌, ◌-◌, String, Bool, true, false, Option, none, some, List, [], ◌∷◌, ◌++◌, ◌&&◌,
  ◌||◌, not, if◌then◌else◌, length, map, keep, leb, ltb, eqb,
}
use luis_puentes.Workbook.{
  Library, CellValue, text, moment, Cell, is_formula, effective_value, is_empty_value, Sheet,
  cell_at, populated_rows, sorted_set,
}
use luis_puentes.Workbook.Tokens.{normalize_formula_shape}

pub record PeriodAxis : Type 0 where
  pub sheet : String
  pub row : ℕ
  pub start_column : ℕ
  pub end_column : ℕ
  pub labels : List String

pub record FormulaRun : Type 0 where
  pub sheet : String
  pub row : ℕ
  pub start_column : ℕ
  pub end_column : ℕ
  pub coordinates : List String
  pub shapes : List String

-- `range(start, start + n)`
abbrev pub range_from : ℕ → ℕ → List ℕ
range_from start zero = []
range_from start (suc n) = start ∷ range_from (suc start) n

module _ {A : Type 0} (pick : ℕ → Option A) (minimum : ℕ) where
  -- A run that ends is kept if it is long enough.
  abbrev pub close_run : List A → List (List A) → List (List A)
  close_run run rest = if leb minimum (length run) then run ∷ rest else rest

  -- The loop over the columns that both detections share, with the run so far; a run that reaches the last
  -- column of the loop is not closed.
  unfoldable pub collect : List ℕ → List A → List (List A)
  collect [] run = []
  collect (column ∷ columns) run = elim (pick column) [
    | some x ↦ collect columns (run ++ x ∷ [])
    | none ↦ close_run run (collect columns [])
  ]

-- `range(1, sheet.max_column + 2)`
abbrev pub columns_of : Sheet → List ℕ
columns_of sheet = range_from 1 (suc sheet.max_column)

abbrev pub label_of : Library → CellValue → Option String
label_of lib (moment iso) = some iso
label_of lib (text s) = if lib.is_period (lib.strip s) then some (lib.strip s) else none
label_of lib _ = none

unfoldable pub period_label : Library → Cell → Option String
unfolding effective_value
period_label lib cell = label_of lib (effective_value cell)

abbrev pub labelled : Library → Option Cell → Option (Cell × String)
labelled lib none = none
labelled lib (some cell) = elim (period_label lib cell) [
  | none ↦ none
  | some label ↦ some (cell, label)
]

-- `item[0]` and `item[-1]` of a run; the code looks at no empty run when its minimum is above 0.
abbrev pub first_of : List ℕ → ℕ
first_of [] = 0
first_of (n ∷ ns) = n

abbrev pub last_of : List ℕ → ℕ
last_of [] = 0
last_of (n ∷ []) = n
last_of (n ∷ m ∷ ns) = last_of (m ∷ ns)

abbrev pub axis_of : Sheet → ℕ → List (Cell × String) → PeriodAxis
axis_of sheet row run = record {
  sheet = sheet.name;
  row = row;
  start_column = first_of (map (λ p. p.0.column) run);
  end_column = last_of (map (λ p. p.0.column) run);
  labels = map (λ p. p.1) run;
}

abbrev pub flatten {ℓ} : {A : Type ℓ} → List (List A) → List A
flatten [] = []
flatten (xs ∷ xss) = xs ++ flatten xss

abbrev pub axes_of_row : Library → Sheet → ℕ → ℕ → List PeriodAxis
axes_of_row lib sheet minimum row =
    map (axis_of sheet row)
      (collect (λ column. labelled lib (cell_at sheet row column)) minimum (columns_of sheet) [])

unfoldable pub detect_period_axes : Library → Sheet → ℕ → List PeriodAxis
detect_period_axes lib sheet minimum_periods =
    flatten (map (axes_of_row lib sheet minimum_periods) (populated_rows sheet))

-- Whether the key of the second axis is greater: longer, or as long and higher up, or as high and further
-- to the left.
abbrev pub is_longer : PeriodAxis → PeriodAxis → Bool
is_longer a b =
    let m = a.end_column - a.start_column in
    let n = b.end_column - b.start_column in
    ltb m n
    || (eqb m n && (ltb b.row a.row || (eqb b.row a.row && ltb b.start_column a.start_column)))

-- `max`: the first of the greatest
abbrev pub longest : PeriodAxis → List PeriodAxis → PeriodAxis
longest best [] = best
longest best (axis ∷ axes) = longest (if is_longer best axis then axis else best) axes

abbrev pub longest_of : List PeriodAxis → Option PeriodAxis
longest_of [] = none
longest_of (axis ∷ axes) = some (longest axis axes)

unfoldable pub detect_period_axis : Library → Sheet → ℕ → Option PeriodAxis
detect_period_axis lib sheet minimum_periods =
    longest_of (detect_period_axes lib sheet minimum_periods)

abbrev pub with_formula : Option Cell → Option Cell
with_formula none = none
with_formula (some cell) = if is_formula cell then some cell else none

abbrev pub formula_or_empty : Option String → String
formula_or_empty none = ""
formula_or_empty (some f) = f

abbrev pub run_of : Library → Sheet → ℕ → List Cell → FormulaRun
run_of lib sheet row run = record {
  sheet = sheet.name;
  row = row;
  start_column = first_of (map (λ c. c.column) run);
  end_column = last_of (map (λ c. c.column) run);
  coordinates = map (λ c. c.coordinate) run;
  shapes = map (λ c. normalize_formula_shape lib (formula_or_empty c.formula) c.row c.column) run;
}

abbrev pub formula_at : Sheet → ℕ → ℕ → Option Cell
formula_at sheet row column = with_formula (cell_at sheet row column)

abbrev pub runs_of_row : Library → Sheet → ℕ → ℕ → List FormulaRun
runs_of_row lib sheet minimum row =
    map (run_of lib sheet row) (collect (formula_at sheet row) minimum (columns_of sheet) [])

unfoldable pub infer_formula_runs : Library → Sheet → ℕ → List FormulaRun
infer_formula_runs lib sheet minimum_cells =
    flatten (map (runs_of_row lib sheet minimum_cells) (populated_rows sheet))

abbrev pub is_occupied : Cell → Bool
is_occupied cell = is_formula cell || not (is_empty_value (effective_value cell))

abbrev pub occupied_rows : Sheet → List ℕ
occupied_rows sheet = sorted_set (map (λ c. c.row) (keep is_occupied sheet.cells))

abbrev pub follows : Option ℕ → ℕ → Bool
follows none row = false
follows (some previous) row = eqb row (previous + 1)

-- The loop over the rows, with the row before.
unfoldable pub count_sections : Option ℕ → List ℕ → ℕ
count_sections previous [] = 0
count_sections previous (row ∷ rows) =
    let rest = count_sections (some row) rows in if follows previous row then rest else suc rest

unfoldable pub estimate_section_count : Sheet → ℕ
estimate_section_count sheet = count_sections none (occupied_rows sheet)

-- ===== src/Lint/Rules/Structure.antt =====
-- The rules on axes, sections, checks and styles, XL006 and XL101 to XL104: src/xllib/lint/rules/__init__.py of
-- excel-library.
pub mod Once
pub mod Checks
use luis_puentes.Prelude.{
  ℕ, suc, String, Bool, true, false, Option, none, some, List, [], ◌∷◌, ◌++◌, ◌==◌, ◌&&◌, ◌||◌, not,
  if◌then◌else◌, concat, joined, any, keep, map, eqb, starts_with, look_up, text_or_empty,
}
use luis_puentes.Result.{Result, ok}
use luis_puentes.Workbook.{
  Library, CellValue, empty, number, boolean, Cell, is_formula, effective_value, is_empty_value,
  Sheet, cell_at, Reference, is_single_cell, DefinedName, Workbook, find_sheet,
}
use luis_puentes.Workbook.Spans.{PeriodAxis, detect_period_axis, estimate_section_count}
use luis_puentes.Workbook.Graph.{RefEdge, build_reference_graph}
use luis_puentes.Lint.{Status, Confidence, Finding, ℤ, pos, negsuc, exceeds, RuleContext}
use luis_puentes.Lint.Rules.Places.{locus_of, nowhere, finding, violation, gather}
use luis_puentes.Lint.Rules.Formulas.{with_graph, first_cell}

abbrev pub same_labels : List String → List String → Bool
same_labels [] [] = true
same_labels (s ∷ ss) (t ∷ ts) = s == t && same_labels ss ts
same_labels _ _ = false

module _ (lib : Library) where
  abbrev pub judge_pair : PeriodAxis → PeriodAxis → List Finding
  judge_pair left right =
      if not (same_labels left.labels right.labels) || eqb left.start_column right.start_column
      then []
      else violation "XL006" Confidence.heuristic
          (concat (
            "same period axis starts in column "
            ∷ lib.show_number left.start_column
            ∷ " on "
            ∷ left.sheet
            ∷ " and "
            ∷ lib.show_number right.start_column
            ∷ " on "
            ∷ right.sheet
            ∷ []))
          nowhere "align matching period sequences to the same column index"
          (("left", left.sheet) ∷ ("right", right.sheet) ∷ [])
        ∷ []

  abbrev pub judge_pairs : List PeriodAxis → List Finding
  judge_pairs [] = []
  judge_pairs (left ∷ rest) = gather (judge_pair left) rest ++ judge_pairs rest

  abbrev pub axes_of : List Sheet → List PeriodAxis
  axes_of [] = []
  axes_of (s ∷ ss) = elim (detect_period_axis lib s 2) [
    | none ↦ axes_of ss
    | some axis ↦ axis ∷ axes_of ss
  ]

  abbrev pub judge_axes : List PeriodAxis → List Finding
  judge_axes [] =
      finding "XL006" Status.info Confidence.heuristic
        "no period axis detected; inconsistent-period-axis was not evaluated" nowhere
        "add a detectable period header or ignore this informational finding" []
      ∷ []
  judge_axes (axis ∷ axes) = judge_pairs (axis ∷ axes)

  abbrev pub show_limit : ℤ → String
  show_limit (pos n) = lib.show_number n
  show_limit (negsuc n) = concat ("-" ∷ lib.show_number (suc n) ∷ [])

module _ (lib : Library) (wb : Workbook) where
  unfoldable pub xl006 : RuleContext → Result (List Finding)
  xl006 context = ok (judge_axes lib (axes_of lib wb.sheets))

  abbrev pub judge_sections : ℤ → Sheet → List Finding
  judge_sections limit sheet =
      let n = estimate_section_count sheet in
      let estimated = lib.show_number n in
      if exceeds n limit
      then violation "XL101" Confidence.heuristic
          (concat
            ("estimated " ∷ estimated ∷ " sections exceeds budget " ∷ show_limit lib limit ∷ []))
          (locus_of lib wb sheet.name none)
          "consolidate sections or document why the estimate is misleading"
          (("estimated_sections", estimated) ∷ ("budget", show_limit lib limit) ∷ [])
        ∷ []
      else []

  abbrev pub sections_limit : RuleContext → ℤ
  sections_limit context = elim (look_up context.thresholds "sections_per_sheet") [
    | none ↦ pos 5
    | some n ↦ n
  ]

  unfoldable pub xl101 : RuleContext → Result (List Finding)
  xl101 context = ok (gather (judge_sections (sections_limit context)) wb.sheets)

  abbrev pub is_check : DefinedName → Bool
  is_check name = starts_with (lib.casefold name.name) "chk_"

  unfoldable pub check_names : List DefinedName
  check_names = keep is_check wb.defined_names

  abbrev pub judge_convention : List DefinedName → List Finding
  judge_convention [] =
      violation "XL102" Confidence.certain "no chk_* defined name found" nowhere
        "define at least one check cell using the chk_* naming convention" []
      ∷ []
  judge_convention (name ∷ names) = []

  unfoldable pub xl102 : RuleContext → Result (List Finding)
  xl102 context = ok (judge_convention check_names)

  -- `value is True or (not isinstance(value, bool) and value == 0)`
  abbrev pub is_passing : CellValue → Bool
  is_passing (boolean b) = b
  is_passing (number n) = n == "0.0"
  is_passing _ = false

  abbrev pub value_at : Option Cell → CellValue
  value_at none = empty
  value_at (some cell) = effective_value cell

  abbrev pub coordinate_at : Reference → Option Cell → String
  coordinate_at target none = target.text
  coordinate_at target (some cell) = cell.coordinate

  abbrev pub judge_check : DefinedName → Reference → Sheet → Option Cell → List Finding
  judge_check name target sheet cell =
      let shown = lib.show (value_at cell) in
      if is_passing (value_at cell)
      then []
      else violation "XL103" Confidence.certain
          (concat ("check " ∷ name.name ∷ " evaluates to " ∷ shown ∷ []))
          (locus_of lib wb sheet.name (some (coordinate_at target cell)))
          "correct the model until the check evaluates to 0 or TRUE"
          (("defined_name", name.name) ∷ ("value", shown) ∷ [])
        ∷ []

  abbrev pub judge_check_at :
      DefinedName → Reference → Option Sheet → Option ℕ → Option ℕ → List Finding
  judge_check_at name target (some sheet) (some row) (some column) =
      judge_check name target sheet (cell_at sheet row column)
  judge_check_at name target _ _ _ = []

  abbrev pub judge_check_target : DefinedName → Reference → List Finding
  judge_check_target name target =
      judge_check_at name target (find_sheet lib wb (text_or_empty target.sheet))
        target.bounds.min_row target.bounds.min_column

  unfoldable pub xl103 : RuleContext → Result (List Finding)
  xl103 context = ok (gather (λ name. gather (judge_check_target name) name.references) check_names)

  abbrev pub is_at_key : String × ℕ × ℕ → String × ℕ × ℕ → Bool
  is_at_key (s, r, c) (t, q, d) = s == t && eqb r q && eqb c d

  abbrev pub is_styled : Cell → Bool
  is_styled cell = cell.has_font && cell.has_fill

  abbrev pub missing_style : Cell → String
  missing_style cell =
      joined ", "
        ((if cell.has_font then [] else "font" ∷ []) ++ (if cell.has_fill then [] else "fill" ∷ []))

  abbrev pub style_finding : Sheet → Cell → Finding
  style_finding sheet cell =
      violation "XL104" Confidence.heuristic "formula-dependent constant has no distinct style"
        (locus_of lib wb sheet.name (some cell.coordinate))
        "apply redundant input styling (font and fill) and provide an on-sheet legend"
        (("missing", missing_style cell) ∷ [])

  -- The constant that an edge leads to, if its style is not that of an input.
  abbrev pub plain_constant : Sheet → Reference → Option Cell
  plain_constant sheet target =
      if is_single_cell target
      then elim (first_cell lib wb sheet target) [
        | none ↦ none
        | some cell ↦
            (if is_formula cell || is_empty_value cell.value || is_styled cell
              then none
              else some cell)
      ]
      else none

  abbrev pub plain_target : RefEdge → Option (Sheet × Cell)
  plain_target edge = elim (find_sheet lib wb (text_or_empty edge.target.sheet)) [
    | none ↦ none
    | some sheet ↦ elim (plain_constant sheet edge.target) [
      | none ↦ none
      | some cell ↦ some (sheet, cell)
    ]
  ]

  abbrev pub key_of : Sheet × Cell → String × ℕ × ℕ
  key_of (sheet, cell) = (sheet.name, cell.row, cell.column)

  -- The loop over the edges, with the keys seen.
  unfoldable pub plain_cells : List (String × ℕ × ℕ) → List RefEdge → List (Sheet × Cell)
  plain_cells seen [] = []
  plain_cells seen (edge ∷ edges) = elim (plain_target edge) [
    | none ↦ plain_cells seen edges
    | some found ↦
        (if any (is_at_key (key_of found)) seen
          then plain_cells seen edges
          else found ∷ plain_cells (key_of found ∷ seen) edges)
  ]

  unfoldable pub xl104 : RuleContext → Result (List Finding)
  xl104 context =
      with_graph (build_reference_graph lib wb)
        (λ graph. map (λ p. style_finding p.0 p.1) (plain_cells [] graph.edges))

-- ===== src/Lint/Rules/Formulas.antt =====
-- The rules on names, literals and runs of formulas, XL001 to XL003: src/xllib/lint/rules/__init__.py of
-- excel-library.
use luis_puentes.Prelude.{
  joined, ℕ, suc, ◌-◌, String, Bool, true, false, Option, none, some, List, [], ◌∷◌, ◌++◌, ◌==◌,
  ◌&&◌, ◌||◌, not, if◌then◌else◌, concat, contains, any, keep, length, map, eqb, leb, ltb, look_up,
  value_or, text_or_empty,
}
use luis_puentes.Result.{Result, ok, raise, value_error, attribute_error}
use luis_puentes.Workbook.{
  Library, CellValue, number, boolean, Cell, is_formula, effective_value, as_text, Sheet, cell_at,
  Reference, is_single_cell, DefinedName, Workbook, find_sheet,
}
use luis_puentes.Workbook.Tokens.{NumericLiteral, walk_formula}
use luis_puentes.Workbook.Spans.{FormulaRun, infer_formula_runs}
use luis_puentes.Workbook.Graph.{RefEdge, RefGraph, build_reference_graph}
use luis_puentes.Lint.{
  Confidence, Finding, default_allowed_literals, Exemptions, default_positional_exemptions, Setting,
  readable, unreadable, Options, RuleContext,
}
use luis_puentes.Lint.Rules.Places.{locus_of, violation, gather}

abbrev pub is_numeric : CellValue → Bool
is_numeric (number s) = true
is_numeric (boolean b) = true
is_numeric _ = false

abbrev pub with_graph : Result RefGraph → (RefGraph → List Finding) → Result (List Finding)
with_graph (raise e) f = raise e
with_graph (ok graph) f = ok (f graph)

module _ (lib : Library) (wb : Workbook) where
  abbrev pub is_label : Option Cell → Bool
  is_label none = false
  is_label (some c) = elim (as_text (effective_value c)) [
    | none ↦ false
    | some s ↦ not (lib.strip s == "")
  ]

  abbrev pub left_of : Sheet → Cell → Option Cell
  left_of sheet cell = if ltb 1 cell.column then cell_at sheet cell.row (cell.column - 1) else none

  abbrev pub cell_above : Sheet → Cell → Option Cell
  cell_above sheet cell = if ltb 1 cell.row then cell_at sheet (cell.row - 1) cell.column else none

  abbrev pub goes_through : String → RefEdge → Bool
  goes_through name e = elim e.via_defined_name [
    | none ↦ false
    | some via ↦ lib.casefold via == lib.casefold name
  ]

  abbrev pub is_nil {ℓ} : {A : Type ℓ} → List A → Bool
  is_nil [] = true
  is_nil (x ∷ xs) = false

  abbrev pub judge_constant : DefinedName → List RefEdge → Sheet → Cell → List Finding
  judge_constant name used sheet cell =
      let users =
        joined ", " (map (λ e. concat (e.source_sheet ∷ "!" ∷ e.source_coordinate ∷ [])) used) in
      if is_formula cell || not (is_numeric cell.value)
      then []
      else if not (is_nil used)
          && not (is_label (left_of sheet cell) || is_label (cell_above sheet cell))
      then violation "XL001" Confidence.certain
          (concat
            ("named constant " ∷ name.name ∷ " has no adjacent label; referenced by " ∷ users ∷ []))
          (locus_of lib wb sheet.name (some cell.coordinate))
          "add a text label immediately left of or above the named constant"
          (("defined_name", name.name) ∷ ("referenced_by", users) ∷ [])
        ∷ []
      else []

  -- The cell at the first column and row of a reference.
  abbrev pub first_cell : Sheet → Reference → Option Cell
  first_cell sheet target = elim target.bounds.min_row [
    | none ↦ none
    | some row ↦ elim target.bounds.min_column [
      | none ↦ none
      | some column ↦ cell_at sheet row column
    ]
  ]

  abbrev pub judge_target : DefinedName → List RefEdge → Reference → List Finding
  judge_target name used target = elim (find_sheet lib wb (text_or_empty target.sheet)) [
    | none ↦ []
    | some sheet ↦ elim (first_cell sheet target) [
      | none ↦ []
      | some cell ↦ judge_constant name used sheet cell
    ]
  ]

  abbrev pub judge_name : RefGraph → DefinedName → List Reference → List Finding
  judge_name graph name (target ∷ []) =
      if is_single_cell target
      then judge_target name (keep (goes_through name.name) graph.edges) target
      else []
  judge_name graph name _ = []

  unfoldable pub xl001 : RuleContext → Result (List Finding)
  xl001 context =
      with_graph (build_reference_graph lib wb)
        (λ graph. gather (λ name. judge_name graph name name.references) wb.defined_names)

abbrev pub position_of : NumericLiteral → Option ℕ
position_of literal = elim literal.argument_index [ none ↦ none | some n ↦ some (suc n) ]

abbrev pub is_in : List ℕ → Option ℕ → Bool
is_in positions none = false
is_in positions (some n) = any (eqb n) positions

abbrev pub positions_of : Exemptions → String → List ℕ
positions_of exemptions function = value_or [] (look_up exemptions function)

unfoldable pub is_accepted : List String → Exemptions → NumericLiteral → Bool
is_accepted allowed exemptions literal =
    contains allowed literal.value
    || is_in (positions_of exemptions (text_or_empty literal.function)) (position_of literal)

abbrev pub allowed_in : Options → Setting (List String)
allowed_in options = value_or (readable default_allowed_literals) options.allowed_literals

abbrev pub exemptions_in : Options → Setting Exemptions
exemptions_in options =
    value_or (readable default_positional_exemptions) options.positional_exemptions

module _ (lib : Library) (wb : Workbook) where
  abbrev pub literal_finding : Sheet → Cell → String → NumericLiteral → Finding
  literal_finding sheet cell formula literal =
      violation "XL002" Confidence.certain
        (concat ("numeric literal " ∷ literal.text ∷ " in formula" ∷ []))
        (locus_of lib wb sheet.name (some cell.coordinate))
        "declare the value as a labelled input and reference it"
        (("formula", formula) ∷ ("literal", literal.text) ∷ [])

  -- Exemptions that are no mapping are read at the first literal.
  abbrev pub judge_literals :
      List String
      → Setting Exemptions
      → Sheet
      → Cell
      → String
      → List NumericLiteral
      → Result (List Finding)
  judge_literals allowed exemptions sheet cell formula [] = ok []
  judge_literals allowed unreadable sheet cell formula (l ∷ ls) = raise attribute_error
  judge_literals allowed (readable exemptions) sheet cell formula (l ∷ ls) = ok (
      map (literal_finding sheet cell formula)
        (keep (λ x. not (is_accepted allowed exemptions x)) (l ∷ ls)))

  abbrev pub judge_formula :
      List String → Setting Exemptions → Sheet → Cell → Option String → Result (List Finding)
  judge_formula allowed exemptions sheet cell none = ok []
  judge_formula allowed exemptions sheet cell (some formula) =
      elim (walk_formula lib (some wb) (some sheet.index) formula) [
        | raise e ↦ raise e
        | ok walk ↦ judge_literals allowed exemptions sheet cell formula walk.numeric_literals
      ]

  abbrev pub then_more : Result (List Finding) → Result (List Finding) → Result (List Finding)
  then_more (raise e) rest = raise e
  then_more (ok xs) (raise e) = raise e
  then_more (ok xs) (ok ys) = ok (xs ++ ys)

  abbrev pub gather_results {ℓ} :
      {A : Type ℓ} → (A → Result (List Finding)) → List A → Result (List Finding)
  gather_results f [] = ok []
  gather_results f (x ∷ xs) = then_more (f x) (gather_results f xs)

  unfoldable pub xl002 : RuleContext → Result (List Finding)
  xl002 context = elim (allowed_in context.options) [
    | unreadable ↦ raise (value_error "could not convert to float")
    | readable allowed ↦
        gather_results
          (λ sheet.
            gather_results
              (λ cell.
                judge_formula allowed (exemptions_in context.options) sheet cell cell.formula)
              sheet.cells)
          wb.sheets
  ]

  -- `dict.fromkeys`: each shape once, where it is first.
  abbrev pub without : String → List String → List String
  without s [] = []
  without s (t ∷ ts) = let rest = without s ts in if s == t then rest else t ∷ rest

  abbrev pub distinct : List String → List String
  distinct [] = []
  distinct (s ∷ ss) = s ∷ without s (distinct ss)

  abbrev pub judge_run : Sheet → FormulaRun → List Finding
  judge_run sheet run =
      let shapes = distinct run.shapes in
      let row = lib.show_number run.row in
      let ref = concat (
        lib.column_letter run.start_column
        ∷ row
        ∷ ":"
        ∷ lib.column_letter run.end_column
        ∷ row
        ∷ []) in
      if leb (length shapes) 1
      then []
      else violation "XL003" Confidence.heuristic
          (concat (lib.show_number (length shapes) ∷ " formula shapes in inferred run " ∷ ref ∷ []))
          (locus_of lib wb sheet.name (some ref))
          "use one copied formula shape or separate the exceptional column"
          (("inferred_run", ref) ∷ ("shapes", joined " | " shapes) ∷ [])
        ∷ []

  unfoldable pub xl003 : RuleContext → Result (List Finding)
  xl003 context =
      ok (gather (λ sheet. gather (judge_run sheet) (infer_formula_runs lib sheet 2)) wb.sheets)

-- ===== src/Lint/Rules/Texts.antt =====
-- The rules on texts where numbers belong, XL004 and XL005: src/xllib/lint/rules/__init__.py of excel-library.
use Prim.Native.Char.{code}
use luis_puentes.Prelude.{
  ℕ, suc, ◌-◌, String, Bool, Option, none, some, List, [], ◌∷◌, ◌&&◌, not, if◌then◌else◌, concat,
  contains, any, eqb, has_part, text_or_empty,
}
use luis_puentes.Result.{Result, ok}
use luis_puentes.Workbook.{
  Library, Cell, effective_value, as_text, is_error, Sheet, cell_at, Workbook, find_sheet,
}
use luis_puentes.Workbook.Spans.{range_from}
use luis_puentes.Workbook.Graph.{AggregateRange, build_reference_graph}
use luis_puentes.Lint.{Confidence, Finding, RuleContext}
use luis_puentes.Lint.Rules.Places.{locus_of, violation, gather}
use luis_puentes.Lint.Rules.Formulas.{with_graph}

-- `text.replace('"', "")`
abbrev pub drop_quotes : String → String
drop_quotes String.[] = ""
drop_quotes (String.◌∷◌ c s) =
    let rest = drop_quotes s in if eqb (code c) 34 then rest else String.◌∷◌ c rest

abbrev pub has_numeric_sign : String → Bool
has_numeric_sign s = any (λ sign. has_part sign s) ("0" ∷ "#" ∷ "$" ∷ "£" ∷ "€" ∷ "%" ∷ [])

unfoldable pub numeric_format : Library → String → Bool
numeric_format lib number_format =
    let cleaned = drop_quotes (lib.lower number_format) in
    not (contains ("" ∷ "general" ∷ "@" ∷ []) cleaned) && has_numeric_sign cleaned

abbrev pub kind_of : Bool → String
kind_of error = if error then "error" else "text"

module _ (lib : Library) (wb : Workbook) where
  abbrev pub text_finding : Sheet → Cell → String → Finding
  text_finding sheet cell value =
      let error = is_error cell in
      violation "XL004" Confidence.certain
        (if error
          then concat ("cached error " ∷ value ∷ " in a numeric-formatted cell" ∷ [])
          else "text value in a numeric-formatted cell")
        (locus_of lib wb sheet.name (some cell.coordinate))
        (if error
          then "repair the formula, or handle the error case so the cell holds a number"
          else "move status text to a status column and keep the numeric cell numeric")
        (("value", value) ∷ ("number_format", cell.number_format) ∷ ("kind", kind_of error) ∷ [])

  abbrev pub judge_cell : Sheet → Cell → List Finding
  judge_cell sheet cell = elim (as_text (effective_value cell)) [
    | none ↦ []
    | some value ↦
        (if numeric_format lib cell.number_format then text_finding sheet cell value ∷ [] else [])
  ]

  unfoldable pub xl004 : RuleContext → Result (List Finding)
  xl004 context = ok (gather (λ sheet. gather (judge_cell sheet) sheet.cells) wb.sheets)

  abbrev pub aggregated_finding : AggregateRange → Sheet → Cell → String → Finding
  aggregated_finding aggregate sheet cell value =
      let error = is_error cell in
      let source = concat (aggregate.source_sheet ∷ "!" ∷ aggregate.source_coordinate ∷ []) in
      violation "XL005" Confidence.certain
        (if error
          then concat ("cached error " ∷ value ∷ " inside range aggregated by " ∷ source ∷ [])
          else concat ("text value inside range aggregated by " ∷ source ∷ []))
        (locus_of lib wb sheet.name (some cell.coordinate))
        (if error
          then "repair the formula that errors; the aggregate cannot evaluate around it"
          else "remove text from the aggregate range or use a separate status column")
        (("aggregate", source)
          ∷ ("function", text_or_empty aggregate.function)
          ∷ ("kind", kind_of error)
          ∷ [])

  abbrev pub judge_place : AggregateRange → Sheet → Option Cell → List Finding
  judge_place aggregate sheet none = []
  judge_place aggregate sheet (some cell) = elim (as_text (effective_value cell)) [
    | none ↦ []
    | some value ↦ aggregated_finding aggregate sheet cell value ∷ []
  ]

  -- `range(first, last + 1)`
  abbrev pub places : ℕ → ℕ → List ℕ
  places first last = range_from first (suc last - first)

  abbrev pub judge_range :
      AggregateRange → Sheet → Option ℕ → Option ℕ → Option ℕ → Option ℕ → List Finding
  judge_range aggregate sheet (some min_row) (some min_col) (some max_row) (some max_col) =
      gather
        (λ row.
          gather (λ column. judge_place aggregate sheet (cell_at sheet row column))
            (places min_col max_col))
        (places min_row max_row)
  judge_range aggregate sheet _ _ _ _ = []

  abbrev pub judge_aggregate : AggregateRange → List Finding
  judge_aggregate aggregate =
      let b = aggregate.target.bounds in
      elim (find_sheet lib wb (text_or_empty aggregate.target.sheet)) [
        | none ↦ []
        | some sheet ↦ judge_range aggregate sheet b.min_row b.min_column b.max_row b.max_column
      ]

  unfoldable pub xl005 : RuleContext → Result (List Finding)
  xl005 context =
      with_graph (build_reference_graph lib wb)
        (λ graph. gather judge_aggregate graph.aggregate_ranges)

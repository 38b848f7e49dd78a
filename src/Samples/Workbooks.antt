-- ===== src/Samples/Workbooks.antt =====
-- The inspection theorems on a small workbook: a row with two numbers and two formulas.
use luis_puentes.Prelude.{
  ℕ, zero, suc, ◌≤◌, ◌≡◌, refl, String, false, Option, none, some, List, [], ◌∷◌, ◌==◌,
  if◌then◌else◌, All, count, concat, starts_with,
}
use luis_puentes.Result.{ok}
use luis_puentes.Workbook.{
  TokenKind, Token, CellValue, text, number, plain, Library, Cell, Sheet, Workbook,
}
use luis_puentes.Workbook.Tokens.{walk_formula, walk_tokens, TokenWalk}
use luis_puentes.Workbook.Tokens.Depth.{walk_formula-depth, opens}
use luis_puentes.Workbook.Spans.{estimate_section_count, occupied_rows}
use luis_puentes.Workbook.Spans.Sections.{begins, estimate_section_count-begins}
use luis_puentes.Workbook.Graph.{RefGraph, build_reference_graph}
use luis_puentes.Workbook.Graph.Aggregates.{IsBacked, build_reference_graph-IsBacked}

abbrev token : TokenKind → String → Token
token kind value = record { kind = kind; value = value }

-- The tokens of the two formulas of the sample.
abbrev tokens_of : String → List Token
tokens_of formula =
    if formula == "=SUM(A1:B1)"
    then token TokenKind.function_open "SUM("
      ∷ token TokenKind.range_operand "A1:B1"
      ∷ token TokenKind.function_close ")"
      ∷ []
    else if formula == "=SUM(MAX(7))"
    then token TokenKind.function_open "SUM("
      ∷ token TokenKind.function_open "MAX("
      ∷ token TokenKind.number_operand "7"
      ∷ token TokenKind.function_close ")"
      ∷ token TokenKind.function_close ")"
      ∷ []
    else []

abbrev digit : ℕ → String
digit zero = "0"
digit (suc zero) = "1"
digit (suc (suc n)) = "2"

abbrev day_named : String → Option ℕ
day_named s = if s == "2026-12-31" then some 20 else if s == "2026-01-01" then some 5 else none

abbrev pub sample_library : Library
sample_library = record {
  casefold = λ s. s;
  upper = λ s. s;
  lower = λ s. s;
  strip = λ s. if s == " " then "" else s;
  float = λ s. s;
  is_period = λ s. starts_with s "20";
  tokens = tokens_of;
  tokenize_error = λ s. if s == "=\"" then some "unbalanced" else none;
  split_sheet = λ s. none;
  pieces = λ s. plain s ∷ [];
  column_index = λ s. 1;
  boundaries = λ s.
      if s == "A1:B1"
      then some
          (record { min_column = some 1; min_row = some 1; max_column = some 2; max_row = some 1 })
      else none;
  column_letter = digit;
  show = λ v. "value";
  show_number = digit;
  day_of = day_named;
}

abbrev cell_with : ℕ → String → CellValue → Option String → Cell
cell_with column coordinate value formula = record {
  sheet = "Calc";
  row = 1;
  column = column;
  coordinate = coordinate;
  value = value;
  formula = formula;
  cached_value = value;
  data_type = "n";
  number_format = "0.00";
  has_style = false;
  has_font = false;
  has_fill = false;
}

abbrev pub a1_cell : Cell
a1_cell = cell_with 1 "A1" (number "3.0") none

abbrev pub sample_sheet : Sheet
sample_sheet = record {
  name = "Calc";
  index = 0;
  state = "visible";
  max_row = 1;
  max_column = 4;
  cells =
      a1_cell
      ∷ cell_with 2 "B1" (text "n/a") none
      ∷ cell_with 3 "C1" (number "3.0") (some "=SUM(A1:B1)")
      ∷ cell_with 4 "D1" (number "7.0") (some "=SUM(MAX(7))")
      ∷ [];
}

abbrev pub sample_workbook : Workbook
sample_workbook = record { path = "model.xlsx"; sheets = sample_sheet ∷ []; defined_names = [] }

abbrev nested_walk : TokenWalk
nested_walk = record {
  formula = "=SUM(MAX(7))";
  numeric_literals =
      record {
        text = "7";
        value = "7";
        function = some "MAX";
        function_depth = 2;
        argument_index = some 0;
      }
      ∷ [];
  range_tokens = [];
  max_function_depth = 2;
  function_count = 2;
}

nested_walk-walk : walk_formula sample_library none none "=SUM(MAX(7))" ≡ ok nested_walk
unfolding walk_formula walk_tokens concat
nested_walk-walk = refl

walk_formula-depth_example :
    (nested_walk.function_count ≡ count opens (sample_library.tokens "=SUM(MAX(7))"))
    × (nested_walk.max_function_depth ≤ nested_walk.function_count)
    × All (λ l. l.function_depth ≤ nested_walk.max_function_depth) nested_walk.numeric_literals
walk_formula-depth_example =
    walk_formula-depth sample_library none none "=SUM(MAX(7))" nested_walk nested_walk-walk

estimate_section_count-begins_example :
    estimate_section_count sample_sheet
    ≡ count (begins (occupied_rows sample_sheet)) (occupied_rows sample_sheet)
estimate_section_count-begins_example = estimate_section_count-begins sample_sheet

build_reference_graph-IsBacked_example :
    (graph : RefGraph) × (build_reference_graph sample_library sample_workbook ≡ ok graph)
    × IsBacked graph.edges graph.aggregate_ranges
build_reference_graph-IsBacked_example =
    build_reference_graph-IsBacked sample_library sample_workbook
      ((tt, (tt, ((refl, refl), ((refl, refl), tt)))), tt)

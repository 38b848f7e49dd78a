-- ===== src/Workbook.antt =====
-- The workbook that excel-library inspects: src/xllib/inspect/model.py of excel-library. A number is the text
-- that Python's repr gives its float, with one text for the two zeros.
pub mod Tokens
pub mod Spans
pub mod Graph
use luis_puentes.Prelude.{
  ℕ, zero, suc, String, Bool, true, false, Option, none, some, List, [], ◌∷◌, ◌==◌, ◌&&◌, ◌||◌, not,
  if◌then◌else◌, contains, first, map, eqb, ltb,
}

-- An operand's kind matters to the code, and the kinds of the functions' parentheses.
pub data TokenKind : Type 0 where
  function_open function_close argument_separator : TokenKind
  number_operand range_operand other_operand prefix_operator other : TokenKind

pub record Token : Type 0 where
  pub kind : TokenKind
  pub value : String

-- The columns and rows of a reference; a whole row or column leaves two of them open.
pub record Bounds : Type 0 where
  pub min_column : Option ℕ
  pub min_row : Option ℕ
  pub max_column : Option ℕ
  pub max_row : Option ℕ

-- A moment is a date or a datetime, and a duration a time or a timedelta.
pub data CellValue : Type 0 where
  empty : CellValue
  text : String → CellValue
  number : String → CellValue
  boolean : Bool → CellValue
  moment : String → CellValue
  duration : String → CellValue

-- A text around the references to cells that a regular expression finds in it: a reference has its
-- column, its row, and whether each of them is absolute.
pub data Piece : Type 0 where
  plain : String → Piece
  cell_ref : Bool → String → Bool → ℕ → Piece

-- What the code calls of Python and of openpyxl: texts in another case, the parts of a text, the float of a
-- text, the matches of its regular expressions, the tokens of a formula (`tokenize_error` is the message of the TokenizerError on one that
-- cannot be tokenized), the boundaries of a reference, and the
-- letters of a column. A date is the text of
-- its isoformat; `day_of` is its day, if the text is that of a date.
pub record Library : Type 0 where
  pub casefold : String → String
  pub upper : String → String
  pub lower : String → String
  pub strip : String → String
  pub float : String → String
  pub is_period : String → Bool
  pub tokens : String → List Token
  pub tokenize_error : String → Option String
  pub split_sheet : String → Option (String × String)
  pub pieces : String → List Piece
  pub column_index : String → ℕ
  pub boundaries : String → Option Bounds
  pub column_letter : ℕ → String
  pub show : CellValue → String
  pub show_number : ℕ → String
  pub day_of : String → Option ℕ

abbrev pub error_literals : List String
error_literals =
    "#BLOCKED!" ∷ "#BUSY!" ∷ "#CALC!" ∷ "#CONNECT!" ∷ "#DIV/0!" ∷ "#FIELD!" ∷ "#GETTING_DATA"
    ∷ "#N/A" ∷ "#NAME?" ∷ "#NULL!" ∷ "#NUM!" ∷ "#REF!" ∷ "#SPILL!" ∷ "#UNKNOWN!" ∷ "#VALUE!" ∷ []

pub record Cell : Type 0 where
  pub sheet : String
  pub row : ℕ
  pub column : ℕ
  pub coordinate : String
  pub value : CellValue
  pub formula : Option String
  pub cached_value : CellValue
  pub data_type : String
  pub number_format : String
  pub has_style : Bool
  pub has_font : Bool
  pub has_fill : Bool

abbrev pub is_formula : Cell → Bool
is_formula cell = elim cell.formula [ none ↦ false | some f ↦ true ]

unfoldable pub effective_value : Cell → CellValue
effective_value cell = if is_formula cell then cell.cached_value else cell.value

abbrev pub is_empty_value : CellValue → Bool
is_empty_value empty = true
is_empty_value _ = false

abbrev pub as_text : CellValue → Option String
as_text (text s) = some s
as_text _ = none

unfoldable pub is_error : Cell → Bool
unfolding effective_value
is_error cell = elim (as_text (effective_value cell)) [
  | none ↦ false
  | some s ↦ contains error_literals s && (is_formula cell || cell.data_type == "e")
]

unfoldable pub cache_missing : Cell → Bool
cache_missing cell = is_formula cell && is_empty_value cell.cached_value

pub record Sheet : Type 0 where
  pub name : String
  pub index : ℕ
  pub state : String
  pub max_row : ℕ
  pub max_column : ℕ
  pub cells : List Cell

-- A later cell takes the place of an earlier one at its position.
abbrev pub find_last {ℓ} : {A : Type ℓ} → (A → Bool) → List A → Option A
find_last p [] = none
find_last p (x ∷ xs) =
    let rest = find_last p xs in
    elim rest [ some y ↦ some y | none ↦ (if p x then some x else none) ]

abbrev pub is_at : ℕ → ℕ → Cell → Bool
is_at row column c = eqb c.row row && eqb c.column column

unfoldable pub cell_at : Sheet → ℕ → ℕ → Option Cell
cell_at sheet row column = find_last (is_at row column) sheet.cells

-- `sorted({…})`
abbrev pub add_row : ℕ → List ℕ → List ℕ
add_row n [] = n ∷ []
add_row n (m ∷ ms) =
    let rest = add_row n ms in if ltb n m then n ∷ m ∷ ms else if eqb n m then m ∷ ms else m ∷ rest

abbrev pub sorted_set : List ℕ → List ℕ
sorted_set [] = []
sorted_set (n ∷ ns) = add_row n (sorted_set ns)

unfoldable pub populated_rows : Sheet → List ℕ
populated_rows sheet = sorted_set (map (λ c. c.row) sheet.cells)

pub record Reference : Type 0 where
  pub sheet : Option String
  pub bounds : Bounds
  pub text : String
  pub external : Bool

abbrev pub same_place : Option ℕ → Option ℕ → Bool
same_place (some m) (some n) = eqb m n
same_place _ _ = false

unfoldable pub is_single_cell : Reference → Bool
is_single_cell r =
    same_place r.bounds.min_row r.bounds.max_row
    && same_place r.bounds.min_column r.bounds.max_column

pub record DefinedName : Type 0 where
  pub name : String
  pub local_sheet_id : Option ℕ
  pub hidden : Bool
  pub expression : String
  pub references : List Reference

pub record Workbook : Type 0 where
  pub path : String
  pub sheets : List Sheet
  pub defined_names : List DefinedName

unfoldable pub find_sheet : Library → Workbook → String → Option Sheet
find_sheet lib wb name = find_last (λ s. lib.casefold s.name == lib.casefold name) wb.sheets

abbrev pub has_name : Library → String → DefinedName → Bool
has_name lib name d = lib.casefold d.name == lib.casefold name

abbrev pub is_local : ℕ → DefinedName → Bool
is_local index d = elim d.local_sheet_id [ none ↦ false | some i ↦ eqb i index ]

abbrev pub is_global : DefinedName → Bool
is_global d = elim d.local_sheet_id [ none ↦ true | some i ↦ false ]

abbrev pub find_global : Library → Workbook → String → Option DefinedName
find_global lib wb name = first (λ d. has_name lib name d && is_global d) wb.defined_names

-- A name of the sheet comes before one of the workbook.
unfoldable pub resolve_name : Library → Workbook → String → Option ℕ → Option DefinedName
resolve_name lib wb name none = find_global lib wb name
resolve_name lib wb name (some index) =
    elim (first (λ d. has_name lib name d && is_local index d) wb.defined_names) [
      | some d ↦ some d
      | none ↦ find_global lib wb name
    ]

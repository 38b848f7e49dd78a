-- ===== src/Workbook/Tokens.antt =====
-- The walk over the tokens of a formula: src/xllib/inspect/tokens.py of excel-library.
pub mod Depth
use Prim.Native.Char.{code}
use luis_puentes.Prelude.{
  ℕ, zero, suc, String, Bool, true, false, Option, none, some, List, [], ◌∷◌, ◌++◌, ◌==◌, ◌&&◌,
  length, concat, map, ◌-◌, if◌then◌else◌, eqb, leb,
}
use luis_puentes.Result.{Result, ok, raise, value_error, tokenizer_error}
use luis_puentes.Workbook.{
  Library, Piece, plain, cell_ref, Token, TokenKind, Workbook, resolve_name,
}

pub record NumericLiteral : Type 0 where
  pub text : String
  pub value : String
  pub function : Option String
  pub function_depth : ℕ
  pub argument_index : Option ℕ

pub record RangeToken : Type 0 where
  pub text : String
  pub function : Option String
  pub function_depth : ℕ
  pub argument_index : Option ℕ
  pub defined_name : Option String

pub record TokenWalk : Type 0 where
  pub formula : String
  pub numeric_literals : List NumericLiteral
  pub range_tokens : List RangeToken
  pub max_function_depth : ℕ
  pub function_count : ℕ

pub record Frame : Type 0 where
  pub name : String
  pub argument_index : ℕ

-- The open functions, the innermost first, and what was found so far.
pub record Walk : Type 0 where
  pub frames : List Frame
  pub literals : List NumericLiteral
  pub ranges : List RangeToken
  pub count : ℕ
  pub depth : ℕ
  pub previous : Option Token

abbrev pub maximum : ℕ → ℕ → ℕ
maximum m n = if leb m n then n else m

abbrev pub function_of : List Frame → Option String
function_of [] = none
function_of (f ∷ fs) = some f.name

abbrev pub argument_of : List Frame → Option ℕ
argument_of [] = none
argument_of (f ∷ fs) = some f.argument_index

abbrev pub pop : List Frame → List Frame
pop [] = []
pop (f ∷ fs) = fs

abbrev pub next_argument : List Frame → List Frame
next_argument [] = []
next_argument (f ∷ fs) = record f { argument_index = suc f.argument_index } ∷ fs

abbrev pub is_prefix : TokenKind → Bool
is_prefix TokenKind.prefix_operator = true
is_prefix _ = false

-- The sign that stands before a number.
abbrev pub sign_of : Option Token → String
sign_of none = ""
sign_of (some t) = if is_prefix t.kind && t.value == "-" then "-" else ""

-- The name of a function, from its token with the parenthesis.
abbrev pub drop_parenthesis : String → String
drop_parenthesis String.[] = ""
drop_parenthesis (String.◌∷◌ c s) =
    let rest = drop_parenthesis s in if eqb (code c) 40 && s == "" then "" else String.◌∷◌ c rest

-- What names mean in a workbook, if there is one.
abbrev pub resolved_in : Library → Option Workbook → Option ℕ → String → Option String
resolved_in lib none index name = none
resolved_in lib (some wb) index name = elim (resolve_name lib wb name index) [
  | none ↦ none
  | some d ↦ some d.name
]

abbrev pub starts_equal : String → Bool
starts_equal String.[] = false
starts_equal (String.◌∷◌ c s) = eqb (code c) 61

module _ (lib : Library) (wb : Option Workbook) (index : Option ℕ) where
  abbrev pub open_function : Token → Walk → Walk
  open_function t w =
      let frames =
        record { name = lib.upper (drop_parenthesis t.value); argument_index = 0 } ∷ w.frames in
      record w { frames = frames; count = suc w.count; depth = maximum w.depth (length frames) }

  abbrev pub literal_at : Token → Walk → NumericLiteral
  literal_at t w =
      let text = concat (sign_of w.previous ∷ t.value ∷ []) in
      record {
        text = text;
        value = lib.float text;
        function = function_of w.frames;
        function_depth = length w.frames;
        argument_index = argument_of w.frames;
      }

  abbrev pub range_at : Token → Walk → RangeToken
  range_at t w = record {
    text = t.value;
    function = function_of w.frames;
    function_depth = length w.frames;
    argument_index = argument_of w.frames;
    defined_name = resolved_in lib wb index t.value;
  }

  abbrev pub read_token : TokenKind → Token → Walk → Walk
  read_token TokenKind.function_open t w = open_function t w
  read_token TokenKind.function_close t w = record w { frames = pop w.frames }
  read_token TokenKind.argument_separator t w = record w { frames = next_argument w.frames }
  read_token TokenKind.number_operand t w = record w {
    literals = w.literals ++ literal_at t w ∷ [];
  }
  read_token TokenKind.range_operand t w = record w { ranges = w.ranges ++ range_at t w ∷ [] }
  read_token _ t w = w

  unfoldable pub walk_tokens : List Token → Walk → Walk
  walk_tokens [] w = w
  walk_tokens (t ∷ ts) w = walk_tokens ts (record (read_token t.kind t w) { previous = some t })

  abbrev pub start_walk : Walk
  start_walk = record {
    frames = [];
    literals = [];
    ranges = [];
    count = 0;
    depth = 0;
    previous = none;
  }

  abbrev pub finish_walk : String → Walk → TokenWalk
  finish_walk formula w = record {
    formula = formula;
    numeric_literals = w.literals;
    range_tokens = w.ranges;
    max_function_depth = w.depth;
    function_count = w.count;
  }

  unfoldable pub walk_formula : String → Result TokenWalk
  walk_formula formula =
      if starts_equal formula
      then (elim (lib.tokenize_error formula) [
        | some message ↦ raise (tokenizer_error message)
        | none ↦ ok (finish_walk formula (walk_tokens (lib.tokens formula) start_walk))
      ])
      else raise (value_error "formula must start with '='")

-- A row or column of a reference, absolute or relative to that of the cell.
abbrev pub offset : Library → ℕ → ℕ → String
offset lib place from =
    if leb from place
    then lib.show_number (place - from)
    else concat ("-" ∷ lib.show_number (from - place) ∷ [])

abbrev pub part : Library → String → Bool → ℕ → ℕ → String
part lib letter true place from = concat (letter ∷ lib.show_number place ∷ [])
part lib letter false place from = concat (letter ∷ "[" ∷ offset lib place from ∷ "]" ∷ [])

module _ (lib : Library) (row column : ℕ) where
  abbrev pub normalize_reference : Piece → String
  normalize_reference (plain s) = s
  normalize_reference (cell_ref column_absolute letters row_absolute ref_row) = concat (
      part lib "R" row_absolute ref_row row
      ∷ part lib "C" column_absolute (lib.column_index letters) column
      ∷ [])

  abbrev pub relative_shape : String → String
  relative_shape reference = concat (map normalize_reference (lib.pieces reference))

  abbrev pub shape_of_range : String → Option (String × String) → String
  shape_of_range value (some (sheet, reference)) =
      concat (sheet ∷ "!" ∷ relative_shape reference ∷ [])
  shape_of_range value none = relative_shape value

  abbrev pub shape_of : TokenKind → String → String
  shape_of TokenKind.range_operand value = shape_of_range value (lib.split_sheet value)
  shape_of TokenKind.number_operand value = value
  shape_of TokenKind.other_operand value = value
  shape_of _ value = lib.upper value

-- The shape of a formula that can be tokenized.
unfoldable pub normalize_formula_shape : Library → String → ℕ → ℕ → String
normalize_formula_shape lib formula row column =
    concat (map (λ t. shape_of lib row column t.kind t.value) (lib.tokens formula))

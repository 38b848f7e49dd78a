-- ===== src/Workbook/Graph.antt =====
-- The references between the cells of a workbook: src/xllib/inspect/refs.py of excel-library.
pub mod Aggregates
use Prim.Native.Char.{code}
use luis_puentes.Prelude.{
  String, Bool, true, false, Option, none, some, List, [], ◌∷◌, ◌++◌, ◌==◌, ◌&&◌, ◌||◌,
  if◌then◌else◌, contains, keep, map, eqb, starts_with, has_part,
}
use luis_puentes.Result.{Result, ok, raise}
use luis_puentes.Workbook.{
  Library, Bounds, Cell, Sheet, Reference, DefinedName, Workbook, resolve_name,
}
use luis_puentes.Workbook.Tokens.{RangeToken, TokenWalk, walk_formula}

abbrev pub aggregate_functions : List String
aggregate_functions =
    "SUM" ∷ "AVERAGE" ∷ "MIN" ∷ "MAX" ∷ "COUNT" ∷ "COUNTA" ∷ "PRODUCT" ∷ "SUBTOTAL" ∷ []

pub record RefEdge : Type 0 where
  pub source_sheet : String
  pub source_coordinate : String
  pub target : Reference
  pub via_defined_name : Option String

pub record AggregateRange : Type 0 where
  pub source_sheet : String
  pub source_coordinate : String
  pub function : Option String
  pub target : Reference

pub record RefGraph : Type 0 where
  pub edges : List RefEdge
  pub aggregate_ranges : List AggregateRange
  pub external_edges : List RefEdge

unfoldable pub outgoing : RefGraph → Cell → List RefEdge
outgoing graph cell =
    keep (λ e. e.source_sheet == cell.sheet && e.source_coordinate == cell.coordinate) graph.edges

abbrev pub ends_with_quote : String → Bool
ends_with_quote String.[] = false
ends_with_quote (String.◌∷◌ c s) =
    let rest = ends_with_quote s in if s == "" then eqb (code c) 39 else rest

abbrev pub drop_last : String → String
drop_last String.[] = ""
drop_last (String.◌∷◌ c s) = let rest = drop_last s in if s == "" then "" else String.◌∷◌ c rest

abbrev pub drop_first : String → String
drop_first String.[] = ""
drop_first (String.◌∷◌ c s) = s

-- `text.replace("''", "'")`; the flag tells that the character before was the first of a pair.
abbrev pub single_quotes : Bool → String → String
single_quotes half String.[] = ""
single_quotes half (String.◌∷◌ c s) = elim (eqb (code c) 39 && half) [
  | true ↦ single_quotes false s
  | false ↦ String.◌∷◌ c (single_quotes (eqb (code c) 39) s)
]

unfoldable pub unquote_sheet : String → String
unquote_sheet text =
    if starts_with text "'" && ends_with_quote text
    then single_quotes false (drop_last (drop_first text))
    else text

abbrev pub no_bounds : Bounds
no_bounds = record { min_column = none; min_row = none; max_column = none; max_row = none }

abbrev pub bounds_of : Option Bounds → Bounds
bounds_of none = no_bounds
bounds_of (some b) = b

abbrev pub reference_on : Library → String → String → String → Reference
reference_on lib text sheet coordinate = record {
  sheet = some sheet;
  bounds = bounds_of (lib.boundaries coordinate);
  text = text;
  external = has_part "[" sheet || has_part "]" sheet;
}

unfoldable pub parse_reference : Library → String → String → Reference
parse_reference lib text current_sheet = elim (lib.split_sheet text) [
  | some (sheet, coordinate) ↦ reference_on lib text (unquote_sheet sheet) coordinate
  | none ↦ reference_on lib text current_sheet text
]

-- What a token stands for: the references of a defined name, or one reference.
abbrev pub targets_of : Library → Workbook → Sheet → String → List Reference × Option String
targets_of lib wb sheet text = elim (resolve_name lib wb text (some sheet.index)) [
  | some d ↦ (d.references, some d.name)
  | none ↦ (parse_reference lib text sheet.name ∷ [], none)
]

abbrev pub aggregates : Option String → Bool
aggregates none = false
aggregates (some f) = contains aggregate_functions f

-- What the loops have appended so far.
pub record Found : Type 0 where
  pub found_edges : List RefEdge
  pub found_aggregates : List AggregateRange

module _ (sheet : Sheet) (cell : Cell) where
  abbrev pub edge_to : Option String → Reference → RefEdge
  edge_to name target = record {
    source_sheet = sheet.name;
    source_coordinate = cell.coordinate;
    target = target;
    via_defined_name = name;
  }

  abbrev pub aggregate_to : Option String → Reference → AggregateRange
  aggregate_to function target = record {
    source_sheet = sheet.name;
    source_coordinate = cell.coordinate;
    function = function;
    target = target;
  }

  abbrev pub add_targets : Option String → Option String → List Reference → Found → Found
  add_targets function name [] found = found
  add_targets function name (target ∷ targets) found = add_targets function name targets (record {
    found_edges = found.found_edges ++ edge_to name target ∷ [];
    found_aggregates =
        found.found_aggregates
        ++ (if aggregates function then aggregate_to function target ∷ [] else []);
  })

module _ (lib : Library) (wb : Workbook) where
  unfoldable pub add_tokens : Sheet → Cell → List RangeToken → Found → Found
  add_tokens sheet cell [] found = found
  add_tokens sheet cell (t ∷ ts) found =
      let (targets, name) = targets_of lib wb sheet t.text in
      add_tokens sheet cell ts (add_targets sheet cell t.function name targets found)

  abbrev pub add_walk : Sheet → Cell → Found → Result TokenWalk → Result Found
  add_walk sheet cell found (ok walk) = ok (add_tokens sheet cell walk.range_tokens found)
  add_walk sheet cell found (raise e) = raise e

  abbrev pub add_formula : Sheet → Cell → Found → Option String → Result Found
  add_formula sheet cell found none = ok found
  add_formula sheet cell found (some formula) =
      add_walk sheet cell found (walk_formula lib (some wb) (some sheet.index) formula)

  unfoldable pub add_cell : Sheet → Cell → Found → Result Found
  add_cell sheet cell found = add_formula sheet cell found cell.formula

  unfoldable pub add_cells : Sheet → List Cell → Found → Result Found
  add_cells sheet [] found = ok found
  add_cells sheet (cell ∷ cells) found = elim (add_cell sheet cell found) [
    | ok next ↦ add_cells sheet cells next
    | raise e ↦ raise e
  ]

  unfoldable pub add_sheets : List Sheet → Found → Result Found
  add_sheets [] found = ok found
  add_sheets (sheet ∷ sheets) found = elim (add_cells sheet sheet.cells found) [
    | ok next ↦ add_sheets sheets next
    | raise e ↦ raise e
  ]

  abbrev pub graph_of : Found → RefGraph
  graph_of found = record {
    edges = found.found_edges;
    aggregate_ranges = found.found_aggregates;
    external_edges = keep (λ e. e.target.external) found.found_edges;
  }

  unfoldable pub build_reference_graph : Result RefGraph
  build_reference_graph =
      elim (add_sheets wb.sheets (record { found_edges = []; found_aggregates = [] })) [
        | ok found ↦ ok (graph_of found)
        | raise e ↦ raise e
      ]

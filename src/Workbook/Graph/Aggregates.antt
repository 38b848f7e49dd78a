-- ===== src/Workbook/Graph/Aggregates.antt =====
-- The edges and the aggregated ranges of a graph: src/xllib/inspect/refs.py of excel-library.
use luis_puentes.Prelude.{
  ◌≡◌, refl, String, true, Option, none, some, List, [], ◌∷◌, ◌++◌, ◌⊎◌, inl, inr, All, Bool-cases,
}
use luis_puentes.Result.{Result, ok}
use luis_puentes.Workbook.{Library, Cell, Sheet, Reference, Workbook}
use luis_puentes.Workbook.Tokens.{RangeToken, starts_equal, walk_formula}
use luis_puentes.Workbook.Graph.{
  RefEdge, AggregateRange, RefGraph, Found, aggregates, targets_of, edge_to, aggregate_to,
  add_targets, add_tokens, add_formula, add_cell, add_cells, add_sheets, graph_of,
  build_reference_graph,
}

abbrev pub HasEdge : AggregateRange → List RefEdge → Type 0
HasEdge a [] = ⊥
HasEdge a (e ∷ es) =
    ((e.source_sheet ≡ a.source_sheet)
      × (e.source_coordinate ≡ a.source_coordinate)
      × (e.target ≡ a.target))
    ⊎ HasEdge a es

-- Every aggregated range is the target of an edge from the same cell.
abbrev pub IsBacked : List RefEdge → List AggregateRange → Type 0
IsBacked es = All (λ a. HasEdge a es)

abbrev pub IsReadable : Library → Option String → Type 0
IsReadable lib none = Unit
IsReadable lib (some f) = (starts_equal f ≡ true) × (lib.tokenize_error f ≡ none)

-- The formulas of a list of cells begin as a formula does and can be tokenized.
abbrev pub AreReadable : Library → List Cell → Type 0
AreReadable lib = All (λ c. IsReadable lib c.formula)

HasEdge-append : (a : AggregateRange) (es fs : List RefEdge) → HasEdge a es → HasEdge a (es ++ fs)
HasEdge-append a [] fs x = elim x [ ]
HasEdge-append a (e ∷ es) fs (inl h) = inl h
HasEdge-append a (e ∷ es) fs (inr h) = inr (HasEdge-append a es fs h)

HasEdge-last :
    (a : AggregateRange) (es : List RefEdge) (e : RefEdge)
    → HasEdge a (e ∷ [])
    → HasEdge a (es ++ e ∷ [])
HasEdge-last a [] e h = h
HasEdge-last a (f ∷ es) e h = inr (HasEdge-last a es e h)

IsBacked-append :
    (es fs : List RefEdge) (ranges : List AggregateRange)
    → IsBacked es ranges
    → IsBacked (es ++ fs) ranges
IsBacked-append es fs [] h = tt
IsBacked-append es fs (a ∷ ranges) (x, h) =
    (HasEdge-append a es fs x, IsBacked-append es fs ranges h)

IsBacked-snoc :
    (es : List RefEdge) (ranges : List AggregateRange) (a : AggregateRange)
    → IsBacked es ranges
    → HasEdge a es
    → IsBacked es (ranges ++ a ∷ [])
IsBacked-snoc es [] a h x = (x, tt)
IsBacked-snoc es (b ∷ ranges) a (y, h) x = (y, IsBacked-snoc es ranges a h x)

IsBacked-nil :
    (es : List RefEdge) (ranges : List AggregateRange)
    → IsBacked es ranges
    → IsBacked es (ranges ++ [])
IsBacked-nil es [] h = tt
IsBacked-nil es (a ∷ ranges) (x, h) = (x, IsBacked-nil es ranges h)

abbrev IsSound : Found → Type 0
IsSound found = IsBacked found.found_edges found.found_aggregates

module _ (sheet : Sheet) (cell : Cell) (function name : Option String) where
  add_targets-IsSound :
      (targets : List Reference) (found : Found)
      → IsSound found
      → IsSound (add_targets sheet cell function name targets found)
  add_targets-IsSound [] found h = h
  add_targets-IsSound (target ∷ targets) found h =
      let edge = edge_to sheet cell name target in
      let es = found.found_edges in
      let grown : IsBacked (es ++ edge ∷ []) found.found_aggregates =
        IsBacked-append es (edge ∷ []) found.found_aggregates h in
      add_targets-IsSound targets _ (elim (Bool-cases (aggregates function)) [
        | inl e ↦ rw e (
            IsBacked-snoc (es ++ edge ∷ []) found.found_aggregates
              (aggregate_to sheet cell function target) grown
              (HasEdge-last (aggregate_to sheet cell function target) es edge
                (inl (refl, refl, refl))))
        | inr e ↦ rw e (IsBacked-nil (es ++ edge ∷ []) found.found_aggregates grown)
      ])

module _ (lib : Library) (wb : Workbook) where
  add_tokens-IsSound :
      (sheet : Sheet) (cell : Cell) (ts : List RangeToken) (found : Found)
      → IsSound found
      → IsSound (add_tokens lib wb sheet cell ts found)
  unfolding add_tokens
  add_tokens-IsSound sheet cell [] found h = h
  add_tokens-IsSound sheet cell (t ∷ ts) found h = add_tokens-IsSound sheet cell ts _ (
      add_targets-IsSound sheet cell t.function (targets_of lib wb sheet t.text).1
        (targets_of lib wb sheet t.text).0 found h)

  -- A step that returns, with what it found.
  abbrev Returns : Result Found → Type 0
  Returns r = (found : Found) × (r ≡ ok found) × IsSound found

  add_cell-Returns :
      (sheet : Sheet) (cell : Cell) (found : Found)
      → IsReadable lib cell.formula
      → IsSound found
      → Returns (add_cell lib wb sheet cell found)
  unfolding add_cell walk_formula
  add_cell-Returns sheet cell found w h = go cell.formula w
    where
      go : (o : Option String) → IsReadable lib o → Returns (add_formula lib wb sheet cell found o)
      go none v = (found, refl, h)
      go (some f) v = rw (v.0, v.1) (_, refl, add_tokens-IsSound sheet cell _ found h)

  add_cells-Returns :
      (sheet : Sheet) (cells : List Cell) (found : Found)
      → AreReadable lib cells
      → IsSound found
      → Returns (add_cells lib wb sheet cells found)
  unfolding add_cells
  add_cells-Returns sheet [] found w h = (found, refl, h)
  add_cells-Returns sheet (cell ∷ cells) found (w, ws) h =
      let (next, e, k) = add_cell-Returns sheet cell found w h in
      rw (add_cells, e) (add_cells-Returns sheet cells next ws k)

  add_sheets-Returns :
      (sheets : List Sheet) (found : Found)
      → All (λ s. AreReadable lib s.cells) sheets
      → IsSound found
      → Returns (add_sheets lib wb sheets found)
  unfolding add_sheets
  add_sheets-Returns [] found w h = (found, refl, h)
  add_sheets-Returns (sheet ∷ sheets) found (w, ws) h =
      let (next, e, k) = add_cells-Returns sheet sheet.cells found w h in
      rw (add_sheets, e) (add_sheets-Returns sheets next ws k)

-- If every formula of a workbook begins with an equals sign and can be tokenized, its graph is built, and each range that a
-- formula aggregates is the target of an edge from the cell of that formula.
pub build_reference_graph-IsBacked :
    (lib : Library) (wb : Workbook)
    → All (λ s. AreReadable lib s.cells) wb.sheets
    → (graph : RefGraph) × (build_reference_graph lib wb ≡ ok graph)
      × IsBacked graph.edges graph.aggregate_ranges
unfolding build_reference_graph
build_reference_graph-IsBacked lib wb w =
    let (found, e, h) =
      add_sheets-Returns lib wb wb.sheets (record { found_edges = []; found_aggregates = [] }) w
        tt in
    rw (build_reference_graph, e) (graph_of lib wb found, refl, h)

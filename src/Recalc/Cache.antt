-- ===== src/Recalc/Cache.antt =====
-- The values that are written into the cells of a workbook: src/xllib/recalc/cache.py of excel-library. An
-- element of a sheet's XML is its tag's meaning with its text, and a cell has the attributes that the code
-- reads.
pub mod Written
use luis_puentes.Prelude.{
  ℕ, suc, ◌+◌, String, Bool, true, false, Option, none, some, List, [], ◌∷◌, ◌++◌, ◌==◌, not,
  if◌then◌else◌, concat, contains, keep, map, any, sort_by, eqb, look_up, value_or, is_before,
  text_or_empty,
}

abbrev pub excel_errors : List String
excel_errors =
    "#CALC!" ∷ "#DIV/0!" ∷ "#GETTING_DATA" ∷ "#N/A" ∷ "#NAME?" ∷ "#NULL!" ∷ "#NUM!" ∷ "#REF!"
    ∷ "#SPILL!" ∷ "#VALUE!" ∷ []

-- A computed value: a number is the text of its int or float, and a date, a time or a duration that of its
-- serial number.
pub data Computed : Type 0 where
  blank : Computed
  boolean : Bool → Computed
  integer : String → Computed
  finite : String → Computed
  infinite : Computed
  serial : String → Computed
  text : String → Computed
  other : Computed

-- The type and the text of a cell's value.
abbrev pub Encoded : Type 0
Encoded = Option String × String

unfoldable pub encode : Computed → Option Encoded
encode blank = some (some "str", "")
encode (boolean b) = some (some "b", if b then "1" else "0")
encode (integer s) = some (none, s)
encode (finite s) = some (none, s)
encode infinite = some (some "e", "#NUM!")
encode (serial s) = some (none, s)
encode (text s) = some (if contains excel_errors s then (some "e", s) else (some "str", s))
encode other = none

pub data Child : Type 0 where
  formula : String → Child
  value : String → Child
  inline_text : String → Child
  another : String → Child

pub record Element : Type 0 where
  pub ref : Option String
  pub type : Option String
  pub children : List Child

abbrev pub is_formula_child : Child → Bool
is_formula_child (formula s) = true
is_formula_child _ = false

abbrev pub is_stale_child : Child → Bool
is_stale_child (value s) = true
is_stale_child (inline_text s) = true
is_stale_child _ = false

-- The value goes behind the first formula.
abbrev pub insert_value : String → List Child → List Child
insert_value s [] = []
insert_value s (formula f ∷ cs) = formula f ∷ value s ∷ cs
insert_value s (value v ∷ cs) = value v ∷ insert_value s cs
insert_value s (inline_text t ∷ cs) = inline_text t ∷ insert_value s cs
insert_value s (another t ∷ cs) = another t ∷ insert_value s cs

unfoldable pub set_cached_value : Encoded → Element → Element
set_cached_value (cell_type, s) cell = record cell {
  type = cell_type;
  children = insert_value s (keep (λ c. not (is_stale_child c)) cell.children);
}

abbrev pub has_formula : Element → Bool
has_formula cell = any is_formula_child cell.children

-- What the loop over the cells has: the cells, the numbers of values written and of formulas seen, and the
-- references of those left unwritten.
pub record Patch : Type 0 where
  pub cells : List Element
  pub written : ℕ
  pub seen : ℕ
  pub missing : List String

module _ (upper : String → String) (computed : List (String × Computed)) where
  abbrev pub ref_of : Element → String
  ref_of cell = upper (text_or_empty cell.ref)

  abbrev pub encoded_at : Option Computed → Option Encoded
  unfolding encode
  encoded_at none = none
  encoded_at (some c) = encode c

  abbrev pub encoded_for : Element → Option Encoded
  unfolding encode
  encoded_for cell = encoded_at (look_up computed (ref_of cell))

  abbrev pub write_cell : Element → Option Encoded → Patch → Patch
  unfolding set_cached_value
  write_cell cell none p = record p {
    cells = cell ∷ p.cells;
    seen = suc p.seen;
    missing = ref_of cell ∷ p.missing;
  }
  write_cell cell (some e) p = record p {
    cells = set_cached_value e cell ∷ p.cells;
    written = suc p.written;
    seen = suc p.seen;
  }

  abbrev pub patch_cell : Element → Bool → Patch → Patch
  unfolding encode set_cached_value
  patch_cell cell false p = record p { cells = cell ∷ p.cells }
  patch_cell cell true p = write_cell cell (encoded_for cell) p

  unfoldable pub patch_sheet : List Element → Patch
  unfolding encode set_cached_value
  patch_sheet [] = record { cells = []; written = 0; seen = 0; missing = [] }
  patch_sheet (cell ∷ cells) = patch_cell cell (has_formula cell) (patch_sheet cells)

-- A sheet is named in upper case, as the computed values are.
pub record CacheReport : Type 0 where
  pub formula_cells : ℕ
  pub written : ℕ
  pub unmatched_sheets : List String
  pub unwritten : List String

module _ (upper : String → String) (wanted : List (String × List (String × Computed))) where
  abbrev pub patch_of : String × List Element → Patch
  unfolding patch_sheet
  patch_of (sheet, cells) = patch_sheet upper (value_or [] (look_up wanted sheet)) cells

  abbrev pub named_ref : String → String → String
  named_ref sheet ref = concat (sheet ∷ "!" ∷ ref ∷ [])

  abbrev pub add_patch : String → Patch → CacheReport → CacheReport
  add_patch sheet p report = record report {
    formula_cells = p.seen + report.formula_cells;
    written = p.written + report.written;
    unwritten = map (named_ref sheet) p.missing ++ report.unwritten;
  }

  abbrev pub unmatched : List (String × List Element) → List String
  unmatched parts =
      sort_by (λ s t. not (is_before t s))
        (keep (λ s. not (any (λ (part : String × List Element). part.0 == s) parts))
          (map (λ (w : String × List (String × Computed)). w.0) wanted))

  unfoldable pub add_parts : List String → List (String × List Element) → CacheReport
  unfolding patch_sheet
  add_parts unknown [] = record {
    formula_cells = 0;
    written = 0;
    unmatched_sheets = unknown;
    unwritten = [];
  }
  add_parts unknown (part ∷ parts) = add_patch part.0 (patch_of part) (add_parts unknown parts)

module _ {A : Type 0} where
  -- `entries[key] = value`
  abbrev pub set_entry : String → A → List (String × A) → List (String × A)
  set_entry key item [] = (key, item) ∷ []
  set_entry key item ((k, old) ∷ entries) =
      let rest = set_entry key item entries in
      if k == key then (k, item) ∷ entries else (k, old) ∷ rest

  -- A dictionary with its keys in upper case, built in the order of the entries: of two keys that become
  -- the same the later one's value stays.
  abbrev pub upper_keys :
      (String → String) → List (String × A) → List (String × A) → List (String × A)
  upper_keys upper [] built = built
  upper_keys upper ((key, item) ∷ entries) built =
      upper_keys upper entries (set_entry (upper key) item built)

abbrev pub Sheets : Type 0
Sheets = List (String × List (String × Computed))

-- The values by the upper-cased names of their sheets and upper-cased references.
abbrev pub wanted_of : (String → String) → Sheets → Sheets
wanted_of upper values =
    upper_keys upper
      (map (λ (s : String × List (String × Computed)). (s.0, upper_keys upper s.1 [])) values) []

-- The report, and the cells of each part that is rewritten: one in which a value was written.
unfoldable pub write_cached_values :
    (String → String)
    → Sheets
    → List (String × List Element)
    → CacheReport × List (String × List Element)
unfolding patch_sheet add_parts
write_cached_values upper values parts =
    let wanted = wanted_of upper values in
    (
      add_parts upper wanted (unmatched upper wanted parts) parts,
      map
          (λ (part : String × List Element).
            let p = patch_of upper wanted part in
            if eqb p.written 0 then part else (part.0, p.cells))
          parts,
    )

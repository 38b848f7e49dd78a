-- ===== src/Lint/Rules/Places.antt =====
-- Where a finding is, and its making: _locus, _finding and _violation of src/xllib/lint/rules/__init__.py of
-- excel-library.
use luis_puentes.Prelude.{
  ℕ, String, Option, none, some, List, [], ◌∷◌, ◌++◌, ◌==◌, if◌then◌else◌, first, text_or_empty,
}
use luis_puentes.Workbook.{Library, Cell, Sheet, Workbook, cell_at, find_sheet}
use luis_puentes.Lint.{Severity, Status, Confidence, Locus, Finding}

abbrev pub place_if : String → Option Cell → ℕ × ℕ
place_if ref none = (0, 0)
place_if ref (some c) = if c.coordinate == ref then (c.row, c.column) else (0, 0)

-- The row and column of the cell that a reference names.
unfoldable pub place_of : Sheet → String → ℕ × ℕ
place_of sheet ref =
    if ref == "" then (0, 0) else elim (first (λ c. c.coordinate == ref) sheet.cells) [
      | some c ↦ place_if ref (some c)
      | none ↦ place_if ref (cell_at sheet 1 1)
    ]

unfoldable pub locus_of : Library → Workbook → String → Option String → Locus
locus_of lib wb sheet_name ref = elim (find_sheet lib wb sheet_name) [
  | none ↦ record {
    sheet = some sheet_name;
    ref = ref;
    sheet_index = none;
    row = 0;
    column = 0;
    sheet_state = none;
  }
  | some sheet ↦ record {
    sheet = some sheet_name;
    ref = ref;
    sheet_index = some sheet.index;
    row = (place_of sheet (text_or_empty ref)).0;
    column = (place_of sheet (text_or_empty ref)).1;
    sheet_state = some sheet.state;
  }
]

abbrev pub nowhere : Locus
nowhere = record {
  sheet = none;
  ref = none;
  sheet_index = none;
  row = 0;
  column = 0;
  sheet_state = none;
}

abbrev pub finding :
    String → Status → Confidence → String → Locus → String → List (String × String) → Finding
finding rule_id status confidence message locus remediation evidence = record {
  rule_id = rule_id;
  status = status;
  severity = Severity.error;
  confidence = confidence;
  message = message;
  locus = locus;
  evidence = evidence;
  remediation = remediation;
  waiver = none;
}

abbrev pub violation :
    String → Confidence → String → Locus → String → List (String × String) → Finding
violation rule_id = finding rule_id Status.violation

-- A list that is made of those of the elements.
abbrev pub gather {ℓ κ} : {A : Type ℓ} {B : Type κ} → (A → List B) → List A → List B
gather f [] = []
gather f (x ∷ xs) = f x ++ gather f xs

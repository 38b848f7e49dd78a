-- ===== src/Lint.antt =====
-- The rules that a workbook is checked by, and the waivers: src/xllib/lint/rule.py and
-- src/xllib/inspect/capability.py of excel-library. Of a rule's options the model has the keys that the code
-- reads, each with the text of its value (severity), the texts of its floats (allowed_literals) or the
-- functions with their positions (positional_exemptions). A value of the last two is unreadable if it has
-- something that is no float, or is no mapping.
pub mod Config
pub mod Rules
pub mod Report
pub mod Run
use luis_puentes.Prelude.{
  ℕ, String, Bool, true, false, Option, none, some, List, [], ◌∷◌, ◌==◌, ◌&&◌, ◌||◌, not,
  if◌then◌else◌, concat, any, map, eqb, ltb, every,
}
use luis_puentes.Result.{Result}
use luis_puentes.Workbook.{Cell, Sheet, Workbook, is_formula, is_empty_value}

pub data Severity : Type 0 where
  error warn : Severity

abbrev pub is_error_severity : Severity → Bool
is_error_severity Severity.error = true
is_error_severity Severity.warn = false

pub data Status : Type 0 where
  violation skipped info : Status

pub data Confidence : Type 0 where
  certain heuristic : Confidence

pub data Capability : Type 0 where
  cached_values formula_tokens number_formats ref_graph : Capability

abbrev pub same_capability : Capability → Capability → Bool
same_capability Capability.cached_values Capability.cached_values = true
same_capability Capability.formula_tokens Capability.formula_tokens = true
same_capability Capability.number_formats Capability.number_formats = true
same_capability Capability.ref_graph Capability.ref_graph = true
same_capability _ _ = false

abbrev pub has_cache : Cell → Bool
has_cache cell = not (is_formula cell) || not (is_empty_value cell.cached_value)

-- What can be evaluated on a workbook: the values only if every formula has its own.
unfoldable pub capabilities : Workbook → List Capability
capabilities wb =
    let available =
      Capability.formula_tokens ∷ Capability.number_formats ∷ Capability.ref_graph ∷ [] in
    if every (λ s. every has_cache s.cells) wb.sheets
    then Capability.cached_values ∷ available
    else available

-- A sheet's index of none is that of the workbook as a whole, -1 in the code, before every sheet.
pub record Locus : Type 0 where
  pub sheet : Option String
  pub ref : Option String
  pub sheet_index : Option ℕ
  pub row : ℕ
  pub column : ℕ
  pub sheet_state : Option String

abbrev pub ref_suffix : Option String → String
ref_suffix none = ""
ref_suffix (some r) = if r == "" then "" else concat ("!" ∷ r ∷ [])

abbrev pub state_suffix : Option String → String
state_suffix none = ""
state_suffix (some s) = if s == "visible" then "" else concat (" [" ∷ s ∷ "]" ∷ [])

unfoldable pub display : Locus → String
display l = elim l.sheet [
  | none ↦ "Workbook"
  | some s ↦ concat (s ∷ ref_suffix l.ref ∷ state_suffix l.sheet_state ∷ [])
]

pub record Waiver : Type 0 where
  pub rule : String
  pub scope : String
  pub reason : String
  pub approver : String
  pub expires : String

pub record Finding : Type 0 where
  pub rule_id : String
  pub status : Status
  pub severity : Severity
  pub confidence : Confidence
  pub message : String
  pub locus : Locus
  pub evidence : List (String × String)
  pub remediation : String
  pub waiver : Option Waiver

-- The texts of the floats of 0, 1, -1, 12 and 100.
abbrev pub default_allowed_literals : List String
default_allowed_literals = "0.0" ∷ "1.0" ∷ "-1.0" ∷ "12.0" ∷ "100.0" ∷ []

abbrev pub Exemptions : Type 0
Exemptions = List (String × List ℕ)

abbrev pub default_positional_exemptions : Exemptions
default_positional_exemptions =
    ("ROUND", 2 ∷ [])
    ∷ ("VLOOKUP", 3 ∷ 4 ∷ [])
    ∷ ("HLOOKUP", 3 ∷ 4 ∷ [])
    ∷ ("INDEX", 2 ∷ 3 ∷ [])
    ∷ ("OFFSET", 2 ∷ 3 ∷ 4 ∷ 5 ∷ [])
    ∷ []

-- A value of a configuration that can be read, or cannot.
pub data Setting (A : Type 0) : Type 0 where
  readable : A → Setting A
  unreadable : Setting A

pub record Options : Type 0 where
  pub severity : Option String
  pub allowed_literals : Option (Setting (List String))
  pub positional_exemptions : Option (Setting Exemptions)

abbrev pub no_options : Options
no_options = record { severity = none; allowed_literals = none; positional_exemptions = none }

-- A whole number, `negsuc n` is below zero by n and one more.
pub data ℤ : Type 0 where
  pos : ℕ → ℤ
  negsuc : ℕ → ℤ

-- `value > limit`
abbrev pub is_above : ℤ → ℕ → Bool
is_above (pos n) limit = ltb limit n
is_above (negsuc n) limit = false

-- `count > limit`
abbrev pub exceeds : ℕ → ℤ → Bool
exceeds n (pos limit) = ltb limit n
exceeds n (negsuc limit) = true

abbrev pub Thresholds : Type 0
Thresholds = List (String × ℤ)

pub record RuleContext : Type 0 where
  pub thresholds : Thresholds
  pub options : Options

abbrev pub Check : Type 0
Check = Workbook → RuleContext → Result (List Finding)

-- The slug, the title and the doc of a rule, which no code reads, are left out.
pub record Rule : Type 0 where
  pub id : String
  pub default_severity : Severity
  pub confidence : Confidence
  pub requires : List Capability
  pub thresholds : Thresholds
  pub check : Check

-- ===== src/Lint/Report.antt =====
-- The report of a run of the rules: src/xllib/lint/report.py of excel-library.
use luis_puentes.Prelude.{
  ℕ, zero, suc, ◌+◌, ◌-◌, String, Bool, true, false, List, [], ◌∷◌, ◌++◌, ◌==◌, ◌&&◌, if◌then◌else◌,
  concat, joined, any, count, keep, length, map, eqb,
}
use luis_puentes.Workbook.{Library}
use luis_puentes.Lint.{
  Severity, Status, Confidence, Capability, Finding, Thresholds, display, is_error_severity,
}

-- What the dictionaries target and config of the code hold stands beside the findings.
pub record Report : Type 0 where
  pub path : String
  pub capabilities : List Capability
  pub missing_capabilities : List Capability
  pub sources : List String
  pub thresholds : Thresholds
  pub disabled : List String
  pub rule_ids : List String
  pub findings : List Finding

abbrev pub is_violation : Status → Bool
is_violation Status.violation = true
is_violation _ = false

abbrev pub is_skipped : Status → Bool
is_skipped Status.skipped = true
is_skipped _ = false

abbrev pub is_warn : Severity → Bool
is_warn Severity.error = false
is_warn Severity.warn = true

abbrev pub is_error_finding : Finding → Bool
is_error_finding f = is_violation f.status && is_error_severity f.severity

abbrev pub is_skipped_finding : Finding → Bool
is_skipped_finding f = is_skipped f.status

unfoldable pub errors : Report → ℕ
errors report = count is_error_finding report.findings

unfoldable pub warnings : Report → ℕ
warnings report = count (λ f. is_violation f.status && is_warn f.severity) report.findings

unfoldable pub skipped : Report → ℕ
skipped report = count is_skipped_finding report.findings

unfoldable pub exit_code : Report → ℕ
unfolding errors skipped
exit_code report = if eqb (errors report) 0 then (if eqb (skipped report) 0 then 0 else 2) else 1

-- A disabled rule stays in the list.
pub data RuleStatus : Type 0 where
  evaluated : Status → RuleStatus
  disabled_rule : RuleStatus

pub record RuleEntry : Type 0 where
  pub id : String
  pub status : RuleStatus
  pub findings : ℕ

abbrev pub status_of : List Finding → Status
status_of matches =
    if any is_skipped_finding matches
    then Status.skipped
    else if any (λ f. is_violation f.status) matches
    then Status.violation
    else Status.info

abbrev pub entry_of : List Finding → String → RuleEntry
entry_of findings rule_id =
    let matches = keep (λ f. f.rule_id == rule_id) findings in
    record { id = rule_id; status = evaluated (status_of matches); findings = length matches }

abbrev pub disabled_entry : String → RuleEntry
disabled_entry rule_id = record { id = rule_id; status = disabled_rule; findings = 0 }

unfoldable pub rule_entries : Report → List RuleEntry
rule_entries report =
    map (entry_of report.findings) report.rule_ids ++ map disabled_entry report.disabled

pub record ReportSummary : Type 0 where
  pub error : ℕ
  pub warn : ℕ
  pub skipped : ℕ
  pub rules_total : ℕ
  pub rules_evaluated : ℕ
  pub rules_disabled : ℕ
  pub exit_code : ℕ

-- A report of `lint` has one skipped finding of a rule at most, so that the difference is not below 0.
unfoldable pub summary : Report → ReportSummary
summary report = record {
  error = errors report;
  warn = warnings report;
  skipped = skipped report;
  rules_total = length report.rule_ids + length report.disabled;
  rules_evaluated = length report.rule_ids - skipped report;
  rules_disabled = length report.disabled;
  exit_code = exit_code report;
}

-- `f"{text:<24}"`
abbrev pub padded : ℕ → String → String
padded zero s = s
padded (suc n) String.[] = concat (" " ∷ padded n "" ∷ [])
padded (suc n) (String.◌∷◌ c s) = String.◌∷◌ c (padded n s)

abbrev pub marker : Confidence → String
marker Confidence.certain = ""
marker Confidence.heuristic = " ~"

abbrev pub line_of : Finding → String
line_of f =
    concat
      (padded 24 (display f.locus) ∷ marker f.confidence ∷ " " ∷ f.rule_id ∷ "  " ∷ f.message ∷ [])

abbrev pub line_if : Bool → String → List String
line_if b line = if b then line ∷ [] else []

abbrev pub positive : ℕ → Bool
positive zero = false
positive (suc n) = true

-- The lines of the text.
unfoldable pub to_text : Library → Report → List String
to_text lib report =
    let s = summary report in
    map line_of report.findings
    ++ ""
      ∷ concat (
          lib.show_number s.rules_evaluated
          ∷ " of "
          ∷ lib.show_number s.rules_total
          ∷ " rules evaluated   "
          ∷ lib.show_number s.error
          ∷ " error   "
          ∷ lib.show_number s.warn
          ∷ " warn"
          ∷ [])
      ∷ line_if (positive s.skipped) (concat (lib.show_number s.skipped ∷ " rules skipped" ∷ []))
    ++ line_if (positive s.rules_disabled) (
        concat (
          lib.show_number s.rules_disabled
          ∷ " disabled by config: "
          ∷ joined ", " report.disabled
          ∷ []))
    ++ concat ("config: " ∷ joined ", " report.sources ∷ [])
      ∷ concat ("exit " ∷ lib.show_number s.exit_code ∷ [])
      ∷ []

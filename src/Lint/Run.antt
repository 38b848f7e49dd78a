-- ===== src/Lint/Run.antt =====
-- The run of the rules: src/xllib/lint/api.py of excel-library, on a workbook that excel-library has loaded: one
-- without capabilities or a digest of its own.
pub mod Clean
use luis_puentes.Prelude.{
  ℕ, String, Bool, true, false, Option, none, some, List, [], ◌∷◌, ◌++◌, ◌==◌, ◌&&◌, ◌||◌, not,
  if◌then◌else◌, concat, joined, any, keep, map, sort_by, eqb, leb, ltb, is_before,
}
use luis_puentes.Result.{Result, ok, raise}
use luis_puentes.Workbook.{Library, Workbook}
use luis_puentes.Lint.{
  Severity, Status, Capability, same_capability, capabilities, Locus, display, Waiver, Finding,
  RuleContext, Rule,
}
use luis_puentes.Lint.Rules.Places.{nowhere, gather}
use luis_puentes.Lint.Rules.Formulas.{then_more}
use luis_puentes.Lint.Config.{Config, options_for, is_off, severity_for, waiver_for}
use luis_puentes.Lint.Report.{Report}

-- The workbook as a whole has the index -1.
abbrev pub index_rank : Option ℕ → ℕ
index_rank none = 0
index_rank (some n) = ℕ.suc n

abbrev pub key_le : List ℕ → List ℕ → Bool
key_le [] ns = true
key_le (m ∷ ms) [] = false
key_le (m ∷ ms) (n ∷ ns) = ltb m n || (eqb m n && key_le ms ns)

abbrev pub place_key : Locus → List ℕ
place_key l = index_rank l.sheet_index ∷ l.row ∷ l.column ∷ []

abbrev pub finding_le : Finding → Finding → Bool
finding_le f g =
    is_before f.rule_id g.rule_id
    || (f.rule_id == g.rule_id && key_le (place_key f.locus) (place_key g.locus))

-- In the order of their names.
abbrev pub all_capabilities : List Capability
all_capabilities =
    Capability.cached_values ∷ Capability.formula_tokens ∷ Capability.number_formats
    ∷ Capability.ref_graph ∷ []

abbrev pub has_capability : List Capability → Capability → Bool
has_capability cs c = any (same_capability c) cs

abbrev pub capability_text : Capability → String
capability_text Capability.cached_values = "CACHED_VALUES"
capability_text Capability.formula_tokens = "FORMULA_TOKENS"
capability_text Capability.number_formats = "NUMBER_FORMATS"
capability_text Capability.ref_graph = "REF_GRAPH"

-- `sorted(rule.requires - capabilities)`
unfoldable pub missing_for : List Capability → Rule → List Capability
missing_for available rule =
    keep (λ c. has_capability rule.requires c && not (has_capability available c)) all_capabilities

abbrev pub skipped_finding : Rule → Severity → List Capability → Finding
skipped_finding rule severity missing = record {
  rule_id = rule.id;
  status = Status.skipped;
  severity = severity;
  confidence = rule.confidence;
  message =
      concat ("could not evaluate: missing " ∷ joined ", " (map capability_text missing) ∷ []);
  locus = nowhere;
  evidence = [];
  remediation = "recalculate the workbook or provide the missing workbook data";
  waiver = none;
}

abbrev pub with_waiver : Option Waiver → Finding → Finding
with_waiver none f = f
with_waiver (some w) f = record f { status = Status.info; waiver = some w }

module _ (lib : Library) (today : ℕ) (config : Config) (wb : Workbook) where
  abbrev pub treat : Rule → Severity → Finding → Finding
  treat rule severity raw =
      with_waiver (waiver_for lib today config rule.id (display raw.locus))
        (record raw { severity = severity })

  abbrev pub context_for : Rule → RuleContext
  context_for rule = record {
    thresholds = rule.thresholds ++ config.thresholds;
    options = options_for config rule.id;
  }

  abbrev pub treated : Rule → Severity → Result (List Finding) → Result (List Finding)
  treated rule severity (raise e) = raise e
  treated rule severity (ok raws) = ok (map (treat rule severity) raws)

  abbrev pub evaluate_rule : Rule → Severity → List Capability → Result (List Finding)
  evaluate_rule rule severity [] = treated rule severity (rule.check wb (context_for rule))
  evaluate_rule rule severity (c ∷ missing) = ok (skipped_finding rule severity (c ∷ missing) ∷ [])

  abbrev pub with_severity : Rule → Result Severity → Result (List Finding)
  with_severity rule (raise e) = raise e
  with_severity rule (ok severity) =
      evaluate_rule rule severity (missing_for (capabilities wb) rule)

  unfoldable pub run_rule : Rule → Result (List Finding)
  run_rule rule = with_severity rule (severity_for lib config rule.id rule.default_severity)

  unfoldable pub run_rules : List Rule → Result (List Finding)
  run_rules [] = ok []
  run_rules (rule ∷ rules) = then_more lib wb (run_rule rule) (run_rules rules)

  abbrev pub is_active : Rule → Bool
  is_active rule = not (is_off lib config rule.id)

  abbrev pub report_of : List Rule → List Finding → Report
  report_of rules findings =
      let active = keep is_active rules in
      record {
        path = wb.path;
        capabilities = keep (has_capability (capabilities wb)) all_capabilities;
        missing_capabilities =
            sort_by (λ a b. not (is_before (capability_text b) (capability_text a)))
              (gather
                (λ (r : Rule). keep (λ c. not (has_capability (capabilities wb) c)) r.requires)
                active);
        sources = config.sources;
        thresholds = config.thresholds;
        disabled = map (λ (r : Rule). r.id) (keep (λ (r : Rule). is_off lib config r.id) rules);
        rule_ids = map (λ (r : Rule). r.id) active;
        findings = sort_by finding_le findings;
      }

  abbrev pub reported : List Rule → Result (List Finding) → Result Report
  reported rules (raise e) = raise e
  reported rules (ok findings) = ok (report_of rules findings)

  unfoldable pub lint : List Rule → Result Report
  lint rules = reported rules (run_rules (keep is_active rules))

-- ===== src/Samples/Rules.antt =====
-- The rules, the gates of a configuration and the recalculation on small inputs.
use luis_puentes.Prelude.{
  ◌≢◌, inl, sym, ap, ◌+◌, ◌≡◌, refl, true, false, none, some, List, [], ◌∷◌, concat, length, All,
}
use luis_puentes.Result.{keyboard_interrupt, ok, raise}
use luis_puentes.Prelude.Sweep.{In}
use luis_puentes.Workbook.{
  Reference, DefinedName, Workbook, number, boolean, effective_value, is_error, cell_at, find_sheet,
}
use luis_puentes.Workbook.Tokens.{NumericLiteral}
use luis_puentes.Lint.{
  Finding, RuleContext, capabilities, display, Waiver, no_options, readable, pos, Rule, Severity,
  Confidence, Capability, default_allowed_literals, default_positional_exemptions,
}
use luis_puentes.Lint.Rules.{rule}
use luis_puentes.Lint.Rules.Formulas.{is_accepted}
use luis_puentes.Lint.Rules.Texts.{xl004, numeric_format}
use luis_puentes.Lint.Rules.Places.{place_of, locus_of}
use luis_puentes.Lint.Rules.Structure.Checks.{check_finding, xl103-reports}
use luis_puentes.Lint.Rules.Structure.{is_passing, xl102, xl103, check_names}
use luis_puentes.Lint.Config.{
  Config, construct, waiver_defect, is_silenced, check_budgets, is_raised, check_rules,
  widens_literals, is_off, severity_for, waiver_for,
}
use luis_puentes.Lint.Config.Gates.{is_ok, respects_waivers, construct-ok}
use luis_puentes.Lint.Config.Narrow.{construct-narrow}
use luis_puentes.Lint.Report.{Report, exit_code, errors, skipped}
use luis_puentes.Lint.Run.{lint, run_rules, run_rule, report_of, missing_for}
use luis_puentes.Lint.Run.Clean.{IsAnswered, lint-IsAnswered}
use luis_puentes.Recalc.{Backend, Python, Disk, Target, run_chain, recalculate}
use luis_puentes.Recalc.Chain.{
  recorded, consulted, first_working, copied, result_of, run_chain-first,
}
use luis_puentes.Recalc.Closed.{after_close, recalculate-closed}
use luis_puentes.Recalc.Cache.{Computed, Element, Sheets, formula, value, write_cached_values}
use luis_puentes.Recalc.Cache.Written.{count_formulas, write_cached_values-counts}
use luis_puentes.Samples.Workbooks.{a1_cell, sample_sheet, sample_library, sample_workbook}

abbrev sample_waiver : Waiver
sample_waiver = record {
  rule = "XL102";
  scope = "*";
  reason = "draft";
  approver = "finance";
  expires = "2026-12-31";
}

abbrev place_waiver : Waiver
place_waiver = record {
  rule = "XL004";
  scope = "Calc!B1";
  reason = "no data";
  approver = "finance";
  expires = "2026-12-31";
}

-- XL102 is off by a waiver, the text in B1 is waived, and XL002 accepts less than by default.
abbrev sample_config : Config
sample_config = record {
  thresholds = ("sections_per_sheet", pos 4) ∷ [];
  rules =
      ("XL102", record no_options { severity = some "off" })
      ∷ ("XL002", record no_options { allowed_literals = some (readable ("0.0" ∷ "1.0" ∷ [])) })
      ∷ [];
  waivers = sample_waiver ∷ place_waiver ∷ [];
  sources = "builtin" ∷ [];
}

construct-ok_example :
    is_ok (construct sample_library 10 sample_config)
    ≡ respects_waivers sample_library 10 sample_config
construct-ok_example = construct-ok sample_library 10 sample_config

-- The same configuration on a day after the waiver has expired is refused.
late_construct : is_ok (construct sample_library 30 sample_config) ≡ false
unfolding construct is_silenced
late_construct = refl

sample_construct : is_ok (construct sample_library 10 sample_config) ≡ true
unfolding construct is_silenced check_budgets is_raised check_rules widens_literals
sample_construct = refl

abbrev unit_literal : NumericLiteral
unit_literal = record {
  text = "1";
  value = "1.0";
  function = none;
  function_depth = 0;
  argument_index = none;
}

unit_literal-accepted :
    is_accepted ("0.0" ∷ "1.0" ∷ []) default_positional_exemptions unit_literal ≡ true
unfolding is_accepted
unit_literal-accepted = refl

construct-narrow_example :
    is_accepted default_allowed_literals default_positional_exemptions unit_literal ≡ true
construct-narrow_example =
    construct-narrow sample_library 10 sample_config ("0.0" ∷ "1.0" ∷ [])
      default_positional_exemptions unit_literal sample_construct refl refl refl
      unit_literal-accepted

abbrev sample_rules : List Rule
sample_rules =
    rule "XL004" Severity.error Confidence.certain (Capability.cached_values ∷ [])
      (xl004 sample_library)
    ∷ rule "XL102" Severity.warn Confidence.certain [] (xl102 sample_library)
    ∷ rule "XL103" Severity.warn Confidence.certain (Capability.cached_values ∷ [])
        (xl103 sample_library)
    ∷ []

abbrev sample_report : Report
sample_report = elim (lint sample_library 10 sample_config sample_workbook sample_rules) [
  | ok report ↦ report
  | raise e ↦ report_of sample_library 10 sample_config sample_workbook sample_rules []
]

sample_report-lint :
    lint sample_library 10 sample_config sample_workbook sample_rules ≡ ok sample_report
unfolding lint run_rules is_off run_rule severity_for missing_for capabilities xl004 xl103
sample_report-lint = refl

sample_report-clean : exit_code sample_report ≡ 0
unfolding exit_code errors skipped lint run_rules is_off run_rule severity_for missing_for
    capabilities xl004 xl103 numeric_format check_names concat place_of cell_at locus_of display
    waiver_for find_sheet waiver_defect is_error effective_value
sample_report-clean = refl

lint-IsAnswered_example :
    All (IsAnswered sample_library 10 sample_config sample_workbook) sample_rules
lint-IsAnswered_example =
    lint-IsAnswered sample_library 10 sample_config sample_workbook sample_rules sample_report
      sample_report-lint sample_report-clean

abbrev sample_python : Python
sample_python = record {
  show_number = λ n. "0";
  strip = λ s. s;
  name_of = λ s. "model.xlsx";
  resolve = λ s. s;
}

-- One that is not installed, one that spoils its copy and raises, and one that works.
abbrev sample_chain : List Backend
sample_chain =
    record {
      name = "excel";
      available = record { available = false; reason = "no Excel" };
      recalculate = λ bytes. (bytes, none);
    }
    ∷ record {
      name = "formulas";
      available = record { available = true; reason = "" };
      recalculate =
          λ bytes. ("spoiled", some (record { message = "cycle"; type_name = "BackendError" }));
    }
    ∷ record {
      name = "libreoffice";
      available = record { available = true; reason = "" };
      recalculate = λ bytes. ("calculated", none);
    }
    ∷ []

abbrev sample_disk : Disk
sample_disk = record { workspaces = ("/tmp/other", []) ∷ []; target = λ s. Target.file "bytes" }

run_chain-first_example :
    (recorded
        (run_chain sample_python "/work/model.xlsx" "bytes" "/tmp/xllib" 0 sample_chain).attempts
      ≡ consulted (first_working "bytes" sample_chain))
    × (copied (run_chain sample_python "/work/model.xlsx" "bytes" "/tmp/xllib" 0 sample_chain).copy
        ≡ result_of "bytes" (first_working "bytes" sample_chain).1)
run_chain-first_example =
    run_chain-first sample_python "/work/model.xlsx" "bytes" "/tmp/xllib" sample_chain 0

recalculate-closed_example :
    after_close (
      recalculate sample_python sample_chain
        (some (keyboard_interrupt, ("/tmp/xllib/0", "half") ∷ []))
        "/tmp/xllib"
        "/work/model.xlsx"
        sample_disk)
    ≡ sample_disk
recalculate-closed_example =
    recalculate-closed sample_python sample_chain
      (some (keyboard_interrupt, ("/tmp/xllib/0", "half") ∷ [])) "/tmp/xllib" "/work/model.xlsx"
      sample_disk refl

abbrev sample_elements : List Element
sample_elements =
    record {
      ref = some "C1";
      type = some "str";
      children = formula "SUM(A1:B1)" ∷ value "old" ∷ [];
    }
    ∷ record { ref = some "D1"; type = none; children = formula "SUM(MAX(7))" ∷ [] }
    ∷ record { ref = some "A1"; type = none; children = value "3" ∷ [] }
    ∷ []

abbrev sample_values : Sheets
sample_values = ("CALC", ("C1", Computed.finite "3.0") ∷ []) ∷ []

write_cached_values-counts_example :
    ((write_cached_values (λ s. s) sample_values (("CALC", sample_elements) ∷ [])).0.written
        + length
            (write_cached_values
              (λ s. s)
              sample_values
              (("CALC", sample_elements) ∷ [])).0.unwritten
      ≡ (write_cached_values
          (λ s. s)
          sample_values
          (("CALC", sample_elements) ∷ [])).0.formula_cells)
    × ((write_cached_values (λ s. s) sample_values (("CALC", sample_elements) ∷ [])).0.formula_cells
        ≡ count_formulas (("CALC", sample_elements) ∷ []))
write_cached_values-counts_example =
    write_cached_values-counts (λ s. s) sample_values (("CALC", sample_elements) ∷ [])

abbrev check_reference : Reference
check_reference = record {
  sheet = some "Calc";
  bounds = record { min_column = some 1; min_row = some 1; max_column = some 1; max_row = some 1 };
  text = "Calc!A1";
  external = false;
}

abbrev check_name : DefinedName
check_name = record {
  name = "chk_total";
  local_sheet_id = none;
  hidden = false;
  expression = "Calc!A1";
  references = check_reference ∷ [];
}

abbrev checked_workbook : Workbook
checked_workbook = record sample_workbook { defined_names = check_name ∷ [] }

abbrev empty_context : RuleContext
empty_context = record { thresholds = []; options = no_options }

check_sheet : find_sheet sample_library checked_workbook "Calc" ≡ some sample_sheet
unfolding find_sheet
check_sheet = refl

check_cell : cell_at sample_sheet 1 1 ≡ some a1_cell
unfolding cell_at
check_cell = refl

check-not_true : effective_value a1_cell ≢ boolean true
unfolding effective_value
check-not_true e = cc

check-not_zero : effective_value a1_cell ≢ number "0.0"
unfolding effective_value
check-not_zero e =
    let passes : true ≡ false = sym (ap (is_passing sample_library checked_workbook) e) in cc

xl103-reports_example :
    (findings : List Finding) × (xl103 sample_library checked_workbook empty_context ≡ ok findings)
    × In
        (check_finding sample_library checked_workbook check_name check_reference sample_sheet
          a1_cell)
        findings
xl103-reports_example =
    xl103-reports sample_library checked_workbook empty_context check_name check_reference
      sample_sheet 1 1 a1_cell (inl refl) refl (inl refl) check_sheet refl refl check_cell
      check-not_true check-not_zero

-- ===== src/Lint/Rules.antt =====
-- The registered rules: src/xllib/lint/rules/__init__.py and src/xllib/lint/registry.py of excel-library. What
-- a generator yields before it raises is lost, since the run of the rules raises too.
pub mod Formulas
pub mod Texts
pub mod Structure
pub mod Places
use luis_puentes.Prelude.{String, List, [], ◌∷◌}
use luis_puentes.Workbook.{Library}
use luis_puentes.Lint.{Severity, Confidence, Capability, Rule, Check}
use luis_puentes.Lint.Rules.Formulas.{xl001, xl002, xl003}
use luis_puentes.Lint.Rules.Texts.{xl004, xl005}
use luis_puentes.Lint.Rules.Structure.{xl006, xl101, xl102, xl103, xl104}

abbrev pub rule : String → Severity → Confidence → List Capability → Check → Rule
rule rule_id severity confidence requires check = record {
  id = rule_id;
  default_severity = severity;
  confidence = confidence;
  requires = requires;
  thresholds = [];
  check = check;
}

unfoldable pub registered_rules : Library → List Rule
registered_rules lib =
    rule "XL001" Severity.error Confidence.certain (Capability.ref_graph ∷ []) (xl001 lib)
    ∷ rule "XL002" Severity.error Confidence.certain (Capability.formula_tokens ∷ []) (xl002 lib)
    ∷ rule "XL003" Severity.error Confidence.heuristic (Capability.formula_tokens ∷ []) (xl003 lib)
    ∷ rule "XL004" Severity.error Confidence.certain
        (Capability.cached_values ∷ Capability.number_formats ∷ []) (xl004 lib)
    ∷ rule "XL005" Severity.error Confidence.certain
        (Capability.cached_values ∷ Capability.ref_graph ∷ []) (xl005 lib)
    ∷ rule "XL006" Severity.error Confidence.heuristic [] (xl006 lib)
    ∷ rule "XL101" Severity.warn Confidence.heuristic [] (xl101 lib)
    ∷ rule "XL102" Severity.warn Confidence.certain [] (xl102 lib)
    ∷ rule "XL103" Severity.warn Confidence.certain (Capability.cached_values ∷ []) (xl103 lib)
    ∷ rule "XL104" Severity.warn Confidence.heuristic (Capability.ref_graph ∷ []) (xl104 lib)
    ∷ []

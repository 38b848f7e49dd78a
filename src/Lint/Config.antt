-- ===== src/Lint/Config.antt =====
-- The configuration of the rules and its gates: src/xllib/lint/config.py of excel-library. Today is the day
-- that date.today gives, the same at each call of one construction.
pub mod Waived
pub mod Gates
pub mod Narrow
pub mod Loading
use luis_puentes.Prelude.{
  ℕ, String, Bool, true, false, Option, none, some, List, [], ◌∷◌, ◌==◌, ◌&&◌, ◌||◌, not,
  if◌then◌else◌, concat, contains, any, first, map, ltb, eqb, starts_with, joined, every, look_up,
  value_or,
}
use luis_puentes.Result.{Result, ok, raise, value_error}
use luis_puentes.Workbook.{Library}
use luis_puentes.Lint.{
  Severity, Waiver, default_allowed_literals, Exemptions, default_positional_exemptions, Setting,
  readable, unreadable, Options, no_options, ℤ, pos, is_above, Thresholds, Rule, is_error_severity,
}
use luis_puentes.Lint.Rules.{registered_rules}
use luis_puentes.Lint.Rules.Formulas.{positions_of}

abbrev pub default_thresholds : List (String × ℕ)
default_thresholds =
    ("sheets_per_workbook", 10)
    ∷ ("sections_per_sheet", 5)
    ∷ ("distinct_formula_shapes", 40)
    ∷ ("formula_depth", 4)
    ∷ ("function_calls_per_cell", 2)
    ∷ ("live_drivers", 6)
    ∷ []

pub record Config : Type 0 where
  pub thresholds : Thresholds
  pub rules : List (String × Options)
  pub waivers : List Waiver
  pub sources : List String

abbrev pub options_for : Config → String → Options
options_for config rule_id = value_or no_options (look_up config.rules rule_id)

-- `str(options.get("severity", "")).lower()`
abbrev pub requested : Library → Options → String
requested lib options = elim options.severity [ none ↦ "" | some s ↦ lib.lower s ]

unfoldable pub is_off : Library → Config → String → Bool
is_off lib config rule_id = requested lib (options_for config rule_id) == "off"

abbrev pub severity_named : String → Result Severity
severity_named s =
    if s == "ERROR"
    then ok Severity.error
    else if s == "WARN"
    then ok Severity.warn
    else raise (value_error "not a valid Severity")

unfoldable pub severity_for : Library → Config → String → Severity → Result Severity
severity_for lib config rule_id default = elim (options_for config rule_id).severity [
  | none ↦ ok default
  | some value ↦ (if lib.lower value == "off" then ok default else severity_named (lib.upper value))
]

abbrev pub Verdict : Type 0
Verdict = Result {0} Unit

abbrev pub and_then : Verdict → Verdict → Verdict
and_then (raise e) next = raise e
and_then (ok x) next = next

abbrev pub present {ℓ} : {A : Type ℓ} → (A → Bool) → Option A → Bool
present p none = false
present p (some x) = p x

abbrev pub verdict_of : Config → Verdict → Result Config
verdict_of config (ok x) = ok config
verdict_of config (raise e) = raise e

module _ (lib : Library) (today : ℕ) where
  abbrev pub date_defect : Waiver → Option ℕ → Option String
  date_defect w none = some (concat ("its expiry " ∷ w.expires ∷ " is not a date" ∷ []))
  date_defect w (some day) =
      if ltb day today then some (concat ("it expired on " ∷ w.expires ∷ [])) else none

  -- Why a waiver authorises nothing.
  unfoldable pub waiver_defect : Waiver → Option String
  waiver_defect w =
      if lib.strip w.approver == ""
      then some "it names no approver"
      else if lib.strip w.reason == ""
      then some "it gives no reason"
      else date_defect w (lib.day_of w.expires)

  abbrev pub is_good : Waiver → Bool
  unfolding waiver_defect
  is_good w = elim (waiver_defect w) [ none ↦ true | some defect ↦ false ]

  abbrev pub covers : String → String → Waiver → Bool
  covers rule_id locus w = w.rule == rule_id && (w.scope == "*" || w.scope == locus)

  unfoldable pub waiver_for : Config → String → String → Option Waiver
  unfolding waiver_defect
  waiver_for config rule_id locus = first (λ w. covers rule_id locus w && is_good w) config.waivers

  -- The rules and budgets that a waiver for everything authorises, and the defects of such waivers.
  abbrev pub Index : Type 0
  Index = List String × List (String × String)

  abbrev pub index_waiver : Waiver → Index → Option String → Index
  index_waiver w (authorised, refused) none = (w.rule ∷ authorised, refused)
  index_waiver w (authorised, refused) (some defect) = (authorised, (w.rule, defect) ∷ refused)

  -- The first defect of a key stands first.
  unfoldable pub waiver_index : List Waiver → Index
  unfolding waiver_defect
  waiver_index [] = ([], [])
  waiver_index (w ∷ ws) =
      let rest = waiver_index ws in
      if w.scope == "*" then index_waiver w rest (waiver_defect w) else rest

  abbrev pub refusal : String → String → List (String × String) → String
  refusal act key refused =
      let message =
        concat (act ∷ " requires a waiver with a named approver and scope = \"*\"" ∷ []) in
      elim (look_up refused key) [
        | none ↦ message
        | some defect ↦
            concat (message ∷ "; the waiver present does not qualify because " ∷ defect ∷ [])
      ]

  abbrev pub show_integer : ℤ → String
  show_integer (pos n) = lib.show_number n
  show_integer (ℤ.negsuc n) = concat ("-" ∷ lib.show_number (ℕ.suc n) ∷ [])

  abbrev pub is_widening_positions : String × List ℕ → Bool
  is_widening_positions (function, positions) =
      any (λ p. not (any (eqb p) (positions_of default_positional_exemptions function))) positions

  unfoldable pub widens_exemptions : Setting Exemptions → Bool
  widens_exemptions unreadable = true
  widens_exemptions (readable exemptions) = any is_widening_positions exemptions

  unfoldable pub widens_literals : Setting (List String) → Bool
  widens_literals unreadable = true
  widens_literals (readable literals) = not (every (contains default_allowed_literals) literals)

  -- The option that makes a rule accept more than it otherwise would.
  abbrev pub widening_option : Options → Option String
  widening_option options =
      if present widens_literals options.allowed_literals
      then some "allowed_literals"
      else if present widens_exemptions options.positional_exemptions
      then some "positional_exemptions"
      else none

  unfoldable pub is_raised : String → ℤ → Bool
  is_raised key value = elim (look_up default_thresholds key) [
    | none ↦ false
    | some default ↦ is_above value default
  ]

  abbrev pub default_for : String → ℕ
  default_for key = elim (look_up default_thresholds key) [ none ↦ 0 | some default ↦ default ]

  abbrev pub raising : String → ℤ → String
  raising key value = concat (
      "raising the "
      ∷ key
      ∷ " budget from "
      ∷ lib.show_number (default_for key)
      ∷ " to "
      ∷ show_integer value
      ∷ [])

  unfoldable pub check_budgets : Thresholds → List String → List (String × String) → Verdict
  check_budgets [] authorised refused = ok tt
  check_budgets ((key, value) ∷ rest) authorised refused =
      if is_raised key value && not (contains authorised key)
      then raise (value_error (refusal (raising key value) key refused))
      else check_budgets rest authorised refused

  abbrev pub check_widening : String → Options → List (String × String) → Verdict → Verdict
  check_widening rule_id options refused rest = elim (widening_option options) [
    | none ↦ rest
    | some option ↦ raise (
        value_error
          (refusal (concat ("widening " ∷ rule_id ∷ " through " ∷ option ∷ [])) rule_id refused))
  ]

  unfoldable pub check_rules :
      List (String × Options) → List String → List (String × String) → Verdict
  check_rules [] authorised refused = ok tt
  check_rules ((rule_id, options) ∷ rules) authorised refused =
      let rest = check_rules rules authorised refused in
      if contains authorised rule_id then rest else check_widening rule_id options refused rest

  unfoldable pub reject_unwaived_loosening :
      Thresholds → List (String × Options) → List String → List (String × String) → Verdict
  reject_unwaived_loosening thresholds rules authorised refused =
      and_then (check_budgets thresholds authorised refused) (check_rules rules authorised refused)

  -- The default severity of a registered rule is that of an error.
  abbrev pub is_error_rule : String → Bool
  is_error_rule rule_id =
      any (λ r. r.id == rule_id && is_error_severity r.default_severity) (registered_rules lib)

  unfoldable pub is_silenced : String → Options → Bool
  is_silenced rule_id options =
      (requested lib options == "warn" && is_error_rule rule_id) || requested lib options == "off"

  unfoldable pub reject_unwaived_silencing :
      List (String × Options) → List String → List (String × String) → Verdict
  reject_unwaived_silencing [] authorised refused = ok tt
  reject_unwaived_silencing ((rule_id, options) ∷ rules) authorised refused =
      if is_silenced rule_id options && not (contains authorised rule_id)
      then raise (value_error (refusal (concat ("silencing " ∷ rule_id ∷ [])) rule_id refused))
      else reject_unwaived_silencing rules authorised refused

  abbrev pub with_index : Config → Index → Verdict
  unfolding reject_unwaived_silencing reject_unwaived_loosening
  with_index config (authorised, refused) =
      and_then (reject_unwaived_silencing config.rules authorised refused)
        (reject_unwaived_loosening config.thresholds config.rules authorised refused)

  -- The construction of a configuration, whichever way it comes about: `__post_init__`
  unfoldable pub construct : Config → Result Config
  unfolding waiver_index waiver_defect reject_unwaived_silencing reject_unwaived_loosening
  construct config = verdict_of config (with_index config (waiver_index config.waivers))

-- ===== src/Lint/Config/Loading.antt =====
-- The reading of a configuration's file: _waivers, discover_config and load_config of
-- src/xllib/lint/config.py of excel-library. What the file says as TOML is given: its budgets, its rules, and
-- the entries of its waivers with the texts of their fields, a missing one as the empty text.
pub mod Nearest
use luis_puentes.Prelude.{
  ℕ, String, Bool, true, false, Option, none, some, List, [], ◌∷◌, ◌++◌, ◌==◌, ◌||◌, not,
  if◌then◌else◌, concat, joined, any, keep, map, sort_by, ltb, is_before,
}
use luis_puentes.Result.{Result, ok, raise, value_error}
use luis_puentes.Workbook.{Library}
use luis_puentes.Lint.{Waiver, Setting, readable, unreadable, Options, ℤ, pos, Thresholds, Rule}
use luis_puentes.Lint.Rules.{registered_rules}
use luis_puentes.Lint.Config.{Config, default_thresholds, construct}

-- A directory of the walk, and what lies in it.
pub record Directory : Type 0 where
  pub path : String
  pub has_config : Bool
  pub has_git : Bool
  pub is_home : Bool

-- The directory whose xllib.toml governs, from the nearest upward; a project's root and the home directory end the walk.
unfoldable pub discover_config : List Directory → Option String
discover_config [] = none
discover_config (d ∷ ds) =
    if d.has_config
    then some d.path
    else if d.has_git || d.is_home
    then none
    else discover_config ds

pub record RawConfig : Type 0 where
  pub budgets : Thresholds
  pub rules : List (String × Options)
  pub entries : Setting (List Waiver)

abbrev pub field_if_missing : String × String → List String
field_if_missing (name, value) = if value == "" then name ∷ [] else []

abbrev pub missing_fields : Waiver → List String
missing_fields w =
    field_if_missing ("rule", w.rule)
    ++ field_if_missing ("scope", w.scope)
    ++ field_if_missing ("reason", w.reason)
    ++ field_if_missing ("approver", w.approver)
    ++ field_if_missing ("expires", w.expires)

module _ (lib : Library) (today : ℕ) where
  abbrev pub check_expiry : Waiver → Option ℕ → Result {0} Unit
  check_expiry w none = raise (value_error (concat ("invalid waiver expiry: " ∷ w.expires ∷ [])))
  check_expiry w (some day) =
      if ltb day today
      then raise (value_error (concat ("expired waiver: " ∷ w.rule ∷ " " ∷ w.scope ∷ [])))
      else ok tt

  abbrev pub check_waiver : Waiver → List String → Result {0} Unit
  check_waiver w [] = check_expiry w (lib.day_of w.expires)
  check_waiver w (name ∷ names) =
      raise (
        value_error (concat ("waiver missing required fields: " ∷ joined ", " (name ∷ names) ∷ [])))

  unfoldable pub read_entries : List Waiver → Result (List Waiver)
  read_entries [] = ok []
  read_entries (w ∷ ws) = elim (check_waiver w (missing_fields w)) [
    | raise e ↦ raise e
    | ok x ↦ elim (read_entries ws) [ raise e ↦ raise e | ok rest ↦ ok (w ∷ rest) ]
  ]

  unfoldable pub read_waivers : Setting (List Waiver) → Result (List Waiver)
  read_waivers unreadable = raise (value_error "waivers.entries must be an array")
  read_waivers (readable entries) = read_entries entries

  abbrev pub is_known : String → Bool
  is_known rule_id = any (λ (r : Rule). r.id == rule_id) (registered_rules lib)

  abbrev pub sorted_texts : List String → List String
  sorted_texts = sort_by (λ s t. not (is_before t s))

  abbrev pub refuse_unknown : List String → Result {0} Unit
  refuse_unknown [] = ok tt
  refuse_unknown (u ∷ us) =
      let known = sorted_texts (map (λ (r : Rule). r.id) (registered_rules lib)) in
      raise (
        value_error (
          concat (
            "unknown rule id in config: "
            ∷ joined ", " (u ∷ us)
            ∷ ". Registered rules: "
            ∷ joined ", " known
            ∷ [])))

  unfoldable pub reject_unknown_rule_ids : List (String × Options) → Result {0} Unit
  reject_unknown_rule_ids rules = refuse_unknown (
      sorted_texts
        (keep (λ rule_id. not (is_known rule_id)) (map (λ (r : String × Options). r.0) rules)))

  abbrev pub defaults : Thresholds
  defaults = map (λ (t : String × ℕ). (t.0, pos t.1)) default_thresholds

  -- A budget of the file takes the place of the default one.
  abbrev pub not_in : Thresholds → String × ℤ → Bool
  not_in budgets t = not (any (λ (b : String × ℤ). b.0 == t.0) budgets)

  abbrev pub config_of : RawConfig → String → List Waiver → Config
  config_of raw path waivers = record {
    thresholds = raw.budgets ++ keep (not_in raw.budgets) defaults;
    rules = raw.rules;
    waivers = waivers;
    sources = "builtin" ∷ path ∷ [];
  }

  abbrev pub load_file : RawConfig → String → Result Config
  load_file raw path = elim (read_waivers raw.entries) [
    | raise e ↦ raise e
    | ok waivers ↦ elim (reject_unknown_rule_ids raw.rules) [
      | raise e ↦ raise e
      | ok x ↦ construct lib today (config_of raw path waivers)
    ]
  ]

  unfoldable pub load_config : Option (String × RawConfig) → Result Config
  load_config none =
      construct lib today
        (record { thresholds = defaults; rules = []; waivers = []; sources = "builtin" ∷ [] })
  load_config (some (path, raw)) = load_file raw path

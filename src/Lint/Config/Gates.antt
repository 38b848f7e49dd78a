-- ===== src/Lint/Config/Gates.antt =====
-- The gates of a configuration beside its waivers: src/xllib/lint/config.py of excel-library.
use luis_puentes.Prelude.{
  ℕ, ◌≡◌, refl, ◌∙◌, ap, String, Bool, true, false, Option, none, some, List, [], ◌∷◌, ◌&&◌, ◌||◌,
  not, if◌then◌else◌, contains, any, arith, every,
}
use luis_puentes.Result.{Failure, Result, ok, raise}
use luis_puentes.Workbook.{Library}
use luis_puentes.Lint.{Options, ℤ, Thresholds}
use luis_puentes.Lint.Config.{
  Config, Verdict, Index, waiver_defect, waiver_index, verdict_of, present, widens_literals,
  widens_exemptions, widening_option, is_raised, check_budgets, check_rules, and_then,
  reject_unwaived_loosening, is_silenced, reject_unwaived_silencing, with_index, construct,
}
use luis_puentes.Lint.Config.Waived.{is_some, authorises, waiver_index-authorised}

abbrev pub is_ok {ℓ} : {A : Type ℓ} → Result A → Bool
is_ok (ok x) = true
is_ok (raise e) = false

gate-ok :
    (b c : Bool) (e : Failure) (rest : Verdict)
    → is_ok (if b && not c then raise e else rest) ≡ ((not b || c) && is_ok rest)
gate-ok true true e rest = refl
gate-ok true false e rest = refl
gate-ok false c e rest = refl

skip-ok :
    (c : Bool) (o : Option String) (f : String → Failure) (rest : Verdict)
    → is_ok (if c then rest else elim o [ none ↦ rest | some x ↦ raise (f x) ])
      ≡ ((not (is_some o) || c) && is_ok rest)
skip-ok true none f rest = refl
skip-ok true (some x) f rest = refl
skip-ok false none f rest = refl
skip-ok false (some x) f rest = refl

and_then-ok : (x y : Verdict) → is_ok (and_then x y) ≡ (is_ok x && is_ok y)
and_then-ok (ok x) y = refl
and_then-ok (raise e) y = refl

regroup : (x y z : Bool) → (x && (y && z)) ≡ ((x && z) && y)
regroup x y z = ground arith

module _ {A : Type 0} where
  every-both :
      (p q c : A → Bool) (xs : List A)
      → (every (λ x. not (p x) || c x) xs && every (λ x. not (q x) || c x) xs)
        ≡ every (λ x. not (p x || q x) || c x) xs
  every-both p q c [] = refl
  every-both p q c (x ∷ xs) = ground (arith, every-both p q c xs)

  every-ext : (p q : A → Bool) → ((x : A) → p x ≡ q x) → (xs : List A) → every p xs ≡ every q xs
  every-ext p q same [] = refl
  every-ext p q same (x ∷ xs) = rw (same x, every-ext p q same xs) refl

module _ (lib : Library) (today : ℕ) where
  -- A rule that is switched off, lowered from an error to a warning, or made to accept more.
  abbrev pub loosens : String → Options → Bool
  loosens rule_id options =
      is_silenced lib today rule_id options
      || (present (widens_literals lib today) options.allowed_literals
          || present (widens_exemptions lib today) options.positional_exemptions)

  -- Whatever is loosened has such a waiver.
  abbrev pub respects_waivers : Config → Bool
  respects_waivers config =
      every
        (λ (r : String × Options).
          not (loosens r.0 r.1) || any (authorises lib today r.0) config.waivers)
        config.rules
      && every
          (λ (t : String × ℤ).
            not (is_raised lib today t.0 t.1) || any (authorises lib today t.0) config.waivers)
          config.thresholds

  abbrev widens : Options → Bool
  widens options =
      present (widens_literals lib today) options.allowed_literals
      || present (widens_exemptions lib today) options.positional_exemptions

  widening_option-widens :
      (options : Options) → is_some (widening_option lib today options) ≡ widens options
  widening_option-widens options = ground arith

  module _ (authorised : List String) (refused : List (String × String)) where
    check_budgets-ok :
        (ts : Thresholds)
        → is_ok (check_budgets lib today ts authorised refused)
          ≡ every
              (λ (t : String × ℤ). not (is_raised lib today t.0 t.1) || contains authorised t.0)
              ts
    unfolding check_budgets
    check_budgets-ok [] = refl
    check_budgets-ok ((key, value) ∷ ts) =
        gate-ok (is_raised lib today key value) (contains authorised key) _
          (check_budgets lib today ts authorised refused)
        ∙ ap (λ b. (not (is_raised lib today key value) || contains authorised key) && b)
            (check_budgets-ok ts)

    check_rules-ok :
        (rs : List (String × Options))
        → is_ok (check_rules lib today rs authorised refused)
          ≡ every (λ (r : String × Options). not (widens r.1) || contains authorised r.0) rs
    unfolding check_rules
    check_rules-ok [] = refl
    check_rules-ok ((rule_id, options) ∷ rs) =
        skip-ok (contains authorised rule_id) (widening_option lib today options) _
          (check_rules lib today rs authorised refused)
        ∙ rw (widening_option-widens options, check_rules-ok rs) refl

    silencing-ok :
        (rs : List (String × Options))
        → is_ok (reject_unwaived_silencing lib today rs authorised refused)
          ≡ every
              (λ (r : String × Options).
                not (is_silenced lib today r.0 r.1) || contains authorised r.0)
              rs
    unfolding reject_unwaived_silencing
    silencing-ok [] = refl
    silencing-ok ((rule_id, options) ∷ rs) =
        gate-ok (is_silenced lib today rule_id options) (contains authorised rule_id) _
          (reject_unwaived_silencing lib today rs authorised refused)
        ∙ ap
            (λ b. (not (is_silenced lib today rule_id options) || contains authorised rule_id) && b)
            (silencing-ok rs)

  -- The rules and budgets that are loosened by leave of a test.
  module _ (leave : String → Bool) (config : Config) where
    abbrev silencing : Bool
    silencing =
        every (λ (r : String × Options). not (is_silenced lib today r.0 r.1) || leave r.0)
          config.rules

    abbrev widening : Bool
    widening = every (λ (r : String × Options). not (widens r.1) || leave r.0) config.rules

    abbrev raised : Bool
    raised =
        every (λ (t : String × ℤ). not (is_raised lib today t.0 t.1) || leave t.0) config.thresholds

    abbrev loosening : Bool
    loosening = every (λ (r : String × Options). not (loosens r.0 r.1) || leave r.0) config.rules

  with_index-ok :
      (config : Config) (i : Index lib today)
      → is_ok (with_index lib today config i) ≡ (
          silencing (contains i.0) config
          && (raised (contains i.0) config && widening (contains i.0) config))
  unfolding reject_unwaived_loosening with_index
  with_index-ok config (authorised, refused) =
      rw
        (
          and_then-ok,
          and_then-ok,
          silencing-ok authorised refused config.rules,
          check_budgets-ok authorised refused config.thresholds,
          check_rules-ok authorised refused config.rules,
        )
        refl

  construct-index :
      (config : Config)
      → is_ok (construct lib today config)
        ≡ is_ok (with_index lib today config (waiver_index lib today config.waivers))
  unfolding construct waiver_index waiver_defect
  construct-index config = go (with_index lib today config (waiver_index lib today config.waivers))
    where
      go : (r : Verdict) → is_ok (verdict_of config r) ≡ is_ok r
      go (ok x) = refl
      go (raise e) = refl

  -- A configuration is constructed exactly if each rule that it switches off, lowers from an error to a warning
  -- or makes to accept more, and each known budget that it raises, has a waiver for everything of that rule or
  -- budget that names an approver and a reason and has not expired.
  pub construct-ok :
      (config : Config) → is_ok (construct lib today config) ≡ respects_waivers config
  construct-ok config =
      let leave = contains (waiver_index lib today config.waivers).0 in
      let waived : String → Bool = λ key. any (authorises lib today key) config.waivers in
      let known = λ (key : String). waiver_index-authorised lib today key config.waivers in
      construct-index config
      ∙ with_index-ok config (waiver_index lib today config.waivers)
      ∙ regroup (silencing leave config) (raised leave config) (widening leave config)
      ∙ ap (λ b. b && raised leave config)
          (every-both (λ (r : String × Options). is_silenced lib today r.0 r.1) (λ r. widens r.1)
              (λ r. leave r.0) config.rules
            ∙ every-ext _ (λ (r : String × Options). not (loosens r.0 r.1) || waived r.0)
                (λ r. ap (λ b. not (loosens r.0 r.1) || b) (known r.0)) config.rules)
      ∙ ap (λ b. loosening waived config && b)
          (every-ext _ (λ (t : String × ℤ). not (is_raised lib today t.0 t.1) || waived t.0)
            (λ t. ap (λ b. not (is_raised lib today t.0 t.1) || b) (known t.0)) config.thresholds)

-- ===== src/Lint/Run/Clean.antt =====
-- The exit code of a report beside the rules that were run: src/xllib/lint/api.py of excel-library.
use luis_puentes.Prelude.{
  ℕ, ◌≡◌, refl, sym, ◌∙◌, ap, Bool, true, false, Option, none, some, List, [], ◌∷◌, ◌++◌, ◌&&◌, ◌⊎◌,
  inl, inr, count, keep, subst, map, sort_by, insert_by, All, count-append, arith, eqb, eqb→eq,
  Bool-cases,
}
use luis_puentes.Result.{Result, ok, raise}
use luis_puentes.Workbook.{Library, Workbook}
use luis_puentes.Lint.{
  Severity, Capability, capabilities, Waiver, Finding, Rule, display, is_error_severity,
}
use luis_puentes.Lint.Rules.Formulas.{then_more}
use luis_puentes.Lint.Config.{Config, is_off, severity_for, waiver_for}
use luis_puentes.Lint.Report.{
  Report, is_violation, is_error_finding, is_skipped_finding, errors, skipped, exit_code,
}
use luis_puentes.Lint.Run.{
  finding_le, missing_for, skipped_finding, with_waiver, treat, context_for, treated, evaluate_rule,
  with_severity, run_rule, run_rules, is_active, report_of, reported, lint,
}

module _ {A : Type 0} (p : A → Bool) where
  count-insert_by :
      (le : A → A → Bool) (x : A) (xs : List A) → count p (insert_by le x xs) ≡ count p (x ∷ xs)
  count-insert_by le x [] = refl
  count-insert_by le x (y ∷ ys) = ground (arith, count-insert_by le x ys)

  count-sort_by : (le : A → A → Bool) (xs : List A) → count p (sort_by le xs) ≡ count p xs
  count-sort_by le [] = refl
  count-sort_by le (x ∷ xs) =
      ground (arith, count-insert_by le x (sort_by le xs), count-sort_by le xs)

-- A violation that is neither lowered to a warning nor waived.
abbrev pub stays_open : Severity → Option Waiver → Finding → Bool
stays_open severity (some w) f = false
stays_open severity none f = is_violation f.status && is_error_severity severity

-- No error and nothing skipped.
abbrev IsClean : List Finding → Type 0
IsClean fs = (count is_error_finding fs ≡ 0) × (count is_skipped_finding fs ≡ 0)

exit_code-IsClean : (report : Report) → exit_code report ≡ 0 → IsClean report.findings
unfolding exit_code errors skipped
exit_code-IsClean report h = elim (Bool-cases (eqb (errors report) 0)) [
  | inr e ↦ absurd (omega (arith, (rw e at h)))
  | inl e ↦ elim (Bool-cases (eqb (skipped report) 0)) [
    | inr f ↦ absurd (omega (arith, (rw (e, f) at h)))
    | inl f ↦ (eqb→eq (errors report) 0 e, eqb→eq (skipped report) 0 f)
  ]
]

IsClean-append : (fs gs : List Finding) → IsClean (fs ++ gs) → IsClean fs × IsClean gs
IsClean-append fs gs (e, s) = (
  (
    omega (arith, e, count-append is_error_finding fs gs),
    omega (arith, s, count-append is_skipped_finding fs gs),
  ),
  (
    omega (arith, e, count-append is_error_finding fs gs),
    omega (arith, s, count-append is_skipped_finding fs gs),
  ),
)

module _ (lib : Library) (today : ℕ) (config : Config) (wb : Workbook) where
  -- A rule whose check ran with all that it needs, and left no violation open.
  abbrev pub IsPassed : Rule → Type 0
  IsPassed rule =
      (missing_for (capabilities wb) rule ≡ [])
      × (severity : Severity) × (severity_for lib config rule.id rule.default_severity
          ≡ ok severity)
      × (raws : List Finding) × (rule.check wb (context_for lib today config wb rule) ≡ ok raws)
      × All
          (λ f.
            stays_open severity (waiver_for lib today config rule.id (display f.locus)) f ≡ false)
          raws

  -- A rule of the run that was switched off, or that passed.
  abbrev pub IsAnswered : Rule → Type 0
  IsAnswered rule = (is_off lib config rule.id ≡ true) ⊎ IsPassed rule

  treat-open :
      (rule : Rule) (severity : Severity) (f : Finding)
      → is_error_finding (treat lib today config wb rule severity f)
        ≡ stays_open severity (waiver_for lib today config rule.id (display f.locus)) f
  treat-open rule severity f = go (waiver_for lib today config rule.id (display f.locus))
    where
      go :
          (o : Option Waiver)
          → is_error_finding (with_waiver o (record f { severity = severity }))
            ≡ stays_open severity o f
      go none = refl
      go (some w) = refl

  treated-closed :
      (rule : Rule) (severity : Severity) (raws : List Finding)
      → count is_error_finding (map (treat lib today config wb rule severity) raws) ≡ 0
      → All
          (λ f.
            stays_open severity (waiver_for lib today config rule.id (display f.locus)) f ≡ false)
          raws
  treated-closed rule severity [] h = tt
  treated-closed rule severity (f ∷ fs) h =
      elim (Bool-cases
        (stays_open severity (waiver_for lib today config rule.id (display f.locus)) f)) [
          | inl e ↦ absurd (ground (arith, h, treat-open rule severity f, e))
          | inr e ↦ (e, treated-closed rule severity fs (rw (treat-open rule severity f, e) at h))
        ]

  module _ (rule : Rule) (fs : List Finding) (clean : IsClean fs) where
    treated-IsPassed :
        (severity : Severity) (r : Result (List Finding))
        → severity_for lib config rule.id rule.default_severity ≡ ok severity
        → missing_for (capabilities wb) rule ≡ []
        → rule.check wb (context_for lib today config wb rule) ≡ r
        → treated lib today config wb rule severity r ≡ ok fs
        → IsPassed rule
    treated-IsPassed severity (raise e) s m c h = absurd (cc h)
    treated-IsPassed severity (ok raws) s m c h =
        let same : map (treat lib today config wb rule severity) raws ≡ fs = cc h in
        (
          m,
          severity,
          s,
          raws,
          c,
          treated-closed rule severity raws (ap (count is_error_finding) same ∙ clean.0),
        )

    evaluate_rule-IsPassed :
        (severity : Severity) (missing : List Capability)
        → severity_for lib config rule.id rule.default_severity ≡ ok severity
        → missing_for (capabilities wb) rule ≡ missing
        → evaluate_rule lib today config wb rule severity missing ≡ ok fs
        → IsPassed rule
    evaluate_rule-IsPassed severity [] s m h = treated-IsPassed severity _ s m refl h
    evaluate_rule-IsPassed severity (c ∷ cs) s m h =
        let same : skipped_finding rule severity (c ∷ cs) ∷ [] ≡ fs = cc h in
        let one : 1 ≡ count is_skipped_finding fs = ap (count is_skipped_finding) same in
        absurd (omega (arith, one, clean.1))

    run_rule-IsPassed : run_rule lib today config wb rule ≡ ok fs → IsPassed rule
    unfolding run_rule
    run_rule-IsPassed h = go (severity_for lib config rule.id rule.default_severity) refl h
      where
        go :
            (r : Result Severity)
            → severity_for lib config rule.id rule.default_severity ≡ r
            → with_severity lib today config wb rule r ≡ ok fs
            → IsPassed rule
        go (raise e) s k = absurd (cc k)
        go (ok severity) s k = evaluate_rule-IsPassed severity _ s refl k

  run_rules-IsPassed :
      (rules : List Rule) (fs : List Finding)
      → run_rules lib today config wb rules ≡ ok fs
      → IsClean fs
      → All IsPassed rules
  unfolding run_rules
  run_rules-IsPassed [] fs h clean = tt
  run_rules-IsPassed (rule ∷ rules) fs h clean =
      go (run_rule lib today config wb rule) (run_rules lib today config wb rules) refl refl h
        (run_rules-IsPassed rules)
    where
      go :
          (x y : Result (List Finding))
          → run_rule lib today config wb rule ≡ x
          → run_rules lib today config wb rules ≡ y
          → then_more lib wb x y ≡ ok fs
          → ((gs : List Finding)
              → run_rules lib today config wb rules ≡ ok gs
              → IsClean gs
              → All IsPassed rules)
          → IsPassed rule × All IsPassed rules
      go (raise e) y p q k each = absurd (cc k)
      go (ok xs) (raise e) p q k each = absurd (cc k)
      go (ok xs) (ok ys) p q k each =
          let same : fs ≡ xs ++ ys = cc k in
          let (one, more) = IsClean-append xs ys (subst IsClean same clean) in
          (run_rule-IsPassed rule xs one p, each ys q more)

  keep-IsAnswered :
      (rules : List Rule)
      → All IsPassed (keep (is_active lib today config wb) rules)
      → All IsAnswered rules
  keep-IsAnswered [] h = tt
  keep-IsAnswered (rule ∷ rules) h = elim (Bool-cases (is_off lib config rule.id)) [
    | inl e ↦ (inl e, keep-IsAnswered rules (rw e at h))
    | inr e ↦
        let (x, k) : IsPassed rule × All IsPassed (keep (is_active lib today config wb) rules) =
          (rw e at h) in
        (inr x, keep-IsAnswered rules k)
  ]

-- When a run of the rules ends with a report whose exit code is 0, every rule was switched off, or the workbook
-- had all the capabilities that it requires, its check ran, and each violation that it found is one of a rule
-- whose severity is a warning, or has a waiver for its place.
pub lint-IsAnswered :
    (lib : Library) (today : ℕ) (config : Config) (wb : Workbook) (rules : List Rule)
    (report : Report)
    → lint lib today config wb rules ≡ ok report
    → exit_code report ≡ 0
    → All (IsAnswered lib today config wb) rules
unfolding lint
lint-IsAnswered lib today config wb rules report h code =
    go (run_rules lib today config wb (keep (is_active lib today config wb) rules)) refl h
  where
    go :
        (r : Result (List Finding))
        → run_rules lib today config wb (keep (is_active lib today config wb) rules) ≡ r
        → reported lib today config wb rules r ≡ ok report
        → All (IsAnswered lib today config wb) rules
    go (raise e) s k = absurd (cc k)
    go (ok fs) s k =
        let same : report ≡ report_of lib today config wb rules fs = cc k in
        let (e, f) =
          exit_code-IsClean (report_of lib today config wb rules fs)
            (ap exit_code (sym same) ∙ code) in
        keep-IsAnswered lib today config wb rules (
          run_rules-IsPassed lib today config wb _ fs s (
            sym (count-sort_by is_error_finding finding_le fs) ∙ e,
            sym (count-sort_by is_skipped_finding finding_le fs) ∙ f,
          ))

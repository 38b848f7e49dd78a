-- ===== src/Lint/Rules/Structure/Checks.antt =====
-- The checks that XL103 reports: src/xllib/lint/rules/__init__.py of excel-library.
use luis_puentes.Prelude.{
  ℕ, ◌≡◌, ◌≢◌, refl, ap, true, false, Option, some, List, [], ◌∷◌, ◌++◌, inl, inr, ◌==◌, eq_iff,
  concat, subst, Bool-cases, text_or_empty,
}
use luis_puentes.Prelude.Sweep.{In, keep-In}
use luis_puentes.Result.{ok}
use luis_puentes.Workbook.{
  Library, CellValue, empty, text, number, boolean, moment, duration, Cell, effective_value, Sheet,
  cell_at, Reference, DefinedName, Workbook, find_sheet,
}
use luis_puentes.Lint.{Confidence, Finding, RuleContext}
use luis_puentes.Lint.Rules.Places.{gather, violation, locus_of}
use luis_puentes.Lint.Rules.Structure.{
  coordinate_at, is_check, check_names, is_passing, judge_check, judge_check_at, judge_check_target,
  xl103,
}

In-append_left : {A : Type 0} (x : A) (xs ys : List A) → In x xs → In x (xs ++ ys)
In-append_left x [] ys m = absurd m
In-append_left x (_ ∷ xs) ys (inl e) = inl e
In-append_left x (_ ∷ xs) ys (inr m) = inr (In-append_left x xs ys m)

In-append_right : {A : Type 0} (x : A) (xs ys : List A) → In x ys → In x (xs ++ ys)
In-append_right x [] ys m = m
In-append_right x (_ ∷ xs) ys m = inr (In-append_right x xs ys m)

In-gather :
    {A B : Type 0} (f : A → List B) (xs : List A) (x : A) (y : B)
    → In x xs
    → In y (f x)
    → In y (gather f xs)
In-gather f [] x y m h = absurd m
In-gather f (z ∷ xs) x y (inl e) h =
    In-append_left y (f z) (gather f xs) (subst (λ a. In y (f a)) e h)
In-gather f (z ∷ xs) x y (inr m) h = In-append_right y (f z) (gather f xs) (In-gather f xs x y m h)

module _ (lib : Library) (wb : Workbook) where
  is_passing-false :
      (v : CellValue) → v ≢ boolean true → v ≢ number "0.0" → is_passing lib wb v ≡ false
  is_passing-false empty t z = refl
  is_passing-false (text s) t z = refl
  is_passing-false (moment s) t z = refl
  is_passing-false (duration s) t z = refl
  is_passing-false (boolean true) t z = absurd (t refl)
  is_passing-false (boolean false) t z = refl
  is_passing-false (number n) t z = elim (Bool-cases (n == "0.0")) [
    | inl e ↦ absurd (z (ap number ((eq_iff n "0.0").0 e)))
    | inr e ↦ e
  ]

  -- The finding of XL103 on the cell that a defined name refers to.
  abbrev pub check_finding : DefinedName → Reference → Sheet → Cell → Finding
  check_finding name target sheet cell =
      let shown = lib.show (effective_value cell) in
      violation "XL103" Confidence.certain
        (concat ("check " ∷ name.name ∷ " evaluates to " ∷ shown ∷ []))
        (locus_of lib wb sheet.name (some (coordinate_at lib wb target (some cell))))
        "correct the model until the check evaluates to 0 or TRUE"
        (("defined_name", name.name) ∷ ("value", shown) ∷ [])

  judge_check-reports :
      (name : DefinedName) (target : Reference) (sheet : Sheet) (cell : Cell)
      → is_passing lib wb (effective_value cell) ≡ false
      → In (check_finding name target sheet cell) (judge_check lib wb name target sheet (some cell))
  judge_check-reports name target sheet cell p = rw p (inl refl)

  judge_check_at-reports :
      (name : DefinedName) (target : Reference) (sheet : Sheet) (row column : ℕ) (cell : Cell)
      (o : Option Sheet) (r c : Option ℕ)
      → o ≡ some sheet
      → r ≡ some row
      → c ≡ some column
      → cell_at sheet row column ≡ some cell
      → is_passing lib wb (effective_value cell) ≡ false
      → In (check_finding name target sheet cell) (judge_check_at lib wb name target o r c)
  judge_check_at-reports name target sheet row column cell o r c e f g k p =
      rw (e, f, g, k) (judge_check-reports name target sheet cell p)

-- A defined name that begins with chk_ and refers to a cell that is there, and whose value is neither TRUE nor
-- 0, has a violation of XL103 among the findings, at that cell and with the name and the value as its
-- evidence, whatever the other names are.
pub xl103-reports :
    (lib : Library) (wb : Workbook) (context : RuleContext) (name : DefinedName)
    (target : Reference) (sheet : Sheet) (row column : ℕ) (cell : Cell)
    → In name wb.defined_names
    → is_check lib wb name ≡ true
    → In target name.references
    → find_sheet lib wb (text_or_empty target.sheet) ≡ some sheet
    → target.bounds.min_row ≡ some row
    → target.bounds.min_column ≡ some column
    → cell_at sheet row column ≡ some cell
    → effective_value cell ≢ boolean true
    → effective_value cell ≢ number "0.0"
    → (findings : List Finding) × (xl103 lib wb context ≡ ok findings)
      × In (check_finding lib wb name target sheet cell) findings
unfolding xl103 check_names
xl103-reports lib wb context name target sheet row column cell m n i s r c k t z =
    let p = is_passing-false lib wb (effective_value cell) t z in
    let one = judge_check_at-reports lib wb name target sheet row column cell _ _ _ s r c k p in
    let here = check_finding lib wb name target sheet cell in
    let some_of = In-gather (judge_check_target lib wb name) name.references target here i one in
    (
      _,
      refl,
      In-gather (λ x. gather (judge_check_target lib wb x) x.references) (check_names lib wb) name
          here (keep-In (is_check lib wb) name wb.defined_names m n) some_of,
    )

-- ===== src/Lint/Config/Waived.antt =====
-- The keys that the index of the waivers holds: src/xllib/lint/config.py of excel-library.
use luis_puentes.Prelude.{
  ℕ, ◌≡◌, refl, String, Bool, true, false, Option, none, some, List, [], ◌∷◌, ◌==◌, ◌&&◌, ◌||◌, not,
  if◌then◌else◌, contains, any, ltb, arith, Bool-cases, inl, inr,
}
use luis_puentes.Workbook.{Library}
use luis_puentes.Lint.{Waiver}
use luis_puentes.Lint.Config.{Index, waiver_defect, date_defect, index_waiver, waiver_index}

abbrev pub is_some : Option String → Bool
is_some none = false
is_some (some x) = true

abbrev pub is_current : ℕ → Option ℕ → Bool
is_current today none = false
is_current today (some day) = not (ltb day today)

module _ (lib : Library) (today : ℕ) where
  -- A waiver for everything of a rule or a budget, with an approver and a reason, that has not expired.
  abbrev pub authorises : String → Waiver → Bool
  authorises key w =
      w.rule == key
      && (w.scope == "*"
          && (not (lib.strip w.approver == "")
              && (not (lib.strip w.reason == "") && is_current today (lib.day_of w.expires))))

  date-good :
      (w : Waiver) (o : Option ℕ) → not (is_some (date_defect lib today w o)) ≡ is_current today o
  date-good w none = refl
  date-good w (some day) = elim (Bool-cases (ltb day today)) [
    | inl e ↦ rw e refl
    | inr e ↦ rw e refl
  ]

  waiver_defect-good :
      (w : Waiver)
      → not (is_some (waiver_defect lib today w)) ≡ (
          not (lib.strip w.approver == "")
          && (not (lib.strip w.reason == "") && is_current today (lib.day_of w.expires)))
  unfolding waiver_defect
  waiver_defect-good w = elim (Bool-cases (lib.strip w.approver == "")) [
    | inl e ↦ rw e refl
    | inr e ↦ elim (Bool-cases (lib.strip w.reason == "")) [
      | inl f ↦ rw (e, f) refl
      | inr f ↦ rw (e, f) (date-good w (lib.day_of w.expires))
    ]
  ]

  index_waiver-contains :
      (key : String) (w : Waiver) (i : Index lib today) (o : Option String)
      → contains (index_waiver lib today w i o).0 key
        ≡ ((w.rule == key && not (is_some o)) || contains i.0 key)
  index_waiver-contains key w i none = ground arith
  index_waiver-contains key w i (some x) = ground arith

  waiver_index-nil : waiver_index lib today [] ≡ ([], [])
  unfolding waiver_index waiver_defect
  waiver_index-nil = refl

  waiver_index-cons :
      (w : Waiver) (ws : List Waiver)
      → waiver_index lib today (w ∷ ws) ≡ (
          if w.scope == "*"
          then index_waiver lib today w (waiver_index lib today ws) (waiver_defect lib today w)
          else waiver_index lib today ws)
  unfolding waiver_index waiver_defect
  waiver_index-cons w ws = refl

  pub waiver_index-authorised :
      (key : String) (ws : List Waiver)
      → contains (waiver_index lib today ws).0 key ≡ any (authorises key) ws
  waiver_index-authorised key [] = rw waiver_index-nil refl
  waiver_index-authorised key (w ∷ ws) =
      let i = waiver_index lib today ws in
      let good = waiver_defect-good w in
      let counted = index_waiver-contains key w i (waiver_defect lib today w) in
      let known = waiver_index-authorised key ws in
      elim (Bool-cases (w.scope == "*")) [
        | inl e ↦ rw (waiver_index-cons w ws, e, counted, good, known) refl
        | inr e ↦ rw (waiver_index-cons w ws, e, known) ground arith
      ]

-- ===== src/Workbook/Spans/Sections.antt =====
-- The rows that begin a section, for estimate_section_count: src/xllib/inspect/spans.py of excel-library.
use luis_puentes.Prelude.{
  ℕ, ◌+◌, ◌<◌, ◌≡◌, refl, Bool, false, none, some, List, [], ◌∷◌, not, any, count, All, map, keep,
  arith, eqb, ltb, Bool-cases, inl, inr,
}
use luis_puentes.Workbook.{Sheet, add_row, sorted_set}
use luis_puentes.Workbook.Spans.{is_occupied, occupied_rows, count_sections, estimate_section_count}

-- Whether the row before is not among the rows.
abbrev pub begins : List ℕ → ℕ → Bool
begins rows row = not (any (λ r. eqb row (r + 1)) rows)

abbrev Above : ℕ → List ℕ → Type 0
Above n rows = All (λ r. n < r) rows

abbrev IsRising : List ℕ → Type 0
IsRising [] = Unit
IsRising (r ∷ rows) = Above r rows × IsRising rows

Above-trans : (m n : ℕ) (rows : List ℕ) → m < n → Above n rows → Above m rows
Above-trans m n [] h a = tt
Above-trans m n (r ∷ rows) h (x, a) = (omega arith, Above-trans m n rows h a)

add_row-Above : (m n : ℕ) (rows : List ℕ) → m < n → Above m rows → Above m (add_row n rows)
add_row-Above m n [] h a = (h, tt)
add_row-Above m n (r ∷ rows) h (x, a) = elim (Bool-cases (ltb n r)) [
  | inl e ↦ rw e (h, (x, a))
  | inr e ↦ elim (Bool-cases (eqb n r)) [
    | inl f ↦ rw (e, f) (x, a)
    | inr f ↦ rw (e, f) (x, add_row-Above m n rows h a)
  ]
]

add_row-IsRising : (n : ℕ) (rows : List ℕ) → IsRising rows → IsRising (add_row n rows)
add_row-IsRising n [] h = (tt, tt)
add_row-IsRising n (r ∷ rows) (a, h) = elim (Bool-cases (ltb n r)) [
  | inl e ↦ rw e ((ground arith, Above-trans n r rows (ground arith) a), (a, h))
  | inr e ↦ elim (Bool-cases (eqb n r)) [
    | inl f ↦ rw (e, f) (a, h)
    | inr f ↦ rw (e, f) (add_row-Above r n rows (ground arith) a, add_row-IsRising n rows h)
  ]
]

sorted_set-IsRising : (ns : List ℕ) → IsRising (sorted_set ns)
sorted_set-IsRising [] = tt
sorted_set-IsRising (n ∷ ns) = add_row-IsRising n (sorted_set ns) (sorted_set-IsRising ns)

-- No row above another is the next of one that is not below it.
none_next : (n : ℕ) (rows : List ℕ) → Above n rows → any (λ r. eqb n (r + 1)) rows ≡ false
none_next n [] a = refl
none_next n (r ∷ rows) (x, a) = ground (arith, none_next n rows a)

-- A row far below those of a list begins none of them.
count-begins_far :
    (p : ℕ) (all rows : List ℕ)
    → All (λ r. p + 1 < r) rows
    → count (begins (p ∷ all)) rows ≡ count (begins all) rows
count-begins_far p all [] h = refl
count-begins_far p all (r ∷ rows) (x, h) = ground (arith, count-begins_far p all rows h)

Above-far : (p r : ℕ) (rows : List ℕ) → p < r → Above r rows → All (λ x. p + 1 < x) rows
Above-far p r [] h a = tt
Above-far p r (x ∷ rows) h (y, a) = (omega arith, Above-far p r rows h a)

count_sections-after :
    (p : ℕ) (rows : List ℕ)
    → Above p rows
    → IsRising rows
    → count_sections (some p) rows ≡ count (begins (p ∷ rows)) rows
unfolding count_sections
count_sections-after p [] a h = refl
count_sections-after p (r ∷ rows) (x, a) (b, h) = ground (
  arith,
  count_sections-after r rows b h,
  none_next r rows b,
  count-begins_far p (r ∷ rows) rows (Above-far p r rows x b),
)

-- The estimate is the number of occupied rows whose row before is not occupied.
pub estimate_section_count-begins :
    (sheet : Sheet)
    → estimate_section_count sheet ≡ count (begins (occupied_rows sheet)) (occupied_rows sheet)
unfolding estimate_section_count count_sections
estimate_section_count-begins sheet =
    go (occupied_rows sheet) (sorted_set-IsRising (map (λ c. c.row) (keep is_occupied sheet.cells)))
  where
    go : (rows : List ℕ) → IsRising rows → count_sections none rows ≡ count (begins rows) rows
    go [] h = refl
    go (r ∷ rows) (a, h) = ground (arith, count_sections-after r rows a h, none_next r rows a)

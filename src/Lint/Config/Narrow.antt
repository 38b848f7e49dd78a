-- ===== src/Lint/Config/Narrow.antt =====
-- The literals that a configuration accepts beside those of the defaults: src/xllib/lint/config.py and XL002 of
-- src/xllib/lint/rules/__init__.py of excel-library.
use luis_puentes.Prelude.{
  ℕ, ◌≡◌, refl, sym, ◌∙◌, String, Bool, true, false, Option, none, some, List, [], ◌∷◌, ◌==◌,
  eq_iff, ◌&&◌, ◌||◌, not, contains, any, eqb, eqb→eq, subst, arith, Bool-cases, inl, inr, every,
  look_up, value_or, text_or_empty,
}
use luis_puentes.Workbook.{Library}
use luis_puentes.Workbook.Tokens.{NumericLiteral}
use luis_puentes.Lint.{
  default_allowed_literals, Exemptions, default_positional_exemptions, Setting, readable,
  unreadable, Options, no_options,
}
use luis_puentes.Lint.Rules.Formulas.{
  position_of, is_in, positions_of, is_accepted, allowed_in, exemptions_in,
}
use luis_puentes.Lint.Config.{
  Config, options_for, present, is_widening_positions, widens_literals, widens_exemptions,
  construct,
}
use luis_puentes.Lint.Config.Waived.{authorises}
use luis_puentes.Lint.Config.Gates.{is_ok, loosens, respects_waivers, construct-ok}

contains-every :
    (p : String → Bool) (xs : List String) (x : String)
    → every p xs ≡ true
    → contains xs x ≡ true
    → p x ≡ true
contains-every p [] x h c = cc
contains-every p (y ∷ ys) x h c = elim (Bool-cases (y == x)) [
  | inl e ↦ let same : y ≡ x = (eq_iff y x).0 e in subst (λ z. p z ≡ true) same (ground (arith, h))
  | inr e ↦ contains-every p ys x (ground (arith, h)) (ground (arith, c, e))
]

any-every :
    (q : ℕ → Bool) (ns : List ℕ) (n : ℕ)
    → any (λ m. not (q m)) ns ≡ false
    → any (eqb n) ns ≡ true
    → q n ≡ true
any-every q [] n h c = cc
any-every q (m ∷ ms) n h c = elim (Bool-cases (eqb n m)) [
  | inl e ↦
      let same : m ≡ n = sym (eqb→eq n m e) in subst (λ z. q z ≡ true) same (ground (arith, h))
  | inr e ↦ any-every q ms n (ground (arith, h)) (ground (arith, c, e))
]

look_up-any :
    {A : Type 0} (q : String × A → Bool) (xs : List (String × A)) (key : String) (x : A)
    → any q xs ≡ false
    → look_up xs key ≡ some x
    → q (key, x) ≡ false
look_up-any q [] key x h e = cc
look_up-any {A} q ((k, y) ∷ ys) key x h e = elim (Bool-cases (k == key)) [
  | inl f ↦
      let same : k ≡ key = (eq_iff k key).0 f in
      let value : some y ≡ some x = (rw f at e) in
      let found : y ≡ x = cc value in
      let here : q (k, y) ≡ false = ground (arith, h) in
      subst (λ s. q (s, x) ≡ false) same (subst (λ z. q (k, z) ≡ false) found here)
  | inr f ↦ look_up-any q ys key x (ground (arith, h)) (rw f at e)
]

look_up-every :
    {A : Type 0} (p : String × A → Bool) (xs : List (String × A)) (key : String) (x : A)
    → every p xs ≡ true
    → look_up xs key ≡ some x
    → p (key, x) ≡ true
look_up-every {A} p xs key x h e =
    ground (arith, look_up-any (λ y. not (p y)) xs key x (every-any xs h) e)
  where
    every-any : (ys : List (String × A)) → every p ys ≡ true → any (λ y. not (p y)) ys ≡ false
    every-any [] k = refl
    every-any (y ∷ ys) k = ground (arith, k, every-any ys)

or-map :
    (b c d e : Bool)
    → (b ≡ true → d ≡ true)
    → (c ≡ true → e ≡ true)
    → (b || c) ≡ true
    → (d || e) ≡ true
or-map true c d e f g h = rw (f refl) refl
or-map false c true e f g h = refl
or-map false c false e f g h = g h

and-left : (b c : Bool) → (b && c) ≡ true → b ≡ true
and-left b c h = ground (arith, h)

not-or : (b c : Bool) → (not b || c) ≡ true → c ≡ false → b ≡ false
not-or b c h k = ground (arith, h, k)

or-false : (a b c : Bool) → (a || (b || c)) ≡ false → (b ≡ false) × (c ≡ false)
or-false a b c h = (ground (arith, h), ground (arith, h))

module _ (lib : Library) (today : ℕ) where
  literals-narrowed :
      (o : Option (Setting (List String))) (literals : List String) (value : String)
      → present (widens_literals lib today) o ≡ false
      → value_or (readable default_allowed_literals) o ≡ readable literals
      → contains literals value ≡ true
      → contains default_allowed_literals value ≡ true
  unfolding widens_literals
  literals-narrowed none literals value h a c =
      let same : default_allowed_literals ≡ literals = cc a in
      subst (λ ls. contains ls value ≡ true) (sym same) c
  literals-narrowed (some unreadable) literals value h a c = cc
  literals-narrowed (some (readable ls)) literals value h a c =
      let same : ls ≡ literals = cc a in
      let narrow : every (contains default_allowed_literals) ls ≡ true = ground (arith, h) in
      contains-every (contains default_allowed_literals) ls value narrow
        (subst (λ ms. contains ms value ≡ true) (sym same) c)

  positions-narrowed :
      (exemptions : Exemptions) (function : String) (position : Option ℕ)
      → any (is_widening_positions lib today) exemptions ≡ false
      → is_in (positions_of exemptions function) position ≡ true
      → is_in (positions_of default_positional_exemptions function) position ≡ true
  positions-narrowed exemptions function none h c = cc
  positions-narrowed exemptions function (some n) h c = go (look_up exemptions function) refl c
    where
      go :
          (o : Option (List ℕ))
          → look_up exemptions function ≡ o
          → any (eqb n) (value_or [] o) ≡ true
          → any (eqb n) (positions_of default_positional_exemptions function) ≡ true
      go none e k = cc
      go (some ps) e k =
          any-every (λ m. any (eqb m) (positions_of default_positional_exemptions function)) ps n
            (look_up-any (is_widening_positions lib today) exemptions function ps h e) k

  exemptions-narrowed :
      (o : Option (Setting Exemptions)) (exemptions : Exemptions) (function : String)
      (position : Option ℕ)
      → present (widens_exemptions lib today) o ≡ false
      → value_or (readable default_positional_exemptions) o ≡ readable exemptions
      → is_in (positions_of exemptions function) position ≡ true
      → is_in (positions_of default_positional_exemptions function) position ≡ true
  unfolding widens_exemptions
  exemptions-narrowed none exemptions function position h a c =
      let same : default_positional_exemptions ≡ exemptions = cc a in
      subst (λ (es : Exemptions). is_in (positions_of es function) position ≡ true) (sym same) c
  exemptions-narrowed (some unreadable) exemptions function position h a c = cc
  exemptions-narrowed (some (readable es)) exemptions function position h a c =
      let same : es ≡ exemptions = cc a in
      positions-narrowed es function position h
        (subst (λ (xs : Exemptions). is_in (positions_of xs function) position ≡ true) (sym same) c)

  abbrev IsNarrow : Options → Type 0
  IsNarrow options =
      (present (widens_literals lib today) options.allowed_literals ≡ false)
      × (present (widens_exemptions lib today) options.positional_exemptions ≡ false)

  is_accepted-narrowed :
      (options : Options) (literals : List String) (exemptions : Exemptions) (l : NumericLiteral)
      → IsNarrow options
      → allowed_in options ≡ readable literals
      → exemptions_in options ≡ readable exemptions
      → is_accepted literals exemptions l ≡ true
      → is_accepted default_allowed_literals default_positional_exemptions l ≡ true
  unfolding is_accepted
  is_accepted-narrowed options literals exemptions l (n, m) a x c =
      or-map (contains literals l.value) _ (contains default_allowed_literals l.value) _
        (literals-narrowed options.allowed_literals literals l.value n a)
        (exemptions-narrowed options.positional_exemptions exemptions (text_or_empty l.function)
          (position_of l) m x)
        c

  options-IsNarrow :
      (config : Config) (o : Option Options)
      → look_up config.rules "XL002" ≡ o
      → respects_waivers lib today config ≡ true
      → any (authorises lib today "XL002") config.waivers ≡ false
      → IsNarrow (value_or no_options o)
  options-IsNarrow config none e r u = (refl, refl)
  options-IsNarrow config (some options) e r u =
      let every_rule = and-left _ _ r in
      let held =
        look_up-every
          (λ (r : String × Options).
            not (loosens lib today r.0 r.1) || any (authorises lib today r.0) config.waivers)
          config.rules "XL002" options every_rule e in
      or-false _ _ _ (not-or _ _ held u)

-- In a configuration that is constructed without a waiver for everything of XL002, the rule accepts no numeric
-- literal that it would not accept by default, if the options of the rule can be read.
pub construct-narrow :
    (lib : Library) (today : ℕ) (config : Config) (literals : List String) (exemptions : Exemptions)
    (l : NumericLiteral)
    → is_ok (construct lib today config) ≡ true
    → any (authorises lib today "XL002") config.waivers ≡ false
    → allowed_in (options_for config "XL002") ≡ readable literals
    → exemptions_in (options_for config "XL002") ≡ readable exemptions
    → is_accepted literals exemptions l ≡ true
    → is_accepted default_allowed_literals default_positional_exemptions l ≡ true
construct-narrow lib today config literals exemptions l built unwaived a x c =
    is_accepted-narrowed lib today (options_for config "XL002") literals exemptions l
      (options-IsNarrow lib today config (look_up config.rules "XL002") refl
        (sym (construct-ok lib today config) ∙ built) unwaived)
      a x c

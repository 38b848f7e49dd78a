-- ===== src/Legacy/Once.antt =====
-- A legacy file is imported once.
use luis_puentes.Prelude.{
  String, ◌≡◌, refl, ap, subst, true, List, [], ◌∷◌, any, any-append, map, All, eq_refl, ap, subst,
  Bool-cases, inl, inr,
}
use luis_puentes.Result.{ok}
use luis_puentes.State.{Store, ◌>>=◌, pure, utcnow, uuid4, append_event}
use luis_puentes.State.Keeps.{Keeps, >>=-Keeps}
use luis_puentes.State.Returns.{Returning, returns, returned, >>=-Returning}
use luis_puentes.State.Messages.{save_message}
use luis_puentes.State.Meta.{is_import, has_legacy_import, record_legacy_import}
use luis_puentes.Coordinator.Inbox.{inbox_send}
use luis_puentes.Legacy.{Valid, Imported, import_new, import_each}

abbrev pub IsKnown : String → Store → Type 0
IsKnown id s = has_legacy_import id s ≡ true

import_new-Keeps : (id : String) (v : Valid) → Keeps (IsKnown id) (import_new v)
unfolding inbox_send record_legacy_import save_message append_event utcnow uuid4 has_legacy_import
import_new-Keeps id v s h =
    elim (Bool-cases (any (is_import s.workspace v.import_id) s.legacy_imports)) [
      | inl e ↦ rw e h
      | inr e ↦ rw (e, any-append (is_import s.workspace id) s.legacy_imports _, h) refl
    ]

import_new-IsKnown : (v : Valid) (s : Store) → IsKnown v.import_id (import_new v s).1
unfolding inbox_send record_legacy_import save_message append_event utcnow uuid4 has_legacy_import
import_new-IsKnown v s =
    elim (Bool-cases (any (is_import s.workspace v.import_id) s.legacy_imports)) [
      | inl e ↦ rw e e
      | inr e ↦
          rw
            (
              e,
              any-append (is_import s.workspace v.import_id) s.legacy_imports _,
              e,
              eq_refl s.workspace,
              eq_refl v.import_id,
            )
            refl
    ]

import_each-Keeps : (id : String) (vs : List Valid) → Keeps (IsKnown id) (import_each vs)
unfolding import_each
import_each-Keeps id [] s h = h
import_each-Keeps id (v ∷ vs) s h = elim (Bool-cases (has_legacy_import v.import_id s)) [
  | inl e ↦
      rw e (>>=-Keeps (IsKnown id) (import_each vs) _ (import_each-Keeps id vs) (λ _ s h. h) s h)
  | inr e ↦ rw e (
      >>=-Keeps (IsKnown id) (import_new v) _ (import_new-Keeps id v)
        (λ new. >>=-Keeps (IsKnown id) (import_each vs) _ (import_each-Keeps id vs) (λ _ s h. h)) s
        h)
]

-- Every entry is known in the store.
abbrev AreKnown : List Valid → Store → Type 0
AreKnown vs s = All (λ v. IsKnown v.import_id s) vs

import_rest-AreKnown :
    {B : Type 0} (v : Valid) (vs : List Valid) (f : List Imported × List String → B) (s : Store)
    → IsKnown v.import_id s
    → Returning (λ out t. AreKnown vs t) (import_each vs s)
    → Returning (λ out t. AreKnown (v ∷ vs) t) ((import_each vs >>= λ others. pure (f others)) s)
import_rest-AreKnown v vs f s h k =
    >>=-Returning _ (λ out t. IsKnown v.import_id t × AreKnown vs t) (import_each vs) _ s
      (returns _ (import_each vs s) (λ out t e. (
        subst (IsKnown v.import_id) (ap (λ p. p.1) e) (import_each-Keeps v.import_id vs s h),
        returned (λ out t. AreKnown vs t) k e,
      )))
      (λ out t known. known)

import_each-AreKnown :
    (vs : List Valid) (s : Store) → Returning (λ out t. AreKnown vs t) (import_each vs s)
unfolding import_each
import_each-AreKnown [] s = tt
import_each-AreKnown (v ∷ vs) s = elim (Bool-cases (has_legacy_import v.import_id s)) [
  | inl e ↦ rw e (import_rest-AreKnown v vs _ s e (import_each-AreKnown vs s))
  | inr e ↦ rw e (
      >>=-Returning _ (λ new t. IsKnown v.import_id t) (import_new v) _ s
        (returns _ (import_new v s)
          (λ new t same. subst (IsKnown v.import_id) (ap (λ p. p.1) same) (import_new-IsKnown v s)))
        (λ new t h. import_rest-AreKnown v vs _ t h (import_each-AreKnown vs t)))
]

import_each-idle :
    (vs : List Valid) (s : Store)
    → AreKnown vs s
    → import_each vs s ≡ (ok ([], map (λ v. v.filename) vs), s)
unfolding import_each
import_each-idle [] s h = refl
import_each-idle (v ∷ vs) s (h, k) = rw (h, import_each-idle vs s k) refl

-- An import that ended is not repeated: run again on the same entries, it skips all of them and writes
-- nothing.
pub import_each-once :
    (vs : List Valid) (s : Store) {out : List Imported × List String} {t : Store}
    → import_each vs s ≡ (ok out, t)
    → import_each vs t ≡ (ok ([], map (λ v. v.filename) vs), t)
import_each-once vs s {out} {t} h =
    import_each-idle vs t (returned (λ out t. AreKnown vs t) (import_each-AreKnown vs s) h)

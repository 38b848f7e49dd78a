-- ===== src/Coordinator/Supervision/Approval.antt =====
-- What an approval leaves in the task's metadata.
use luis_puentes.Prelude.{
  Bool, String, ◌≡◌, refl, ◌∙◌, ◌⊎◌, true, false, List, [], ◌∷◌, ◌++◌, ◌==◌, ◌&&◌, ◌||◌, arith,
  eq_refl, eq_iff, Bool-cases, inl, inr,
}
use luis_puentes.Result.{ok}
use luis_puentes.Models.{Json, Fields, str, arr, TaskEnvelope, ApprovalRequest, set_field}
use luis_puentes.Models.Metadata.{get-set_field, has_text, list_of, list_field, to_list, of_list}
use luis_puentes.Coordinator.Supervision.{add_action, grant}

pub to_list-of_list : (xs : List Json) → to_list (of_list xs) ≡ xs
unfolding to_list of_list
to_list-of_list [] = refl
to_list-of_list (x ∷ xs) = rw (to_list-of_list xs)

has_text-append :
    (xs ys : List Json) (a : String) → has_text (xs ++ ys) a ≡ (has_text xs a || has_text ys a)
unfolding has_text
has_text-append [] ys a = refl
has_text-append (str s ∷ xs) ys a = ground (arith, has_text-append xs ys a)
has_text-append (_ ∷ xs) ys a = has_text-append xs ys a

-- Adding an action adds that one and keeps the rest.
has_text-add_action :
    (xs : List Json) (a b : String) → has_text (add_action xs a) b ≡ (has_text xs b || a == b)
unfolding has_text
has_text-add_action xs a b = elim (Bool-cases (has_text xs a)) [
  | inl e ↦ rw e (held (Bool-cases (a == b)) e)
  | inr e ↦ rw e (has_text-append xs (str a ∷ []) b ∙ last)
]
  where
    held :
        ((a == b) ≡ true) ⊎ ((a == b) ≡ false)
        → has_text xs a ≡ true
        → has_text xs b ≡ (has_text xs b || a == b)
    held (inl p) e = rw (← (eq_iff a b).0 p) (rw e)
    held (inr p) e = rw p (ground arith)

    last : (has_text xs b || has_text (str a ∷ []) b) ≡ (has_text xs b || a == b)
    last = ground arith

-- An approval grants its own action, and writing too if it grants the execution of a task that writes;
-- what was granted before stays granted, and nothing else is, in whichever order the two are walked.
pub grant-has_text :
    (own_first : Bool) (approval : ApprovalRequest) (task : TaskEnvelope) (actions : List Json)
    (b : String)
    → has_text (grant own_first approval task actions) b ≡ (
        has_text actions b
        || approval.action == b
        || (approval.action == "execute" && task.permissions.write_files && "write_files" == b))
grant-has_text own_first approval task actions b = ground (
  arith,
  has_text-add_action actions approval.action b,
  has_text-add_action (add_action actions approval.action) "write_files" b,
  has_text-add_action actions "write_files" b,
  has_text-add_action (add_action actions "write_files") approval.action b,
)

-- What is written under a key of the metadata is read back as the list that it is.
pub list_field-set :
    (fs : Fields) (k : String) (xs : List Json)
    → list_field (set_field fs k (arr (of_list xs))) k ≡ ok xs
unfolding list_field list_of
list_field-set fs k xs =
    ground (arith, get-set_field fs k k (arr (of_list xs)), eq_refl k, to_list-of_list xs)
